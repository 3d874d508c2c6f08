-- ===== src/Disassembler/Text.antt =====
-- Pass 1 of Disassembler/disassembler_v7.c: runs of words that look like text.
pub mod Rounds
pub mod Runs
use mitra_15_for_simh.Prelude.{
  ℕ, zero, suc, ◌+◌, ◌-◌, ◌/◌, ◌%◌, ◌<◌, ◌≤◌, ◌≡◌, ◌⊎◌, inl, inr, refl, Bool, true, false, not,
  ◌&&◌, ◌||◌, ◌==◌, leb, ltb, arith, if◌then◌else◌, Bool-cases,
}
use mitra_15_for_simh.Disassembler.Image.{Options, Image}
use mitra_15_for_simh.Disassembler.Ebcdic.{is_ebcdic_text_byte}

-- A word that is loaded and whose bytes look like text.
unfoldable pub looks_like_text : Image → ℕ → Bool
looks_like_text img i =
    img.loaded i
    && (is_ebcdic_text_byte (img.word i / 256 % 256) && is_ebcdic_text_byte (img.word i % 256))

-- The inner loop: the end of the run that starts at `i`.
unfoldable pub run_end : Image → (left i : ℕ) → ℕ
run_end img zero i = i
run_end img (suc left) i =
    let rest = run_end img left (i + 1) in if looks_like_text img i then rest else i

-- `for (k = start; k < i; k++) mem_is_text[k] = true`.
unfoldable pub flag_run : (start i : ℕ) → Image → Image
flag_run start i img = record img { is_text = λ k. leb start k && ltb k i || img.is_text k }

-- A round of the outer loop: the index of the next one, and the image.
unfoldable pub text_round : Options → (i hi : ℕ) → Image → ℕ × Image
unfolding run_end flag_run
text_round opts i hi img =
    let e : ℕ = run_end img (hi - i) i in
    if not (img.loaded i) then (i + 1, img) else (
      if e == i then i + 1 else e,
      if leb opts.min_text_words (e - i) then flag_run i e img else img,
    )

-- The outer loop, with the rounds left.
unfoldable pub text_loop : Options → (fuel i hi : ℕ) → Image → Image
text_loop opts zero i hi img = img
text_loop opts (suc fuel) i hi img =
    let r = text_round opts i hi img in
    let rest = text_loop opts fuel r.0 hi r.1 in if ltb i hi then rest else img

-- Each round goes on by a word or more.
unfoldable pub find_text_candidates : Options → (lo hi : ℕ) → Image → Image
unfolding text_loop
find_text_candidates opts lo hi img = text_loop opts (hi - lo) lo hi img
