-- ===== src/Disassembler/Text/Rounds.antt =====
-- A round of `find_text_candidates` of Disassembler/disassembler_v7.c.
use mitra_15_for_simh.Prelude.{
  ℕ, zero, suc, ◌+◌, ◌-◌, ◌<◌, ◌≤◌, ◌≡◌, ◌↔◌, ◌⊎◌, inl, inr, refl, true, false, ◌==◌, ==_iff, arith,
  Bool-cases,
}
use mitra_15_for_simh.Disassembler.Image.{Options, Image}
use mitra_15_for_simh.Disassembler.Text.{looks_like_text, run_end, flag_run, text_round}

pub record IsRunEnd (img : Image) (left i e : ℕ) : Type 0 where
  pub from_i : i ≤ e
  pub in_left : e ≤ i + left
  pub is_run : (j : ℕ) → i ≤ j → j < e → looks_like_text img j ≡ true
  pub stops : e < i + left → looks_like_text img e ≡ false

pub run_end-IsRunEnd : (img : Image) (left i : ℕ) → IsRunEnd img left i (run_end img left i)
unfolding run_end
run_end-IsRunEnd img zero i = record {
  from_i = omega arith;
  in_left = omega arith;
  is_run = λ j a b. absurd (omega arith);
  stops = λ a. absurd (omega arith);
}
run_end-IsRunEnd img (suc left) i =
    let h = run_end-IsRunEnd img left (i + 1) in
    elim (Bool-cases (looks_like_text img i)) [
      | inl e ↦ rw e (record {
        from_i = omega (arith, h.from_i);
        in_left = omega (arith, h.in_left);
        is_run = λ j a b. elim (Bool-cases (j == i)) [
          | inl at_i ↦ rw ((==_iff j i).0 at_i) e
          | inr past ↦ h.is_run j (ground arith) b
        ];
        stops = λ a. h.stops (omega arith);
      })
      | inr e ↦ rw e (record {
        from_i = omega arith;
        in_left = omega arith;
        is_run = λ j a b. absurd (omega arith);
        stops = λ a. e;
      })
    ]

-- A round leaves what a word looks like.
pub round-looks :
    (opts : Options) (i hi : ℕ) (img : Image) (j : ℕ)
    → looks_like_text (text_round opts i hi img).1 j ≡ looks_like_text img j
unfolding text_round flag_run looks_like_text
round-looks opts i hi img j = ground arith

looks-loaded : (img : Image) (i : ℕ) → looks_like_text img i ≡ true → img.loaded i ≡ true
unfolding looks_like_text
looks-loaded img i h = ground arith

-- Where a word is not loaded no run starts.
run_end-blank : (img : Image) (left i : ℕ) → img.loaded i ≡ false → run_end img left i ≡ i
unfolding run_end
run_end-blank img zero i h = refl
run_end-blank img (suc left) i h = ground (arith, looks-loaded img i)

-- A word is flagged by a round when it is in the run that starts there, and this is long enough.
pub round-flags :
    (opts : Options) (i hi : ℕ) (img : Image) (k : ℕ)
    → ((text_round opts i hi img).1.is_text k ≡ true) ↔ (
        (img.is_text k ≡ true)
        ⊎ ((i ≤ k)
            × (k < run_end img (hi - i) i)
            × (opts.min_text_words ≤ run_end img (hi - i) i - i)))
unfolding text_round flag_run
round-flags opts i hi img k = ground (arith, run_end-blank img (hi - i) i)

pub round-goes_on :
    (opts : Options) (i hi : ℕ) (img : Image)
    → i < hi
    → (i < (text_round opts i hi img).0)
      × ((text_round opts i hi img).0 ≤ hi)
      × (((text_round opts i hi img).0 ≡ run_end img (hi - i) i)
          ⊎ ((text_round opts i hi img).0 ≡ i + 1))
unfolding text_round
round-goes_on opts i hi img h =
    let r = run_end-IsRunEnd img (hi - i) i in
    ground (arith, run_end-blank img (hi - i) i, r.from_i, r.in_left)
