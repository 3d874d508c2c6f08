-- ===== src/Disassembler/Flow/Branch.antt =====
-- The successors of a relative branch in the trace of Disassembler/disassembler_v7.c.
use mathlib.Core.List.Memᴰ
use Prim.Native.String.{String}
use mitra_15_for_simh.Prelude.{
  ℕ, zero, suc, ◌+◌, ◌-◌, ◌*◌, ◌/◌, ◌%◌, ◌<◌, ◌≡◌, inl, inr, refl, sym, ap, ◌∙◌, true, false, not,
  ◌||◌, some, [], ◌++◌, Memᴰ, ◌==◌, lt→ltb, Bool-cases, if◌then◌else◌, arith,
}
use mitra_15_for_simh.Disassembler.Insn.{Insn, get_elem?, br_names, is_branch}
use mitra_15_for_simh.Disassembler.Decode.{branch_insn, undecoded, decode_insn, is_valid}
use mitra_15_for_simh.Disassembler.Image.{Options, Image, max_mem_words, idx}
use mitra_15_for_simh.Disassembler.Operand.{at_address, compute_operand, prev_is_spa}
use mitra_15_for_simh.Disassembler.Flow.{
  edge_branch, edge_fallthrough, next_word, branch_edge, get_successors,
}
use mitra_15_for_simh.Disassembler.Flow.Reached.{FollowsTo}

-- The values of the options that a branch reads, as they are without arguments.
pub record HasDefaults (opts : Options) : Type 0 where
  pub follows : opts.follow_branches ≡ true
  pub from_here : opts.rel_base ≡ 0
  pub in_words : opts.br_scale ≡ 2

-- A relative branch other than BRX.
pub record IsRelative (inst : ℕ) : Type 0 where
  pub digit : inst / 4096 ≡ 12
  pub no_brx : (inst / 256 % 8 == 1) ≡ false

branch-decoded : (inst : ℕ) → inst / 4096 ≡ 12 → decode_insn inst ≡ branch_insn (undecoded inst)
unfolding decode_insn undecoded
branch-decoded inst h = rw h refl

abbrev pub target : (w inst : ℕ) → ℕ
target w inst =
    if inst / 2048 % 2 == 1
    then (w * 2 + 4294967296 - inst % 256 * 2) % 65536
    else (w * 2 + inst % 256 * 2) % 65536

name_of_branch : (n : ℕ) → n < 8 → (name : String) × (get_elem? br_names n ≡ some name)
unfolding get_elem?
name_of_branch zero h = (_, refl)
name_of_branch (suc zero) h = (_, refl)
name_of_branch (suc (suc zero)) h = (_, refl)
name_of_branch (suc (suc (suc zero))) h = (_, refl)
name_of_branch (suc (suc (suc (suc zero)))) h = (_, refl)
name_of_branch (suc (suc (suc (suc (suc zero))))) h = (_, refl)
name_of_branch (suc (suc (suc (suc (suc (suc zero)))))) h = (_, refl)
name_of_branch (suc (suc (suc (suc (suc (suc (suc zero))))))) h = (_, refl)
name_of_branch (suc (suc (suc (suc (suc (suc (suc (suc n)))))))) h = absurd (omega arith)

branch-valid : (inst : ℕ) → is_valid (branch_insn (undecoded inst)) ≡ true
unfolding branch_insn undecoded
branch-valid inst = rw ((name_of_branch (inst / 256 % 8) (omega arith)).1) refl

add_zero : (n : ℕ) → n + 0 ≡ n
add_zero n = omega arith

branch-operand :
    (opts : Options) (img : Image) (w inst : ℕ)
    → HasDefaults opts
    → inst / 4096 ≡ 12
    → compute_operand opts img w (branch_insn (undecoded inst)) ≡ at_address (target w inst)
unfolding compute_operand branch_insn undecoded
branch-operand opts img w inst d h = elim (Bool-cases (inst / 2048 % 2 == 1)) [
  | inl back ↦ rw (h, back, d.from_here, d.in_words) (rw (add_zero (w * 2)) refl)
  | inr on ↦ rw (h, on, d.from_here, d.in_words) (rw (add_zero (w * 2)) refl)
]

successors-branch :
    (opts : Options) (img : Image) (w inst hops : ℕ) (d : Insn) (ea : ℕ)
    → decode_insn inst ≡ d
    → is_valid d ≡ true
    → is_branch d.cls ≡ true
    → d.is_brx ≡ false
    → opts.follow_branches ≡ true
    → compute_operand opts img w d ≡ at_address ea
    → get_successors opts img w inst hops
      ≡ (if not d.is_uncond || prev_is_spa img w then next_word w hops else [])
        ++ branch_edge true ea
unfolding get_successors
successors-branch opts img w inst hops d ea e valid branch brx follows o =
    rw (e, valid, branch, o, brx, follows) refl

branch-fields :
    (inst : ℕ)
    → (is_branch (branch_insn (undecoded inst)).cls ≡ true)
      × ((branch_insn (undecoded inst)).is_brx ≡ (inst / 256 % 8 == 1))
      × ((branch_insn (undecoded inst)).is_uncond ≡ (inst / 256 % 8 == 7))
unfolding branch_insn undecoded
branch-fields inst = (refl, refl, refl)

branch-successors :
    (opts : Options) (img : Image) (w inst hops : ℕ)
    → HasDefaults opts
    → IsRelative inst
    → get_successors opts img w inst hops
      ≡ (if not (inst / 256 % 8 == 7) || prev_is_spa img w then next_word w hops else [])
        ++ branch_edge true (target w inst)
branch-successors opts img w inst hops d r =
    let (branch, brx, uncond) = branch-fields inst in
    rw (sym uncond) (
      successors-branch opts img w inst hops (branch_insn (undecoded inst)) (target w inst)
        (branch-decoded inst r.digit) (branch-valid inst) branch (brx ∙ r.no_brx) d.follows
        (branch-operand opts img w inst d r.digit))

pub to_target-FollowsTo :
    (opts : Options) (img : Image) (w : ℕ)
    → HasDefaults opts
    → IsRelative (img.word w)
    → FollowsTo opts img w (idx (target w (img.word w)))
unfolding branch_edge
to_target-FollowsTo opts img w d r = record {
  is_step = λ now hops b.
      let same : img.word w ≡ now.word w = ap (λ f. f w) b.word in
      (
        record { to = idx (target w (img.word w)); kind = edge_branch; hops = 0 },
        Memᴰ.append_left {s = get_successors opts now w (now.word w) hops} _ (
            rw (sym same, branch-successors opts now w (img.word w) hops d r)
              (Memᴰ.append_right _ (Memᴰ.head refl))),
        refl,
      );
}

pub past_it-FollowsTo :
    (opts : Options) (img : Image) (w : ℕ)
    → HasDefaults opts
    → IsRelative (img.word w)
    → w + 1 < max_mem_words
    → (img.word w / 256 % 8 == 7) ≡ false
    → FollowsTo opts img w (w + 1)
unfolding next_word
past_it-FollowsTo opts img w d r room cond = record {
  is_step = λ now hops b.
      let same : img.word w ≡ now.word w = ap (λ f. f w) b.word in
      (
        record { to = w + 1; kind = edge_fallthrough; hops = hops + 1 },
        Memᴰ.append_left {s = get_successors opts now w (now.word w) hops} _ (
            rw
              (
                sym same,
                branch-successors opts now w (img.word w) hops d r,
                cond,
                lt→ltb (w + 1) max_mem_words room,
              )
              (Memᴰ.head refl)),
        refl,
      );
}
