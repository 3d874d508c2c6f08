-- ===== src/Disassembler/Flow/Traced.antt =====
-- The words that `flow_trace` of Disassembler/disassembler_v7.c marks are those that the entries reach.
use mathlib.Core.List.Memᴰ
use mathlib.Core.Path.{subst}
use mitra_15_for_simh.Prelude.{
  ℕ, zero, suc, ◌≡◌, ◌⊎◌, inl, inr, refl, sym, ◌∙◌, true, false, Option, none, some, Memᴰ, ◌==◌,
  Bool-cases, arith,
}
use mitra_15_for_simh.Disassembler.Image.{Options, Image, max_mem_words}
use mitra_15_for_simh.Disassembler.Flow.{
  Trace, start_trace, flow_trace_once, flow_trace, flow_rounds, count_call_slots,
}
use mitra_15_for_simh.Disassembler.Flow.Base.{SameBase}
use mitra_15_for_simh.Disassembler.Flow.Steps.{same-SameBase}
use mitra_15_for_simh.Disassembler.Flow.Ends.{
  loop_rule, flow_rounds-zero, flow_rounds-none, flow_rounds-next,
}
use mitra_15_for_simh.Disassembler.Flow.Reached.{
  Reached, FollowsTo, IsSettled, Inv, Inv-start, Inv-visit,
}

pub some-injective {ℓ} : {A : Type ℓ} (x y : A) → some x ≡ some y → x ≡ y
some-injective x y h = cc

pub Option-cases {ℓ} : {A : Type ℓ} (o : Option A) → (o ≡ none) ⊎ ((x : A) × (o ≡ some x))
Option-cases none = inl refl
Option-cases (some x) = inr (x, refl)

module _ (opts : Options) (img : Image) where
  -- The image is traced: code is what the entries reach, and what is visited is settled.
  pub record IsTraced (out : Image) : Type 0 where
    pub base : SameBase img out
    pub code_Reached : (w : ℕ) → out.is_code w ≡ true → Reached opts img w
    pub entries_visited :
        (w : ℕ) → Memᴰ w img.entry_points → img.loaded w ≡ true → out.visited w ≡ true
    pub visited_IsSettled : (w : ℕ) → out.visited w ≡ true → IsSettled opts img out w

  flow_trace_once-IsTraced :
      (now : Image) (t : Trace)
      → SameBase img now
      → flow_trace_once opts now ≡ some t
      → IsTraced t.image
  unfolding flow_trace_once
  flow_trace_once-IsTraced now t b h =
      let (inv, done) =
        loop_rule opts (Inv opts img) (Inv-visit opts img) max_mem_words (start_trace now) t
          (Inv-start opts img now b) h in
      record {
        base = inv.base;
        code_Reached = inv.code;
        entries_visited = inv.entries;
        visited_IsSettled = λ w v. elim (inv.visited w v) [
          | inl (e, m, _) ↦ absurd (Memᴰ.not-nil (rw done at m))
          | inr settled ↦ settled
        ];
      }

  flow_rounds-IsTraced :
      (left : ℕ) (now out : Image)
      → SameBase img now
      → (left ≡ 0 → IsTraced now)
      → flow_rounds opts left now ≡ some out
      → IsTraced out
  flow_rounds-IsTraced zero now out b last h =
      let same : now ≡ out = some-injective now out (sym (flow_rounds-zero opts now) ∙ h) in
      subst IsTraced same (last refl)
  flow_rounds-IsTraced (suc left) now out b last h =
      elim (Option-cases (flow_trace_once opts now)) [
        | inl e ↦ let n = flow_rounds-none opts left now e in absurd (cc)
        | inr (t, e) ↦
            let traced = flow_trace_once-IsTraced now t b e in
            let next = flow_rounds-next opts left now t e in
            elim (Bool-cases (count_call_slots t.image == count_call_slots now)) [
              | inl stable ↦
                  subst IsTraced (some-injective t.image out (sym (rw stable at next) ∙ h)) traced
              | inr moved ↦
                  flow_rounds-IsTraced left t.image out traced.base (λ _. traced)
                    (sym (rw moved at next) ∙ h)
            ]
      ]

flow_trace-IsTraced :
    (opts : Options) (img out : Image) → flow_trace opts img ≡ some out → IsTraced opts img out
unfolding flow_trace
flow_trace-IsTraced opts img out h =
    flow_rounds-IsTraced opts img 8 img out (same-SameBase img) (λ e. absurd (omega arith)) h

-- A word that is neither data nor text at the end.
pub record IsPlain (img out : Image) (w : ℕ) : Type 0 where
  pub loaded : img.loaded w ≡ true
  pub no_struct : img.is_struct w ≡ false
  pub no_slot : out.call_slot w ≡ false
  pub no_text : out.is_text w ≡ false

-- The plain words that an entry runs through.
pub data RunsTo (opts : Options) (img out : Image) : ℕ → Type 0 where
  at_entry : {w : ℕ} → Memᴰ w img.entry_points → IsPlain img out w → RunsTo opts img out w
  after :
      {w v : ℕ}
      → RunsTo opts img out w
      → FollowsTo opts img w v
      → IsPlain img out v
      → RunsTo opts img out v

plain-settled :
    (opts : Options) (img out : Image) (w : ℕ)
    → IsPlain img out w
    → IsSettled opts img out w
    → (out.is_code w ≡ true)
      × ((v : ℕ) → FollowsTo opts img w v → img.loaded v ≡ true → out.visited v ≡ true)
plain-settled opts img out w p h = elim h [
  | inl s ↦ absurd (cc)
  | inr (inl s) ↦ absurd (cc)
  | inr (inr (k, inl t)) ↦ absurd (cc)
  | inr (inr (k, inr closed)) ↦ (k, closed)
]

runs-visited :
    (opts : Options) (img out : Image) (w : ℕ)
    → IsTraced opts img out
    → RunsTo opts img out w
    → (out.visited w ≡ true) × IsPlain img out w
runs-visited opts img out w t (at_entry m p) = (t.entries_visited w m p.loaded, p)
runs-visited opts img out w t (after {w = u} r f p) =
    let (seen, plain) = runs-visited opts img out u t r in
    ((plain-settled opts img out u plain (t.visited_IsSettled u seen)).1 w f p.loaded, p)

-- Where the trace of the disassembler returns, every word that is marked as code is a loaded
-- entry, or a loaded word that such a word reaches in steps, each of them a successor or a word
-- of a jump table for some flags of the trace over the same words and tables.
pub is_code-Reached :
    (opts : Options) (img out : Image) (w : ℕ)
    → flow_trace opts img ≡ some out
    → out.is_code w ≡ true
    → Reached opts img w
is_code-Reached opts img out w h k = (flow_trace-IsTraced opts img out h).code_Reached w k

-- Where the trace of the disassembler returns, every word that an entry reaches through
-- successors that do not depend on the flags of the trace is marked as code, provided that each
-- word of the way is loaded, is of no structure, and is at the end neither a return cell nor
-- text.
pub RunsTo-is_code :
    (opts : Options) (img out : Image) (w : ℕ)
    → flow_trace opts img ≡ some out
    → RunsTo opts img out w
    → out.is_code w ≡ true
RunsTo-is_code opts img out w h r =
    let t = flow_trace-IsTraced opts img out h in
    let (seen, plain) = runs-visited opts img out w t r in
    (plain-settled opts img out w plain (t.visited_IsSettled w seen)).0
