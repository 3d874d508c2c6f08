-- ===== src/Disassembler/Text/Runs.antt =====
-- The words that `find_text_candidates` of Disassembler/disassembler_v7.c flags.
use mitra_15_for_simh.Prelude.{
  ℕ, zero, suc, ◌+◌, ◌-◌, ◌<◌, ◌≤◌, ◌≡◌, ◌↔◌, ◌⊎◌, inl, inr, sym, true, ◌==◌, ==_iff, leb, ltb,
  arith, Bool-cases,
}
use mitra_15_for_simh.Disassembler.Image.{Options, Image}
use mitra_15_for_simh.Disassembler.Text.{
  looks_like_text, run_end, text_round, text_loop, find_text_candidates,
}
use mitra_15_for_simh.Disassembler.Text.Rounds.{
  run_end-IsRunEnd, round-looks, round-flags, round-goes_on,
}

-- `k` stands in a run from `lo` on and below `hi` that is long enough.
pub record InTextRun (opts : Options) (img : Image) (lo hi k : ℕ) : Type 0 where
  pub first : ℕ
  pub last : ℕ
  pub from_lo : lo ≤ first
  pub first_le : first ≤ k
  pub lt_last : k < last
  pub below_hi : last ≤ hi
  pub is_long : opts.min_text_words ≤ last - first
  pub is_run : (j : ℕ) → first ≤ j → j < last → looks_like_text img j ≡ true

-- A run that a later round sees is one that this round sees.
later-InTextRun :
    (opts : Options) (i hi k : ℕ) (img : Image)
    → i < hi
    → InTextRun opts (text_round opts i hi img).1 (text_round opts i hi img).0 hi k
    → InTextRun opts img i hi k
later-InTextRun opts i hi k img h r =
    let on = round-goes_on opts i hi img h in
    record {
      first = r.first;
      last = r.last;
      from_lo = omega (arith, r.from_lo, on.0);
      first_le = r.first_le;
      lt_last = r.lt_last;
      below_hi = r.below_hi;
      is_long = r.is_long;
      is_run = λ j a b. rw (sym (round-looks opts i hi img j)) (r.is_run j a b);
    }

-- A run that starts where the loop runs ends where it does at the latest.
run_covers :
    (img : Image) (left i first last : ℕ)
    → last ≤ i + left
    → ((j : ℕ) → first ≤ j → j < last → looks_like_text img j ≡ true)
    → first ≤ run_end img left i
    → last ≤ run_end img left i
run_covers img left i first last h run here = elim (Bool-cases (leb last (run_end img left i))) [
  | inl e ↦ ground arith
  | inr e ↦
      let r = run_end-IsRunEnd img left i in
      let is = run (run_end img left i) here (ground arith) in
      let not = r.stops (ground arith) in absurd (cc)
]

-- A long run is flagged by this round, or a later round sees it.
past_round :
    (opts : Options) (i hi : ℕ) (img : Image) (first : ℕ)
    → i < hi
    → i ≤ first
    → run_end img (hi - i) i ≤ first
    → looks_like_text img first ≡ true
    → (text_round opts i hi img).0 ≤ first
past_round opts i hi img first h from past is =
    let on = round-goes_on opts i hi img h in
    let r = run_end-IsRunEnd img (hi - i) i in
    elim (Bool-cases (first == i)) [
      | inl at_i ↦
          let at = (==_iff first i).0 at_i in
          let not = r.stops (omega (arith, at, past, h)) in
          let same : run_end img (hi - i) i ≡ first = omega (arith, r.from_i, past, at) in
          absurd (cc)
      | inr off ↦ ground (arith, on.2)
    ]

this_or_later :
    (opts : Options) (i hi k : ℕ) (img : Image)
    → i < hi
    → InTextRun opts img i hi k
    → ((text_round opts i hi img).1.is_text k ≡ true)
      ⊎ InTextRun opts (text_round opts i hi img).1 (text_round opts i hi img).0 hi k
this_or_later opts i hi k img h r = elim (Bool-cases (ltb r.first (run_end img (hi - i) i))) [
  | inl here ↦
      let covered =
        run_covers img (hi - i) i r.first r.last (omega (arith, r.below_hi)) r.is_run
          (ground arith) in
      inl (
        (round-flags opts i hi img k).1 (
          inr (
            omega (arith, r.from_lo, r.first_le),
            omega (arith, r.lt_last, covered),
            omega (arith, r.is_long, r.from_lo, covered),
          )))
  | inr later ↦ inr (record {
    first = r.first;
    last = r.last;
    from_lo =
        past_round opts i hi img r.first h r.from_lo (ground arith)
          (r.is_run r.first (omega arith) (omega (arith, r.first_le, r.lt_last)));
    first_le = r.first_le;
    lt_last = r.lt_last;
    below_hi = r.below_hi;
    is_long = r.is_long;
    is_run = λ j a b. rw (round-looks opts i hi img j) (r.is_run j a b);
  })
]

text_loop-flags :
    (opts : Options) (fuel i hi : ℕ) (img : Image) (k : ℕ)
    → hi ≤ i + fuel
    → ((text_loop opts fuel i hi img).is_text k ≡ true)
      ↔ ((img.is_text k ≡ true) ⊎ InTextRun opts img i hi k)
unfolding text_loop
text_loop-flags opts zero i hi img k h = (
  inl,
  λ s. elim s [
    | inl t ↦ t
    | inr r ↦ absurd (omega (arith, r.from_lo, r.first_le, r.lt_last, r.below_hi))
  ],
)
text_loop-flags opts (suc fuel) i hi img k h = elim (Bool-cases (ltb i hi)) [
  | inl e ↦
      let go =
        text_loop-flags opts fuel (text_round opts i hi img).0 hi (text_round opts i hi img).1 k
          (omega (arith, (round-goes_on opts i hi img (ground arith)).0)) in
      let flags = round-flags opts i hi img k in
      let in_range : i < hi = ground arith in
      rw e (
        λ t. elim (go.0 t) [
          | inl now ↦ elim (flags.0 now) [
            | inl t ↦ inl t
            | inr (a, b, c) ↦ inr (record {
              first = i;
              last = run_end img (hi - i) i;
              from_lo = omega arith;
              first_le = a;
              lt_last = b;
              below_hi = omega (arith, (run_end-IsRunEnd img (hi - i) i).in_left, in_range);
              is_long = c;
              is_run = (run_end-IsRunEnd img (hi - i) i).is_run;
            })
          ]
          | inr r ↦ inr (later-InTextRun opts i hi k img (ground arith) r)
        ],
        λ s. elim s [
          | inl t ↦ go.1 (inl (flags.1 (inl t)))
          | inr r ↦ go.1 (this_or_later opts i hi k img (ground arith) r)
        ],
      )
  | inr e ↦ rw e (
    inl,
    λ s. elim s [
      | inl t ↦ t
      | inr r ↦ absurd (ground (arith, r.from_lo, r.first_le, r.lt_last, r.below_hi))
    ],
  )
]

-- A word is flagged as text by the first pass of the disassembler exactly where it was flagged
-- before, or stands in a run of loaded words in the given range, both bytes of each of which
-- look like EBCDIC text, at least as long as the minimum.
pub find_text_candidates-flags :
    (opts : Options) (lo hi : ℕ) (img : Image) (k : ℕ)
    → ((find_text_candidates opts lo hi img).is_text k ≡ true)
      ↔ ((img.is_text k ≡ true) ⊎ InTextRun opts img lo hi k)
unfolding find_text_candidates
find_text_candidates-flags opts lo hi img k =
    text_loop-flags opts (hi - lo) lo hi img k (omega arith)
