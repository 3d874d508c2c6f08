-- ===== src/Deroute/Priority.antt =====
-- The scans for the most urgent request: traps from cause 0 up, interrupts and suspensions from
-- level 31 down.
use mitra_15_for_simh.Prelude.{
  ℕ, zero, suc, ◌<◌, ◌≡◌, inl, inr, Bool, true, false, Bool-cases, Option, none, some, arith, ◌==◌,
  if◌then◌else◌,
}
use mitra_15_for_simh.Deroute.{mitra_resolve_trap_cause}
use mitra_15_for_simh.Deroute.Interrupt.{highest_below}

-- The answer of a scan for the highest request below `n`.
pub data IsHighest (bits : ℕ → Bool) (n : ℕ) : Option ℕ → Type 0 where
  nothing : ((k : ℕ) → k < n → bits k ≡ false) → IsHighest bits n none
  highest :
      (level : ℕ)
      → level < n
      → bits level ≡ true
      → ((k : ℕ) → level < k → k < n → bits k ≡ false)
      → IsHighest bits n (some level)

below_suc : (n : ℕ) (P : ℕ → Type 0) → P n → ((k : ℕ) → k < n → P k) → (k : ℕ) → k < suc n → P k
below_suc n P last rest k lt = elim (Bool-cases (k == n)) [
  | inl e ↦ let same : k ≡ n = ground arith in rw same last
  | inr e ↦ rest k (ground arith)
]

higher :
    (bits : ℕ → Bool) (n : ℕ) (r : Option ℕ)
    → bits n ≡ false
    → IsHighest bits n r
    → IsHighest bits (suc n) r
higher bits n _ clear (nothing h) = nothing (below_suc n (λ k. bits k ≡ false) clear h)
higher bits n _ clear (highest level lt set h) = highest level (omega arith) set (λ k above below.
    below_suc n (λ k. level < k → bits k ≡ false) (λ _. clear) (λ k lt above. h k above lt) k below
      above)

-- The scan of the bits below a bound finds the highest one that is set, and none only where all
-- are clear.
pub highest_below-IsHighest : (n : ℕ) (bits : ℕ → Bool) → IsHighest bits n (highest_below n bits)
unfolding highest_below
highest_below-IsHighest zero bits = nothing (λ k lt. ground arith)
highest_below-IsHighest (suc n) bits =
    let rest = highest_below-IsHighest n bits in
    elim (Bool-cases (bits n)) [
      | inl set ↦ rw set (highest n (omega arith) set (λ k above below. ground arith))
      | inr clear ↦ rw clear (higher bits n _ clear rest)
    ]

-- The answer of the search for a trap: the first of the causes 0 to 5 that is requested.
pub data IsFirst (bits : ℕ → Bool) : Option ℕ → Type 0 where
  no_cause : ((k : ℕ) → k < 6 → bits k ≡ false) → IsFirst bits none
  first :
      (cause : ℕ)
      → cause < 6
      → bits cause ≡ true
      → ((k : ℕ) → k < cause → bits k ≡ false)
      → IsFirst bits (some cause)

look :
    (bits : ℕ → Bool) (k : ℕ) (r : Option ℕ)
    → k < 6
    → ((j : ℕ) → j < k → bits j ≡ false)
    → (((j : ℕ) → j < suc k → bits j ≡ false) → IsFirst bits r)
    → IsFirst bits (if bits k then some k else r)
look bits k r lt below rest = elim (Bool-cases (bits k)) [
  | inl set ↦ rw set (first k lt set below)
  | inr clear ↦ rw clear (rest (below_suc k (λ j. bits j ≡ false) clear below))
]

-- Traps are resolved by priority: the answer is the smallest requested cause below 6, and none
-- only where no such cause is requested.
pub mitra_resolve_trap_cause-IsFirst :
    (bits : ℕ → Bool) → IsFirst bits (mitra_resolve_trap_cause bits)
unfolding mitra_resolve_trap_cause
mitra_resolve_trap_cause-IsFirst bits =
    look bits 0 _ (omega arith) (λ k lt. ground arith)
      λ below_1. look bits 1 _ (omega arith) below_1 λ below_2.
        look bits 2 _ (omega arith) below_2 λ below_3.
          look bits 3 _ (omega arith) below_3 λ below_4.
            look bits 4 _ (omega arith) below_4
              λ below_5. look bits 5 _ (omega arith) below_5 no_cause
