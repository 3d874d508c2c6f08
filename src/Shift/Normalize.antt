-- ===== src/Shift/Normalize.antt =====
-- `normalize` of Mitra/mitra_instr_utils.c: when its loop stops and with what.
use mitra_15_for_simh.Prelude.{
  ℕ, zero, suc, ◌+◌, ◌*◌, ◌/◌, ◌%◌, ◌^◌, ◌≤◌, ◌<◌, ◌≡◌, ◌⊎◌, inl, inr, true, false, Bool,
  Bool-cases, ◌==◌, ==_iff, sym, ltb, arith,
}
use native.Mathlib.Nat.{mul-one}
use mitra_15_for_simh.Shift.{normalize_loop}
use mitra_15_for_simh.Shift.Laws.{doubled}

-- The two top bits of a 32-bit word are equal: the loop goes on.
abbrev pub has_equal_top : ℕ → Bool
has_equal_top word = word / 0x80000000 % 2 == word / 0x40000000 % 2

-- A state in which the loop may stop: `from` moved by the steps counted, and at the limit or with
-- two different top bits. Before each of the steps the top bits were equal.
pub record IsNormalized (max_steps from word steps : ℕ) : Type 0 where
  pub bounded : steps ≤ max_steps
  pub moved : word ≡ from * 2 ^ steps % 4294967296
  pub equal_before : (k : ℕ) → k < steps → has_equal_top (from * 2 ^ k % 4294967296) ≡ true
  pub stopped : (steps ≡ max_steps) ⊎ (has_equal_top word ≡ false)

loop-IsNormalized :
    (rounds max_steps from word steps : ℕ)
    → max_steps ≤ steps + rounds
    → steps ≤ max_steps
    → word ≡ from * 2 ^ steps % 4294967296
    → ((k : ℕ) → k < steps → has_equal_top (from * 2 ^ k % 4294967296) ≡ true)
    → IsNormalized max_steps from
        (normalize_loop rounds max_steps word steps).word
        (normalize_loop rounds max_steps word steps).steps
unfolding normalize_loop
loop-IsNormalized zero max_steps from word steps enough le moved before = record {
  bounded = le;
  moved = moved;
  equal_before = before;
  stopped = inl (omega arith);
}
loop-IsNormalized (suc rounds) max_steps from word steps enough le moved before =
    let same : steps + 1 ≡ suc steps = omega arith in
    let next : word * 2 % 4294967296 ≡ from * 2 ^ (steps + 1) % 4294967296 =
      rw (same, doubled) (omega arith) in
    let last_step : (k : ℕ) → (k == steps) ≡ true → k ≡ steps = λ k e. (==_iff k steps).0 e in
    elim (Bool-cases (ltb steps max_steps)) [
      | inr limit ↦ rw limit (record {
        bounded = le;
        moved = moved;
        equal_before = before;
        stopped = inl (ground arith);
      })
      | inl below ↦ elim (Bool-cases (has_equal_top word)) [
        | inr differ ↦
            rw (below, differ)
              (record { bounded = le; moved = moved; equal_before = before; stopped = inr differ })
        | inl equal ↦
            rw (below, equal)
              (loop-IsNormalized rounds max_steps from _ (steps + 1) (omega arith) (ground arith)
                next
                (λ k lt. elim (Bool-cases (k == steps)) [
                  | inl last ↦ rw (last_step k last, sym moved) equal
                  | inr other ↦ before k (ground arith)
                ]))
      ]
    ]

-- The loop of `normalize`, whose 31 rounds are enough for any limit up to 31, returns a 32-bit
-- double word shifted left by the steps it counts, at most the limit, and stops only at the
-- limit or with two different top bits, and the two top bits were equal before each step.
pub normalize_loop-IsNormalized :
    (max_steps word : ℕ)
    → max_steps ≤ 31
    → word < 4294967296
    → IsNormalized max_steps word
        (normalize_loop 31 max_steps word 0).word
        (normalize_loop 31 max_steps word 0).steps
normalize_loop-IsNormalized max_steps word le lt =
    loop-IsNormalized 31 max_steps word word 0 le (omega arith) (rw mul-one (omega arith))
      (λ k lt. absurd (omega arith))
