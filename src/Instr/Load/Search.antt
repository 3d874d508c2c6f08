-- ===== src/Instr/Load/Search.antt =====
-- CPS: the loop that looks for a byte in a string.
use mitra_15_for_simh.Prelude.{
  ℕ, zero, suc, ◌+◌, ◌<◌, ◌≤◌, ◌%◌, ◌≡◌, ◌≢◌, ◌∙◌, refl, inl, inr, true, false, Bool-cases, ◌==◌,
  arith,
}
use mitra_15_for_simh.State.{CpuState}
use mitra_15_for_simh.Run.{done, pure}
use mitra_15_for_simh.Run.Steps.{bind_done}
use mitra_15_for_simh.Memory.Bytes.{byte_at, read_byte_lem}
use mitra_15_for_simh.Instr.Load.{cps_loop}

-- The byte of the string at an index.
abbrev pub string_byte : (base k : ℕ) → CpuState → ℕ
string_byte base k s = byte_at ((base + k) % 65536) s

-- The loop returns, without a change of the state, the first index from `i` on at which the byte
-- is found, with its address, or else the end of the string.
pub record Finds (left s_byte base i addr : ℕ) (s : CpuState) : Type 0 where
  pub index : ℕ
  pub last : ℕ
  pub returns : cps_loop left s_byte base i addr s ≡ done (record { i = index; addr = last }) s
  pub from : i ≤ index
  pub to : index ≤ i + left
  pub misses : (k : ℕ) → i ≤ k → k < index → s_byte ≢ string_byte base k s
  pub hit : index < i + left → (s_byte ≡ string_byte base index s) × (last ≡ (base + index) % 65536)

later :
    (left s_byte base i addr : ℕ) (s : CpuState)
    → s_byte ≢ string_byte base i s
    → Finds left s_byte base (i + 1) ((base + i) % 65536) s
    → Finds (suc left) s_byte base i addr s
unfolding cps_loop
later left s_byte base i addr s ne h =
    let test : (s_byte == string_byte base i s) ≡ false = ground arith in
    record {
      index = h.index;
      last = h.last;
      returns = bind_done _ _ (read_byte_lem ((base + i) % 65536) s) ∙ rw test (h.returns);
      from = let from = h.from in omega arith;
      to = let to = h.to in omega arith;
      misses = λ k above below. elim (Bool-cases (k == i)) [
        | inl e ↦ let same : k ≡ i = ground arith in rw same ne
        | inr e ↦ h.misses k (ground arith) below
      ];
      hit = λ lt. h.hit (omega arith);
    }

here :
    (left s_byte base i addr : ℕ) (s : CpuState)
    → (s_byte == string_byte base i s) ≡ true
    → Finds (suc left) s_byte base i addr s
unfolding cps_loop pure
here left s_byte base i addr s test = record {
  index = i;
  last = (base + i) % 65536;
  returns = bind_done _ _ (read_byte_lem ((base + i) % 65536) s) ∙ rw test refl;
  from = omega arith;
  to = omega arith;
  misses = λ k above below e. omega arith;
  hit = λ lt. (ground arith, refl);
}

-- The loop of CPS returns without a change of the state: the first index at which the string
-- holds the byte, with its address, or the end of the string where no byte of it is the one
-- looked for.
pub cps_loop-Finds : (left s_byte base i addr : ℕ) (s : CpuState) → Finds left s_byte base i addr s
unfolding cps_loop pure
cps_loop-Finds zero s_byte base i addr s = record {
  index = i;
  last = addr;
  returns = refl;
  from = omega arith;
  to = omega arith;
  misses = λ k above below e. omega arith;
  hit = λ lt. let absurd : ⊥ = omega arith in elim absurd [ ];
}
cps_loop-Finds (suc left) s_byte base i addr s =
    let rest = cps_loop-Finds left s_byte base (i + 1) ((base + i) % 65536) s in
    elim (Bool-cases (s_byte == string_byte base i s)) [
      | inl test ↦ here left s_byte base i addr s test
      | inr test ↦ later left s_byte base i addr s (ground arith) rest
    ]
