-- ===== src/Instr/Store/Strings.antt =====
-- MVS: the loops that move a string of bytes, upwards and downwards.
use mitra_15_for_simh.Prelude.{
  ℕ, zero, suc, ◌+◌, ◌<◌, ◌≤◌, ◌≡◌, ◌≢◌, ◌∙◌, refl, inl, inr, false, Bool-cases, ◌==◌, u8, arith,
  ==_refl,
}
use mitra_15_for_simh.State.{CpuState}
use mitra_15_for_simh.Run.Steps.{
  Returns, returns_as, pure_returns, bind_done, then_done, weaken_returns,
}
use mitra_15_for_simh.Memory.{va_to_pa, word_index}
use mitra_15_for_simh.Memory.Laws.{is_refused, stored}
use mitra_15_for_simh.Memory.Bytes.{
  byte_at, with_byte, read_byte_lem, write_byte_lem, byte_at-stored,
}
use mitra_15_for_simh.Instr.Store.{mvs_up_loop, mvs_loop}

-- `n` bytes from index `i` may be moved: memory holds words, the writes are not refused, no byte
-- of the source is a byte of the target, and the target does not wrap onto itself.
pub record IsMovable (n source target i : ℕ) (s : CpuState) : Type 0 where
  pub words : (k : ℕ) → s.mem k < 65536
  pub free : (k : ℕ) → i ≤ k → k < i + n → is_refused (target + k) s ≡ false
  pub apart :
      (j k : ℕ)
      → i ≤ j
      → j < i + n
      → i ≤ k
      → k < i + n
      → va_to_pa (source + j) ≢ va_to_pa (target + k)
  pub length : n ≤ 32768

-- The bytes of the target are those that the source held, and every other byte is as before.
pub record IsMoved (n source target i : ℕ) (s t : CpuState) : Type 0 where
  pub bytes : (k : ℕ) → i ≤ k → k < i + n → byte_at (target + k) t ≡ byte_at (source + k) s
  pub others :
      (va : ℕ)
      → ((k : ℕ) → i ≤ k → k < i + n → va_to_pa va ≢ va_to_pa (target + k))
      → byte_at va t ≡ byte_at va s

-- The state after one byte.
abbrev moved_byte : (source target i : ℕ) → CpuState → CpuState
moved_byte source target i s =
    stored (word_index (target + i))
      (with_byte (target + i) (byte_at (source + i) s) (s.mem (word_index (target + i)))) s

byte_lt : (va : ℕ) (s : CpuState) → u8 (byte_at va s) ≡ byte_at va s
byte_lt va s = ground arith

module _ (source target i : ℕ) (s : CpuState) (words : (k : ℕ) → s.mem k < 65536) where
  byte_there : byte_at (target + i) (moved_byte source target i s) ≡ byte_at (source + i) s
  byte_there =
      let word = words (word_index (target + i)) in
      let same = byte_at-stored (target + i) (target + i) (byte_at (source + i) s) s word in
      same ∙ rw (==_refl (va_to_pa (target + i))) (byte_lt (source + i) s)

  byte_elsewhere :
      (va : ℕ)
      → va_to_pa va ≢ va_to_pa (target + i)
      → byte_at va (moved_byte source target i s) ≡ byte_at va s
  byte_elsewhere va ne =
      let word = words (word_index (target + i)) in
      let e = byte_at-stored (target + i) va (byte_at (source + i) s) s word in
      let test : (va_to_pa va == va_to_pa (target + i)) ≡ false = ground arith in e ∙ rw test refl

  next_words : (k : ℕ) → (moved_byte source target i s).mem k < 65536
  next_words k = let word = words k in ground arith

module _ (n source target i : ℕ) (s : CpuState) (h : IsMovable (suc n) source target i s) where
  next-IsMovable : IsMovable n source target (i + 1) (moved_byte source target i s)
  next-IsMovable =
      let length = h.length in
      record {
        words = next_words source target i s (h.words);
        free = λ k from to. h.free k (omega arith) (omega arith);
        apart = λ j k from to from' to'.
            h.apart j k (omega arith) (omega arith) (omega arith) (omega arith);
        length = omega arith;
      }

  step-IsMoved :
      (t : CpuState)
      → IsMoved n source target (i + 1) (moved_byte source target i s) t
      → IsMoved (suc n) source target i s t
  step-IsMoved t m = record {
    bytes = λ k from to. elim (Bool-cases (k == i)) [
      | inl e ↦
          let same : k ≡ i = ground arith in
          rw same (
            m.others (target + i) (λ j from' to'. distinct j from' to')
            ∙ byte_there source target i s (h.words))
      | inr e ↦
          m.bytes k (ground arith) (omega arith)
          ∙ byte_elsewhere source target i s (h.words) (source + k)
              (h.apart k i from to (omega arith) (omega arith))
    ];
    others = λ va ne.
        m.others va (λ j from to. ne j (omega arith) (omega arith))
        ∙ byte_elsewhere source target i s (h.words) va (ne i (omega arith) (omega arith));
  }
    where
      distinct : (j : ℕ) → i + 1 ≤ j → j < i + 1 + n → va_to_pa (target + i) ≢ va_to_pa (target + j)
      distinct j from to e = let length = h.length in omega arith

-- The loop of MVS that moves a string upwards returns, where the memory holds 16-bit words, no
-- write is refused, no byte of the source is a byte of the target and the length is at most
-- 32768: every byte of the target is then the byte that the source held at its index, and every
-- other byte is as before.
pub mvs_up_loop-IsMoved :
    (n source target i : ℕ) (s : CpuState)
    → IsMovable n source target i s
    → Returns (mvs_up_loop n source target i s) tt (IsMoved n source target i s)
unfolding mvs_up_loop
mvs_up_loop-IsMoved zero source target i s h =
    pure_returns s (record { bytes = λ k from to. ground arith; others = λ va ne. refl })
mvs_up_loop-IsMoved (suc n) source target i s h =
    returns_as (bind_done _ _ (read_byte_lem (source + i) s)) (
      returns_as
        (then_done _ _ (write_byte_lem (target + i) _ s (h.free i (omega arith) (omega arith))))
        (weaken_returns
          (mvs_up_loop-IsMoved n source target (i + 1) (moved_byte source target i s)
            (next-IsMovable n source target i s h))
          (step-IsMoved n source target i s h)))

-- The same from the last byte down.
module _ (n source target : ℕ) (s : CpuState) (h : IsMovable (suc n) source target 0 s) where
  down-IsMovable : IsMovable n source target 0 (moved_byte source target n s)
  down-IsMovable =
      let length = h.length in
      record {
        words = next_words source target n s (h.words);
        free = λ k from to. h.free k from (omega arith);
        apart = λ j k from to from' to'. h.apart j k from (omega arith) from' (omega arith);
        length = omega arith;
      }

  down-IsMoved :
      (t : CpuState)
      → IsMoved n source target 0 (moved_byte source target n s) t
      → IsMoved (suc n) source target 0 s t
  down-IsMoved t m = record {
    bytes = λ k from to. elim (Bool-cases (k == n)) [
      | inl e ↦
          let same : k ≡ n = ground arith in
          rw same (
            m.others (target + n) (λ j from' to'. distinct j to')
            ∙ byte_there source target n s (h.words))
      | inr e ↦
          m.bytes k from (ground arith)
          ∙ byte_elsewhere source target n s (h.words) (source + k)
              (h.apart k n from to (omega arith) (omega arith))
    ];
    others = λ va ne.
        m.others va (λ j from to. ne j from (omega arith))
        ∙ byte_elsewhere source target n s (h.words) va (ne n (omega arith) (omega arith));
  }
    where
      distinct : (j : ℕ) → j < 0 + n → va_to_pa (target + n) ≢ va_to_pa (target + j)
      distinct j to e = let length = h.length in omega arith

-- The loop of MVS in local mode, which moves a string from its last byte down, returns, where
-- the memory holds 16-bit words, no write is refused, no byte of the source is a byte of the
-- target and the length is at most 32768: every byte of the target is then the byte that the
-- source held at its index, and every other byte is as before.
pub mvs_loop-IsMoved :
    (n source target : ℕ) (s : CpuState)
    → IsMovable n source target 0 s
    → Returns (mvs_loop n source target s) tt (IsMoved n source target 0 s)
unfolding mvs_loop
mvs_loop-IsMoved zero source target s h =
    pure_returns s (record { bytes = λ k from to. ground arith; others = λ va ne. refl })
mvs_loop-IsMoved (suc n) source target s h =
    returns_as (bind_done _ _ (read_byte_lem (source + n) s)) (
      returns_as
        (then_done _ _ (write_byte_lem (target + n) _ s (h.free n (omega arith) (omega arith))))
        (weaken_returns
          (mvs_loop-IsMoved n source target (moved_byte source target n s)
            (down-IsMovable n source target s h))
          (down-IsMoved n source target s h)))
