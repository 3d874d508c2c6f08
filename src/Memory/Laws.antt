-- ===== src/Memory/Laws.antt =====
-- Reads and writes of words and bytes: what a read after a write returns.
use mitra_15_for_simh.Prelude.{
  ℕ, ◌+◌, ◌*◌, ◌%◌, ◌≡◌, ◌∙◌, refl, inl, inr, Bool, true, false, Bool-cases, ◌==◌, leb,
  if◌then◌else◌, not, ◌&&◌, arith, u16,
}
use mitra_15_for_simh.State.{CpuState, update}
use mitra_15_for_simh.Run.{M, modify, done, exited, ◌>>=◌, ◌>>◌, get, pure}
use mitra_15_for_simh.Run.Keeps.{Ends}
use mitra_15_for_simh.Run.Steps.{then_done, bind_done, Returns, returns_as}
use mitra_15_for_simh.Memory.{
  read_word, write_word, request_trap, store, checked_store, word_index, is_odd, max_mem_words,
  trap_pm,
}

-- The test for the size of the memory never fails: 15 bits of address are 16384 words.
pub word_index-lt : (va : ℕ) → leb max_mem_words (word_index va) ≡ false
word_index-lt va = ground arith

pub read_word_even :
    (va : ℕ) (s : CpuState) → is_odd va ≡ false → read_word va s ≡ done (s.mem (word_index va)) s
unfolding read_word ◌>>=◌ get pure
read_word_even va s even = rw (even, word_index-lt va)

pub read_word_odd : (va : ℕ) (s : CpuState) → is_odd va ≡ true → read_word va s ≡ exited
unfolding read_word ◌>>◌ request_trap
read_word_odd va s odd = rw odd

-- A program goes on after a read with the word that the memory holds, if at all.
pub read_word-Ends {ℓ} :
    {A : Type ℓ} (Q : CpuState → Type 0) (va : ℕ) (f : ℕ → M A) (s : CpuState)
    → Ends Q (f (s.mem (word_index va)) s)
    → Ends Q ((read_word va >>= f) s)
unfolding ◌>>=◌
read_word-Ends Q va f s h = elim (Bool-cases (is_odd va)) [
  | inl odd ↦ rw (read_word_odd va s odd, ◌>>=◌) tt
  | inr even ↦ rw (read_word_even va s even, ◌>>=◌) h
]

-- The state after `M[pa] = val`.
abbrev pub stored : ℕ → ℕ → CpuState → CpuState
stored pa val s = record s { mem = update s.mem pa (u16 val) }

-- The lock of the word at an address does not stop a write.
abbrev pub is_refused : ℕ → CpuState → Bool
is_refused va s = not s.ind.pr && s.mp (word_index va)

pub write_word_free :
    (va val : ℕ) (s : CpuState)
    → is_odd va ≡ false
    → is_refused va s ≡ false
    → write_word va val s ≡ done tt (stored (word_index va) val s)
unfolding write_word checked_store store modify ◌>>=◌ get
write_word_free va val s even free = simp (even, word_index-lt va, free) refl

pub write_word_locked :
    (va val : ℕ) (s : CpuState)
    → is_odd va ≡ false
    → is_refused va s ≡ true
    → write_word va val s ≡ request_trap trap_pm s
unfolding write_word checked_store ◌>>=◌ get
write_word_locked va val s even locked = simp (even, word_index-lt va, locked) refl

-- After a write of a word that is not refused, a read at an even address returns the low 16 bits
-- of what was written where both addresses name one word, else the word that was there, and only
-- that word has changed.
pub read_word-write_word :
    (va va' val : ℕ) (s : CpuState)
    → is_odd va ≡ false
    → is_odd va' ≡ false
    → is_refused va s ≡ false
    → (write_word va val >> read_word va') s
      ≡ done
          (if word_index va' == word_index va then u16 val else s.mem (word_index va'))
          (stored (word_index va) val s)
read_word-write_word va va' val s even even' free =
    then_done _ _ (write_word_free va val s even free) ∙ read_word_even va' _ even'

-- A write to an even address whose word is locked, with PR clear, changes no word: it requests
-- the memory protection trap.
pub write_word-refused :
    (va val : ℕ) (s : CpuState)
    → is_odd va ≡ false
    → s.ind.pr ≡ false
    → s.mp (word_index va) ≡ true
    → write_word va val s
      ≡ done tt
          (record s { trp_req_bits = update s.trp_req_bits trap_pm true; trap_pending = true })
unfolding request_trap modify
write_word-refused va val s even key lock = write_word_locked va val s even (simp (key, lock) refl)

-- A read at an address does not depend on the bits above the low 15: both halves of the 16-bit
-- addresses are the same 32 K bytes of memory.
pub read_word-alias : (va k : ℕ) (s : CpuState) → read_word (va + 32768 * k) s ≡ read_word va s
unfolding read_word
read_word-alias va k s =
    let odd : (va + 32768 * k) % 2 ≡ va % 2 = omega arith in
    let index : (va + 32768 * k) % 32768 ≡ va % 32768 = omega arith in rw (odd, index) refl

-- A program that returns after a read, or after a write that is not refused.
pub read_returns {ℓ} :
    {A : Type ℓ} (va : ℕ) (f : ℕ → M A) (s : CpuState) {y : A} {P : CpuState → Type 0}
    → is_odd va ≡ false
    → Returns (f (s.mem (word_index va)) s) y P
    → Returns ((read_word va >>= f) s) y P
read_returns va f s even h = returns_as (bind_done _ f (read_word_even va s even)) h

pub write_returns {ℓ} :
    {A : Type ℓ} (va val : ℕ) (k : M A) (s : CpuState) {y : A} {P : CpuState → Type 0}
    → is_odd va ≡ false
    → is_refused va s ≡ false
    → Returns (k (stored (word_index va) val s)) y P
    → Returns ((write_word va val >> k) s) y P
write_returns va val k s even free h =
    returns_as (then_done _ k (write_word_free va val s even free)) h
