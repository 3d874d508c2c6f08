-- ===== src/Memory/Refinement.antt =====
-- The memory functions of Mitra/mitra_cpu.c against an array of 32768 bytes, for any sequence of
-- reads and writes by a program that holds the key PR.
use mitra_15_for_simh.Prelude.{
  ℕ, ◌+◌, ◌*◌, ◌/◌, ◌%◌, ◌<◌, ◌≡◌, ◌∙◌, refl, ap, Bool, true, false, ◌==◌, if◌then◌else◌, List, [],
  ◌∷◌, arith, u8,
}
use mitra_15_for_simh.State.{CpuState}
use mitra_15_for_simh.Run.{M, done, ◌>>=◌, ◌>>◌, pure}
use mitra_15_for_simh.Run.Steps.{Returns, bind_done, then_done, pure_returns}
use mitra_15_for_simh.Memory.{
  read_word, write_word, read_byte, write_byte, va_to_pa, word_index, is_odd,
}
use mitra_15_for_simh.Memory.Laws.{stored, is_refused, read_word_even, write_word_free}
use mitra_15_for_simh.Memory.Bytes.{
  byte_at, with_byte, read_byte_lem, write_byte_lem, byte_at-stored,
}

pub data Access : Type 0 where
  get_word get_byte : ℕ → Access
  put_word put_byte : ℕ → ℕ → Access

-- Word accesses are to even addresses.
abbrev pub IsAligned : Access → Type 0
IsAligned (get_word va) = is_odd va ≡ false
IsAligned (put_word va n) = is_odd va ≡ false
IsAligned (get_byte va) = Unit
IsAligned (put_byte va n) = Unit

abbrev pub AreAligned : List Access → Type 0
AreAligned [] = Unit
AreAligned (a ∷ rest) = IsAligned a × AreAligned rest

-- An access by the functions of the source; a write answers 0.
unfoldable pub access : Access → M ℕ
access (get_word va) = read_word va
access (get_byte va) = read_byte va
access (put_word va n) = do write_word va n; pure 0
access (put_byte va n) = do write_byte va n; pure 0

unfoldable pub accesses : List Access → M (List ℕ)
unfolding access
accesses [] = pure []
accesses (a ∷ rest) = do n ← access a; ns ← accesses rest; pure (n ∷ ns)

-- The same access to an array of bytes: the high byte of a word is at its even address.
unfoldable pub access_bytes : Access → (ℕ → ℕ) → ℕ × (ℕ → ℕ)
access_bytes (get_word va) m = (m (va_to_pa va) * 256 + m (va_to_pa va + 1), m)
access_bytes (get_byte va) m = (m (va_to_pa va), m)
access_bytes (put_word va n) m =
    (0, λ i. if i == va_to_pa va then n / 256 % 256 else if i == va_to_pa va + 1 then u8 n else m i)
access_bytes (put_byte va n) m = (0, λ i. if i == va_to_pa va then u8 n else m i)

unfoldable pub accesses_bytes : List Access → (ℕ → ℕ) → List ℕ × (ℕ → ℕ)
unfolding access_bytes
accesses_bytes [] m = ([], m)
accesses_bytes (a ∷ rest) m =
    let r = access_bytes a m in let rs = accesses_bytes rest r.1 in (r.0 ∷ rs.0, rs.1)

-- The state holds an array of bytes, in 16-bit words, and its program has the key.
pub record Represents (s : CpuState) (m : ℕ → ℕ) : Type 0 where
  pub bytes : (i : ℕ) → i < 32768 → byte_at i s ≡ m i
  pub words : (k : ℕ) → s.mem k < 65536
  pub key : s.ind.pr ≡ true

free : (va : ℕ) (s : CpuState) → s.ind.pr ≡ true → is_refused va s ≡ false
free va s key = rw key refl

small : (va : ℕ) → va_to_pa va < 32768
small va = omega arith

word_bytes :
    (va : ℕ) (s : CpuState)
    → is_odd va ≡ false
    → s.mem (word_index va) < 65536
    → s.mem (word_index va) ≡ byte_at (va_to_pa va) s * 256 + byte_at (va_to_pa va + 1) s
word_bytes va s even wide =
    let zero_bit : (va % 32768 % 2 == 1) ≡ false = ground arith in
    let one_bit : ((va % 32768 + 1) % 2 == 1) ≡ true = ground arith in
    let here : va % 32768 % 32768 / 2 ≡ va % 32768 / 2 = omega arith in
    let next : (va % 32768 + 1) % 32768 / 2 ≡ va % 32768 / 2 = ground arith in
    let high : byte_at (va_to_pa va) s ≡ s.mem (word_index va) / 256 % 256 =
      rw (zero_bit, here) refl in
    let low : byte_at (va_to_pa va + 1) s ≡ s.mem (word_index va) % 256 = rw (one_bit, next) refl in
    omega arith

byte_alias : (va : ℕ) (s : CpuState) → byte_at va s ≡ byte_at (va_to_pa va) s
byte_alias va s =
    let same : va % 32768 % 32768 ≡ va % 32768 = omega arith in
    let odd : va % 32768 % 2 ≡ va % 2 = omega arith in rw (same, odd) refl

put_word-bytes :
    (va n i : ℕ) (s : CpuState)
    → is_odd va ≡ false
    → i < 32768
    → byte_at i (stored (word_index va) n s) ≡ (
        if i == va_to_pa va
        then n / 256 % 256
        else if i == va_to_pa va + 1
        then u8 n
        else byte_at i s)
put_word-bytes va n i s even lt = ground arith

pure_done {ℓ} : {A : Type ℓ} (y : A) (s : CpuState) → pure y s ≡ done y s
unfolding pure
pure_done y s = refl

same_choice :
    (b b' : Bool) (x : ℕ) {y z : ℕ} → b ≡ b' → y ≡ z → (if b then x else y) ≡ (if b' then x else z)
same_choice b b' x e e' = rw (e, e') refl

-- One access agrees with that to the array, and leaves a state that holds the new array.
access-Represents :
    (a : Access) (s : CpuState) (m : ℕ → ℕ)
    → IsAligned a
    → Represents s m
    → Returns (access a s) (access_bytes a m).0 (λ t. Represents t (access_bytes a m).1)
unfolding access access_bytes
access-Represents (get_word va) s m even h =
    let high = h.bytes (va_to_pa va) (small va) in
    let low = h.bytes (va_to_pa va + 1) (ground arith) in
    record {
      final = s;
      returns =
          read_word_even va s even
          ∙ ap (λ n. done n s)
              (word_bytes va s even (h.words (word_index va)) ∙ rw (high, low) refl);
      holds = h;
    }
access-Represents (get_byte va) s m ok h = record {
  final = s;
  returns =
      read_byte_lem va s ∙ ap (λ n. done n s) (byte_alias va s ∙ h.bytes (va_to_pa va) (small va));
  holds = h;
}
access-Represents (put_word va n) s m even h = record {
  final = stored (word_index va) n s;
  returns = then_done _ (pure 0) (write_word_free va n s even (free va s h.key)) ∙ pure_done 0 _;
  holds = record {
    bytes = λ i lt. put_word-bytes va n i s even lt ∙ rw (h.bytes i lt) refl;
    words = λ k. let wide = h.words k in ground arith;
    key = h.key;
  };
}
access-Represents (put_byte va n) s m ok h = record {
  final = stored (word_index va) (with_byte va n (s.mem (word_index va))) s;
  returns = then_done _ (pure 0) (write_byte_lem va n s (free va s h.key)) ∙ pure_done 0 _;
  holds = record {
    bytes = λ i lt.
        byte_at-stored va i n s (h.words (word_index va))
        ∙ same_choice _ _ (u8 n)
            (let e : i % 32768 ≡ i = omega arith in ap (λ j. j == va_to_pa va) e) (h.bytes i lt);
    words = λ k. let wide = h.words k in ground arith;
    key = h.key;
  };
}

-- The words that aligned word and byte accesses answer, in any sequence, by a program with PR
-- set, are those of the same accesses to an array of 32768 bytes that the memory represents, in
-- which the high byte of a word comes first, and the memory represents the array at the end.
pub accesses-Represents :
    (all : List Access) (s : CpuState) (m : ℕ → ℕ)
    → AreAligned all
    → Represents s m
    → Returns (accesses all s) (accesses_bytes all m).0 (λ t. Represents t (accesses_bytes all m).1)
unfolding accesses accesses_bytes
accesses-Represents [] s m ok h = pure_returns s h
accesses-Represents (a ∷ rest) s m ok h =
    let first = access-Represents a s m ok.0 h in
    let later = accesses-Represents rest first.final (access_bytes a m).1 ok.1 first.holds in
    record {
      final = later.final;
      returns =
          bind_done (access a) _ first.returns
          ∙ bind_done (accesses rest) _ later.returns
          ∙ pure_done _ _;
      holds = later.holds;
    }
