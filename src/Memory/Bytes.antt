-- ===== src/Memory/Bytes.antt =====
-- Bytes in words: what a byte written is when it is read again, and the bytes around it.
use mitra_15_for_simh.Prelude.{
  ℕ, ◌+◌, ◌*◌, ◌/◌, ◌%◌, ◌<◌, ◌≡◌, ap, ◌∙◌, false, ◌==◌, if◌then◌else◌, arith, u8,
}
use mitra_15_for_simh.State.{CpuState}
use mitra_15_for_simh.Run.{done, ◌>>◌, pure}
use mitra_15_for_simh.Run.Steps.{bind_done, then_done}
use mitra_15_for_simh.Memory.{read_byte, write_byte, word_index, va_to_pa, is_odd}
use mitra_15_for_simh.Memory.Laws.{is_refused, stored, read_word_even, write_word_free}

-- The byte at an address.
abbrev pub byte_at : ℕ → CpuState → ℕ
byte_at va s = if is_odd va then s.mem (word_index va) % 256 else s.mem (word_index va) / 256 % 256

-- The word in which a byte has been replaced.
abbrev pub with_byte : ℕ → ℕ → ℕ → ℕ
with_byte va val word = if is_odd va then word / 256 * 256 + u8 val else word % 256 + u8 val * 256

aligned_even : (va : ℕ) → is_odd (va_to_pa va / 2 * 2) ≡ false
aligned_even va = ground arith

aligned_index : (va : ℕ) → word_index (va_to_pa va / 2 * 2) ≡ word_index va
aligned_index va = omega arith

pub read_byte_lem : (va : ℕ) (s : CpuState) → read_byte va s ≡ done (byte_at va s) s
unfolding read_byte pure
read_byte_lem va s =
    bind_done _ _ (read_word_even (va_to_pa va / 2 * 2) s (aligned_even va))
    ∙ ap (λ i. done (if is_odd va then s.mem i % 256 else s.mem i / 256 % 256) s) (aligned_index va)

pub write_byte_lem :
    (va val : ℕ) (s : CpuState)
    → is_refused va s ≡ false
    → write_byte va val s
      ≡ done tt (stored (word_index va) (with_byte va val (s.mem (word_index va))) s)
unfolding write_byte
write_byte_lem va val s free =
    bind_done _ _ (read_word_even (va_to_pa va / 2 * 2) s (aligned_even va))
    ∙ write_word_free (va_to_pa va / 2 * 2) _ s (aligned_even va) (rw (aligned_index va) free)
    ∙ ap (λ i. done tt (stored i (with_byte va val (s.mem i)) s)) (aligned_index va)

pub byte_at-stored :
    (va va' val : ℕ) (s : CpuState)
    → s.mem (word_index va) < 65536
    → byte_at va' (stored (word_index va) (with_byte va val (s.mem (word_index va))) s)
      ≡ (if va_to_pa va' == va_to_pa va then u8 val else byte_at va' s)
byte_at-stored va va' val s word = ground arith

-- After a write of a byte that is not refused, at any address, a read at the same physical
-- address returns the low 8 bits of what was written, and a read at another returns the byte
-- that was there; the word that held it is of 16 bits.
pub read_byte-write_byte :
    (va va' val : ℕ) (s : CpuState)
    → is_refused va s ≡ false
    → s.mem (word_index va) < 65536
    → (write_byte va val >> read_byte va') s
      ≡ done
          (if va_to_pa va' == va_to_pa va then u8 val else byte_at va' s)
          (stored (word_index va) (with_byte va val (s.mem (word_index va))) s)
read_byte-write_byte va va' val s free word =
    then_done _ _ (write_byte_lem va val s free)
    ∙ read_byte_lem va' _
    ∙ ap (λ b. done b (stored (word_index va) (with_byte va val (s.mem (word_index va))) s))
        (byte_at-stored va va' val s word)
