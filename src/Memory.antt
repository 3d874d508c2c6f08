-- ===== src/Memory.antt =====
-- Mitra/mitra_cpu.c, the memory access functions. An address is a byte address; M[] holds 16-bit
-- words, and a word's left byte is the one at the even address.
pub mod Laws
pub mod Bytes
pub mod Refinement
use mitra_15_for_simh.Prelude.{
  ℕ, ◌+◌, ◌*◌, ◌/◌, ◌%◌, Bool, true, false, not, ◌&&◌, ◌==◌, leb, if◌then◌else◌, u16, u8,
}
use mitra_15_for_simh.State.{CpuState, update}
use mitra_15_for_simh.Run.{M, ◌>>=◌, ◌>>◌, pure, get, exit, modify}

-- MAX_MEM_WORDS.
abbrev pub max_mem_words : ℕ
max_mem_words = 32768

-- The trap causes of Mitra/mitra_cpu.h that are raised.
abbrev pub trap_vm : ℕ
trap_vm = 0

abbrev pub trap_pm : ℕ
trap_pm = 1

abbrev pub trap_ai : ℕ
trap_ai = 2

abbrev pub trap_ii : ℕ
trap_ii = 4

abbrev pub trap_es : ℕ
trap_es = 5

-- VA_TO_PA: the low 15 bits.
abbrev pub va_to_pa : ℕ → ℕ
va_to_pa va = va % 32768

-- The index in M[] of the word at a byte address.
abbrev pub word_index : ℕ → ℕ
word_index va = va_to_pa va / 2

-- `va & 1`.
abbrev pub is_odd : ℕ → Bool
is_odd va = va % 2 == 1

-- `trp_req_bits |= 1 << cause; trap_pending = TRUE`.
unfoldable pub request_trap : ℕ → M (Unit {0})
unfolding modify
request_trap cause =
    modify λ s. record s { trp_req_bits = update s.trp_req_bits cause true; trap_pending = true }

-- After the request of TRAP_AI the source calls `exit`.
unfoldable pub bad_address {ℓ} : {A : Type ℓ} → M A
unfolding request_trap exit
bad_address = do request_trap trap_ai; exit

unfoldable pub read_word : ℕ → M ℕ
unfolding bad_address
read_word va =
    if is_odd va
    then bad_address
    else if leb max_mem_words (word_index va)
    then bad_address
    else (do s ← get; pure (s.mem (word_index va)))

-- `M[pa] = val`.
unfoldable pub store : ℕ → ℕ → M (Unit {0})
unfolding modify
store pa val = modify λ s. record s { mem = update s.mem pa (u16 val) }

-- The end of `write_word`: the lock is tested unless PR is set.
unfoldable pub checked_store : ℕ → ℕ → M (Unit {0})
unfolding request_trap store
checked_store pa val = do
  s ← get
  if not s.ind.pr && s.mp pa then request_trap trap_pm else store pa val

unfoldable pub write_word : ℕ → ℕ → M (Unit {0})
unfolding bad_address checked_store
write_word va val =
    if is_odd va
    then bad_address
    else if leb max_mem_words (word_index va)
    then bad_address
    else checked_store (word_index va) val

unfoldable pub read_byte : ℕ → M ℕ
read_byte va = do
  word ← read_word (va_to_pa va / 2 * 2)
  pure (if is_odd va then word % 256 else word / 256 % 256)

unfoldable pub write_byte : ℕ → ℕ → M (Unit {0})
write_byte va val = do
  word ← read_word (va_to_pa va / 2 * 2)
  write_word (va_to_pa va / 2 * 2)
      (if is_odd va then word / 256 * 256 + u8 val else word % 256 + u8 val * 256)
