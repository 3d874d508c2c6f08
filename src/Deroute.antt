-- ===== src/Deroute.antt =====
-- Mitra/mitra_deroute.c: traps, the indicator word, and interrupts with their context areas.
pub mod Suspension
pub mod Interrupt
pub mod IndicatorWord
pub mod Priority
pub mod Context
pub mod Trap
use mitra_15_for_simh.Prelude.{
  ℕ, zero, suc, ◌+◌, ◌-◌, ◌*◌, ◌/◌, ◌%◌, ◌^◌, Bool, true, false, not, ◌&&◌, Option, none, some,
  List, [], ◌∷◌, ◌==◌, ltb, leb, if◌then◌else◌, u16, bit,
}
use mitra_15_for_simh.State.{
  CpuState, Indicators, update, reg_p, reg_l, reg_g, reg_a, reg_e, reg_x, reg_v, reg_12,
}
use mitra_15_for_simh.Run.{M, ◌>>=◌, ◌>>◌, pure, get, modify, ◌≔◌}
use mitra_15_for_simh.Memory.{max_mem_words, read_word, write_word}
use mitra_15_for_simh.Status.{Status, scpe_ok, scpe_arg, scpe_stop, stop_illvec}

-- GPRIME: G' is G in slave mode and 0 in master mode.
abbrev pub g_prime : CpuState → ℕ
g_prime s = if s.ind.ms then 0 else s.reg reg_g

-- `uint16` differences of two words.
abbrev pub sub_word : ℕ → ℕ → ℕ
sub_word m n = (m + 65536 - n) % 65536

-- The first requested cause from VM (0) to ES (5), as the loop finds it.
unfoldable pub mitra_resolve_trap_cause : (ℕ → Bool) → Option ℕ
mitra_resolve_trap_cause bits =
    if bits 0
    then some 0
    else if bits 1
    then some 1
    else if bits 2
    then some 2
    else if bits 3
    then some 3
    else if bits 4
    then some 4
    else if bits 5
    then some 5
    else none

-- The word in which the indicators are saved: `PR << 15 | MA << 14 | MS << 13 | OV << 12 | C << 11`.
-- `set_indicators` tests C and OV for being non-zero; the traps and interrupts take bit 0 of them.
unfoldable pub set_indicators : Indicators → ℕ
set_indicators i =
    bit i.pr * 32768
    + bit i.ma * 16384
    + bit i.ms * 8192
    + bit (not (i.ov == 0)) * 4096
    + bit (not (i.c == 0)) * 2048

unfoldable pub indicator_word : Indicators → ℕ
indicator_word i =
    bit i.pr * 32768 + bit i.ma * 16384 + bit i.ms * 8192 + i.ov % 2 * 4096 + i.c % 2 * 2048

unfoldable pub indicators_of : ℕ → Indicators
indicators_of word = record {
  pr = word / 32768 % 2 == 1;
  ma = word / 16384 % 2 == 1;
  ms = word / 8192 % 2 == 1;
  ov = word / 4096 % 2;
  c = word / 2048 % 2;
}

unfoldable pub set_ind : Indicators → M (Unit {0})
unfolding modify
set_ind i = modify λ s. record s { ind = i }

unfoldable pub load_indicators_from_block : ℕ → M (Unit {0})
unfolding indicators_of
load_indicators_from_block word = set_ind (indicators_of word)

-- `trap_pending = FALSE; trp_req_bits = 0`.
unfoldable pub clear_traps : M (Unit {0})
unfolding modify
clear_traps = modify λ s. record s { trap_pending = false; trp_req_bits = λ _. false }

-- `trap_word |= 0x8000 >> trap`.
unfoldable pub with_cause : ℕ → ℕ → ℕ
with_cause trap word =
    let weight = 2 ^ (15 - trap) in if word / weight % 2 == 1 then word else word + weight

-- Master mode is forced, and P and L are those of the supervisor's section.
unfoldable pub enter_supervisor : (p_base l_base : ℕ) → M Status
enter_supervisor p_base l_base = do
  s ← get
  set_ind (record (s.ind) { ms = true; pr = true; ma = true })
  reg_l ≔ (l_base + s.reg reg_g) % 32768
  reg_p ≔ (p_base + s.reg reg_g) % 32768
  clear_traps
  pure scpe_ok

-- The end of `mitra_trap`: section 0 of the supervisor is called through the PRTS.
unfoldable pub call_supervisor : ℕ → M Status
unfolding enter_supervisor
call_supervisor prts_ptr = if leb max_mem_words prts_ptr then pure scpe_stop else do
  p_base ← read_word prts_ptr
  l_base ← read_word (prts_ptr + 2)
  enter_supervisor p_base l_base

unfoldable pub mitra_trap : (trap pc : ℕ) → M Status
unfolding call_supervisor
mitra_trap trap pc = do
  trap_word ← read_word 2
  write_word 2 (with_cause trap trap_word)
  s ← get
  write_word 4 (sub_word pc (g_prime s) % 32768)
  write_word 6 (sub_word (s.reg reg_l) (g_prime s) % 32768)
  write_word 8 (indicator_word s.ind)
  prts_ptr ← read_word 12
  call_supervisor prts_ptr

-- What `cpt_lookup` returns: the context pointer behind SCPE_OK, or the status.
pub data Lookup : Type 0 where
  found : ℕ → Lookup
  failed : Status → Lookup

unfoldable pub cpt_lookup : ℕ → M Lookup
cpt_lookup level = if leb 32 level then pure (failed scpe_arg) else do
  base ← read_word 10
  if leb max_mem_words base then pure (failed scpe_stop) else do
    ptr ← read_word (base + 2 * level)
    pure (
        if leb max_mem_words ptr
        then failed scpe_stop
        else if ptr == 0
        then failed stop_illvec
        else found ptr)

-- A block of registers becomes the current one: P, L, G, A, E and X are copied from it.
unfoldable pub load_from_reserved_block : ℕ → M (Unit {0})
load_from_reserved_block block = do
  s ← get
  reg_p ≔ s.reg_block block 0
  reg_l ≔ s.reg_block block 1
  reg_g ≔ s.reg_block block 2
  reg_a ≔ s.reg_block block 3
  reg_e ≔ s.reg_block block 4
  reg_x ≔ s.reg_block block 5

unfoldable pub load_ctx_from_mem : ℕ → M (Unit {0})
load_ctx_from_mem ctx_ptr = do
  x ← read_word (ctx_ptr + 2)
  reg_x ≔ x
  e ← read_word (ctx_ptr + 4)
  reg_e ≔ e
  a ← read_word (ctx_ptr + 6)
  reg_a ≔ a
  g ← read_word (ctx_ptr + 8)
  reg_g ≔ g
  l ← read_word (ctx_ptr + 10)
  reg_l ≔ l
  p ← read_word (ctx_ptr + 12)
  reg_p ≔ p

-- Words written one after the other: addresses with values.
unfoldable pub write_all : List (ℕ × ℕ) → M (Unit {0})
write_all [] = pure tt
write_all ((va, val) ∷ writes) = do write_word va val; write_all writes

-- The seven words that a context area holds of a state.
unfoldable pub context_words : ℕ → CpuState → List (ℕ × ℕ)
context_words ctx_ptr s =
    (ctx_ptr, indicator_word s.ind)
    ∷ (ctx_ptr + 2, s.reg reg_x)
    ∷ (ctx_ptr + 4, s.reg reg_e)
    ∷ (ctx_ptr + 6, s.reg reg_a)
    ∷ (ctx_ptr + 8, s.reg reg_g)
    ∷ (ctx_ptr + 10, s.reg reg_l)
    ∷ (ctx_ptr + 12, s.reg reg_p)
    ∷ []

-- The writes of `mitra_interrupt_accept` into the context area of the interrupted level.
unfoldable pub save_context : ℕ → M (Unit {0})
unfolding write_all context_words
save_context ctx_ptr = do s ← get; write_all (context_words ctx_ptr s)
