-- ===== src/Instr/System.antt =====
-- Direct input and output, the master instructions of opcode F4, TES and LDP.
use mitra_15_for_simh.Prelude.{
  ℕ, zero, suc, ◌+◌, ◌*◌, ◌/◌, ◌%◌, Bool, true, false, none, some, [], ◌∷◌, ◌==◌, ltb, leb,
  if◌then◌else◌, switch, bit,
}
use mitra_15_for_simh.State.{update, reg_a, reg_e, reg_p}
use mitra_15_for_simh.Run.{M, ◌>>=◌, ◌>>◌, pure, get, undefined_behaviour, modify, ◌≔◌, set_c_ov}
use mitra_15_for_simh.Memory.{read_word, write_word, va_to_pa, max_mem_words, trap_ii, trap_es}
use mitra_15_for_simh.Status.{Status, scpe_ok, mm_prvins, code}
use mitra_15_for_simh.Deroute.{mitra_trap}
use mitra_15_for_simh.Deroute.Interrupt.{mitra_interrupt_return, set_ma}
use mitra_15_for_simh.Host.{Host}

-- DIO_GET_ADDR: bits 12 to 9 and 3 to 0 of E, counted from the right.
unfoldable pub dio_get_addr : ℕ → ℕ
dio_get_addr e = e / 512 % 16 * 16 + e % 16

-- DIO_N_MOD of Mitra/mitra_defs.h, the size of the dispatch table.
abbrev pub dio_n_mod : ℕ
dio_n_mod = 128

-- `MP[index] = b`, where the array has MAX_MEM_WORDS entries.
unfoldable pub put_lock : ℕ → Bool → M (Unit {0})
unfolding modify
put_lock index b = modify λ s. record s { mp = update s.mp index b }

unfoldable pub set_lock : ℕ → Bool → M (Unit {0})
unfolding put_lock undefined_behaviour
set_lock index b = if leb max_mem_words index then undefined_behaviour else put_lock index b

-- TES. The codes depend on the address.
unfoldable pub test_and_set : ℕ → M Status
test_and_set target_address = do
  s ← get
  set_ma true
  word ← read_word target_address
  reg_a ≔ word
  write_word (target_address / 2 * 2) 0
  set_lock (va_to_pa (target_address / 2 * 2)) false
  set_c_ov (bit (target_address == 0)) (bit (ltb 0 target_address))
  set_ma s.ind.ma
  pure scpe_ok

-- The loop of LDP with the words left; A is cut to 16 bits, `target_address` is not.
unfoldable pub ldp_loop : (left target_address : ℕ) → M (Unit {0})
ldp_loop zero target_address = pure tt
ldp_loop (suc left) target_address =
    let rest = ldp_loop left (target_address + 2) in
    do
      s ← get
      word ← read_word (s.reg reg_a)
      set_lock target_address (word % 2 == 1)
      reg_a ≔ s.reg reg_a + 2
      reg_e ≔ left
      rest

unfoldable pub load_mem_protect : (mode : Bool) (target_address : ℕ) → M Status
unfolding ldp_loop
load_mem_protect mode target_address =
    if mode
    then (do s ← get; ldp_loop (s.reg reg_e) target_address; reg_e ≔ 65535; pure scpe_ok)
    else pure mm_prvins

module _ (host : Host) where
  -- The table is indexed by an 8-bit mode.
  unfoldable pub io_rwd : (inst : ℕ) (is_write : Bool) → M Status
  io_rwd inst is_write = do
    s ← get
    if leb dio_n_mod (dio_get_addr (s.reg reg_e))
        then undefined_behaviour
        else elim (host.dio_disp (dio_get_addr (s.reg reg_e))) [
          | none ↦ mitra_trap trap_es (s.reg reg_p)
          | some handler ↦ handler inst is_write
        ]

  -- CLM, DIT, RD, WD and STM.
  unfoldable pub f4_master_inst : (mode : Bool) (inst : ℕ) → M Status
  f4_master_inst mode inst =
      if mode
      then switch (inst % 16)
          ((0x00, (do set_ma false; pure scpe_ok))
            ∷ (0x01, mitra_interrupt_return)
            ∷ (0x02, io_rwd inst false)
            ∷ (0x03, io_rwd inst true)
            ∷ (0x08, (do set_ma true; pure scpe_ok))
            ∷ [])
          (pure (code trap_ii))
      else pure mm_prvins
