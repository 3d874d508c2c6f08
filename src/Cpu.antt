-- ===== src/Cpu.antt =====
-- `one_inst` of Mitra/mitra_instr.c, and a round of the loop of `sim_instr` of Mitra/mitra_cpu.c:
-- traps, suspensions, interrupts, then the fetch and the execution of an instruction. The event
-- queue, breakpoints and stop requests of SIMH are not part of it.
pub mod Stable
pub mod Privilege
pub mod Invariant
use mitra_15_for_simh.Prelude.{
  ℕ, zero, suc, ◌+◌, ◌/◌, ◌%◌, Bool, true, false, not, ◌&&◌, ◌||◌, Option, none, some, ◌==◌, leb,
  if◌then◌else◌,
}
use mitra_15_for_simh.State.{reg_p}
use mitra_15_for_simh.Run.{M, ◌>>=◌, ◌>>◌, pure, get, modify, ◌≔◌}
use mitra_15_for_simh.Memory.{read_word, trap_vm}
use mitra_15_for_simh.Status.{Status, scpe_ok, code, is_error}
use mitra_15_for_simh.Deroute.{
  Lookup, found, failed, cpt_lookup, mitra_trap, mitra_resolve_trap_cause,
}
use mitra_15_for_simh.Deroute.Interrupt.{get_highest_interrupt, mitra_interrupt_accept}
use mitra_15_for_simh.Deroute.Suspension.{mitra_suspension_process}
use mitra_15_for_simh.Host.{Host}
use mitra_15_for_simh.Instr.Registers.{opcode}
use mitra_15_for_simh.Decode.{dispatch}

-- The instructions that slave mode refuses before they are executed.
unfoldable pub is_privileged : ℕ → Bool
is_privileged inst =
    opcode inst == 0x3a
    || opcode inst == 0x3b
    || opcode inst == 0x3d
    || opcode inst == 0x0a
    || opcode inst == 0xea
    || opcode inst == 0xf4
    || inst == 0xec20
    || inst == 0xfc20
    || (opcode inst == 0xf1 && inst % 16 == 0x0c)

unfoldable pub clear_trap_pending : M (Unit {0})
unfolding modify
clear_trap_pending = modify λ s. record s { trap_pending = false }

unfoldable pub set_trap_cause : ℕ → M (Unit {0})
unfolding modify
set_trap_cause cause = modify λ s. record s { trap_cause = cause }

-- The trap of a cause, or nothing where the flag was set with no cause.
unfoldable pub trap_or_clear : (pc : ℕ) (ret_code : Status) → Option ℕ → M Status
trap_or_clear pc ret_code none = do clear_trap_pending; pure ret_code
trap_or_clear pc ret_code (some cause) = do set_trap_cause cause; mitra_trap cause pc

-- A trap that the instruction has requested is taken after it.
unfoldable pub take_trap : (pc : ℕ) (ret_code : Status) → M Status
unfolding trap_or_clear
take_trap pc ret_code = do
  s ← get
  if s.trap_pending
      then trap_or_clear pc ret_code (mitra_resolve_trap_cause s.trp_req_bits)
      else pure ret_code

unfoldable pub one_inst : Host → (inst pc : ℕ) → M Status
one_inst host inst pc = do
  s ← get
  if not s.ind.ms && is_privileged inst
      then mitra_trap trap_vm pc
      else (do ret_code ← dispatch host inst s.ind.ms; take_trap pc ret_code)

-- What a round of the loop ends in: the next round, or the reason to stop.
pub data Round : Type 0 where
  next_round : Round
  stop : Status → Round

unfoldable pub round_of : Status → Round
unfolding is_error
round_of status = if is_error status then stop status else next_round

-- `reason > 0 && reason != STOP_HALT` puts P back; STOP_IONRDY (1) goes on. STOP_HALT is 2.
unfoldable pub after_inst : (save_p : ℕ) → Status → M Round
unfolding round_of
after_inst save_p (code n) = do
  (if n == 0 || n == 2 then pure tt else reg_p ≔ save_p)
  pure (if n == 1 then next_round else round_of (code n))
after_inst save_p status = do
  (if is_error status then reg_p ≔ save_p else pure tt)
  pure (round_of status)

-- A word of zero is not executed.
unfoldable pub fetch_and_execute : Host → M Round
fetch_and_execute host = do
  s ← get
  inst ← read_word (s.reg reg_p)
  reg_p ≔ s.reg reg_p + 2
  if inst == 0
      then pure next_round
      else (do reason ← one_inst host inst (s.reg reg_p); after_inst (s.reg reg_p) reason)

-- The level whose interrupt is taken before the next instruction.
unfoldable pub interrupts_by : ℕ → M Round
interrupts_by level = do
  r ← cpt_lookup level
  elim r [
    | failed status ↦ pure (stop status)
    | found pa ↦ (do reason ← mitra_interrupt_accept level; pure (round_of reason))
  ]

unfoldable pub interrupt_or_fetch : Host → M Round
interrupt_or_fetch host = do
  s ← get
  elim (get_highest_interrupt s) [
    | none ↦ fetch_and_execute host
    | some level ↦ if leb level s.curr_int_lvl then fetch_and_execute host else interrupts_by level
  ]

unfoldable pub sim_round : Host → M Round
sim_round host = do
  s ← get
  elim (if s.trap_pending then mitra_resolve_trap_cause s.trp_req_bits else none) [
    | some cause ↦ (do
      set_trap_cause cause
      reason ← mitra_trap cause (s.reg reg_p)
      pure (round_of reason))
    | none ↦ (do clear_trap_pending; mitra_suspension_process; interrupt_or_fetch host)
  ]
