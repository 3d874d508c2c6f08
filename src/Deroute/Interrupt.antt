-- ===== src/Deroute/Interrupt.antt =====
-- Mitra/mitra_deroute.c, acceptance of and return from interrupts, and the priority scan
-- `get_highest_interrupt` of Mitra/mitra_cpu.c.
pub mod Acceptance
use mitra_15_for_simh.Prelude.{
  ℕ, zero, suc, Bool, false, not, ◌&&◌, Option, none, some, ◌==◌, leb, if◌then◌else◌,
}
use mitra_15_for_simh.State.{CpuState, update, reg_v, reg_12}
use mitra_15_for_simh.Run.{M, ◌>>=◌, ◌>>◌, pure, get, undefined_behaviour, modify, ◌≔◌}
use mitra_15_for_simh.Memory.{read_word}
use mitra_15_for_simh.Status.{Status, scpe_ok, scpe_arg}
use mitra_15_for_simh.Deroute.{
  found, failed, indicator_word, set_ind, load_indicators_from_block, cpt_lookup,
  load_from_reserved_block, load_ctx_from_mem, save_context,
}

-- The highest bit set among those below `n`.
unfoldable pub highest_below : ℕ → (ℕ → Bool) → Option ℕ
highest_below zero bits = none
highest_below (suc n) bits = if bits n then some n else highest_below n bits

unfoldable pub get_highest_interrupt : CpuState → Option ℕ
unfolding highest_below
get_highest_interrupt s = if s.ind.ma then none else highest_below 32 s.intrpt_pending

unfoldable pub set_curr_int_lvl : ℕ → M (Unit {0})
unfolding modify
set_curr_int_lvl level = modify λ s. record s { curr_int_lvl = level }

-- `intrpt_pending &= ~(1u << level)`.
unfoldable pub clear_pending : ℕ → M (Unit {0})
unfolding modify
clear_pending level = modify λ s. record s { intrpt_pending = update s.intrpt_pending level false }

-- `SuspensionStack[susp_stack_ptr].J_reg = block`.
unfoldable pub set_j_reg : ℕ → M (Unit {0})
unfolding modify
set_j_reg block = modify λ s. record s {
  susp_stack = λ i.
      if i == s.susp_stack_ptr then record (s.susp_stack i) { j_reg = block } else s.susp_stack i;
}

unfoldable pub set_reg_block : ℕ → ℕ → ℕ → M (Unit {0})
unfolding modify
set_reg_block block number val =
    modify
      λ s. record s { reg_block = update s.reg_block block (update (s.reg_block block) number val) }

-- The context of a level is loaded from the area that the CPT names.
unfoldable pub load_level : ℕ → M Status
load_level ctx_ptr = do
  ind_word ← read_word ctx_ptr
  load_indicators_from_block ind_word
  load_ctx_from_mem ctx_ptr
  pure scpe_ok

-- What follows a lookup: its error is returned at once.
unfoldable pub with_context : ℕ → (ℕ → M Status) → M Status
with_context level next = do
  r ← cpt_lookup level
  elim r [ found ctx_ptr ↦ next ctx_ptr | failed status ↦ pure status ]

-- The path of the high-speed interrupt: another register block in place of the memory.
unfoldable pub accept_fast : M Status
accept_fast = do
  s ← get
  reg_v ≔ indicator_word s.ind
  reg_12 ≔ 6
  set_j_reg 6
  load_indicators_from_block (s.reg_block 6 6)
  load_from_reserved_block 6
  pure scpe_ok

unfoldable pub accept_normal : ℕ → M Status
accept_normal level = do
  s ← get
  with_context s.curr_int_lvl λ old_ctx_ptr. do
    save_context old_ctx_ptr
    set_curr_int_lvl level
    with_context level load_level

-- The last step of both paths, skipped when a lookup failed.
unfoldable pub then_clear : ℕ → Status → M Status
then_clear level scpe_ok = do clear_pending level; pure scpe_ok
then_clear level status = pure status

-- The argument `high_speed` of the source is not read: the flag of the state is.
unfoldable pub mitra_interrupt_accept : ℕ → M Status
unfolding accept_fast accept_normal
mitra_interrupt_accept level = do
  s ← get
  if leb 32 level
      then pure scpe_arg
      else if s.ind.ma
      then pure scpe_arg
      else if not (s.intrpt_pending level)
      then pure scpe_arg
      else if leb level s.curr_int_lvl
      then pure scpe_arg
      else do
        status ← (if s.high_speed && s.flags.hsint then accept_fast else accept_normal level)
        then_clear level status

-- R12 can hold any number, and `reg_block` has eight blocks.
unfoldable pub return_fast : M Status
return_fast = do
  s ← get
  if leb 8 (s.reg reg_12)
      then undefined_behaviour
      else set_reg_block (s.reg reg_12) 6 (indicator_word s.ind)
  set_j_reg 0
  reg_12 ≔ 0
  load_indicators_from_block (s.reg reg_v)
  load_from_reserved_block 0
  pure scpe_ok

unfoldable pub set_ma : Bool → M (Unit {0})
set_ma b = do s ← get; set_ind (record (s.ind) { ma = b })

-- The indicators are loaded from the pointer itself, and the six statements that follow in the
-- source (`cpu_state.reg_X, ctx_ptr + 2;` and so on) have no effect.
unfoldable pub return_normal : M Status
return_normal = do
  s ← get
  with_context s.curr_int_lvl λ ctx_ptr. do
    load_indicators_from_block ctx_ptr
    t ← get
    elim (get_highest_interrupt t) [
      | none ↦ (do set_curr_int_lvl 0; pure scpe_ok)
      | some next_lvl ↦ (do
        set_curr_int_lvl next_lvl
        set_ma false
        with_context next_lvl load_level)
    ]

unfoldable pub mitra_interrupt_return : M Status
unfolding return_fast return_normal
mitra_interrupt_return = do s ← get; if s.high_speed then return_fast else return_normal

unfoldable pub get_boot_entry_addr : M Status
get_boot_entry_addr = do
  s ← get
  elim (get_highest_interrupt s) [
    | none ↦ pure scpe_ok
    | some next_lvl ↦ with_context next_lvl λ ctx_ptr. do
      set_curr_int_lvl next_lvl
      load_level ctx_ptr
      clear_pending next_lvl
      pure scpe_ok
  ]
