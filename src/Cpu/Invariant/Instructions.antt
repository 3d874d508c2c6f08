-- ===== src/Cpu/Invariant/Instructions.antt =====
-- The instructions of Mitra/mitra_instr_utils.c and Mitra/mitra_instr.c in either mode.
use mitra_15_for_simh.Prelude.{leb, ℕ, zero, suc, ◌≡◌, ◌+◌, Bool, Option, some}
use mitra_15_for_simh.State.{CpuState, reg_a, reg_e}
use mitra_15_for_simh.Run.{M}
use mitra_15_for_simh.Run.Keeps.{Keeps, Keeps-get, Keeps-if, Keeps-undefined}
use mitra_15_for_simh.Status.{Status}
use mitra_15_for_simh.Host.{Host}
use mitra_15_for_simh.Instr.Registers.{instr_str, str_number, case_instr_xdr, rsv, set_register}
use mitra_15_for_simh.Instr.Shifts.{
  ditr, shift_instr, group_3_shift_dl, group_3_shift_px, group_3_shift_p,
}
use mitra_15_for_simh.Instr.Section.{enter_service, csv_instr}
use mitra_15_for_simh.Instr.System.{
  dio_n_mod, ldp_loop, load_mem_protect, io_rwd, f4_master_inst, dio_get_addr,
}
use mitra_15_for_simh.Decode.{group_3_dl, group_3_px, group_3_p, dispatch}
use mitra_15_for_simh.Cpu.Stable.{keeps, Keeps-read_word, Keeps-codes_load}
use mitra_15_for_simh.Cpu.Stable.Registers.{
  Keeps-ldr_number, Keeps-srg_op, Keeps-rts, Keeps-load_codes_a, Keeps-shr_group, Keeps-shc_group,
}
use mitra_15_for_simh.Cpu.Stable.Memory.{Keeps-call_section, Keeps-test_and_set}
use mitra_15_for_simh.Cpu.Stable.Groups.{
  dispatched, Keeps-add_x, Keeps-sub_x, Keeps-add_l, Keeps-sub_l,
}
use mitra_15_for_simh.Cpu.Invariant.{
  IsInvariant, Keeps-option, Keeps-load_indicators, Keeps-mitra_trap, Keeps-mitra_interrupt_return,
  Keeps-set_ma,
}

-- The handlers of a table keep a predicate.
pub record AreKept (P : CpuState → Type 0)
    (table : ℕ → Option ((inst : ℕ) (is_write : Bool) → M Status)) : Type 0 where
  pub handled :
      (mode : ℕ) (handler : (inst : ℕ) (is_write : Bool) → M Status)
      → table mode ≡ some handler
      → (inst : ℕ) (is_write : Bool) → Keeps P (handler inst is_write)

module _ {P : CpuState → Type 0} (invariant : IsInvariant P) where
  open invariant use {stable, words, indicators, lock, block}
  open stable use {assign, write}

  Keeps-instr_str : (block number : ℕ) → Keeps P (instr_str block number)
  unfolding instr_str
  Keeps-instr_str block_number number = Keeps-get λ s p.
      let wide = words s p reg_a in
      search (keeps, assign, block, wide, Keeps-codes_load stable) depth 24

  Keeps-str_number : (n : ℕ) → Keeps P (str_number n)
  unfolding str_number
  Keeps-str_number n = search (keeps, Keeps-instr_str) depth 12

  Keeps-xdr : (inst : ℕ) → Keeps P (case_instr_xdr inst)
  unfolding case_instr_xdr
  Keeps-xdr inst =
      search (keeps, Keeps-read_word stable, Keeps-ldr_number stable, Keeps-str_number) depth 24

  Keeps-rsv : Keeps P rsv
  unfolding rsv
  Keeps-rsv =
      search (keeps, assign, Keeps-read_word stable, Keeps-load_indicators invariant) depth 24

  Keeps-set_register : (inst : ℕ) (mode : Bool) → Keeps P (set_register inst mode)
  unfolding set_register
  Keeps-set_register inst mode =
      let back = Keeps-rts stable in
      let served = Keeps-rsv in search (keeps, Keeps-srg_op stable, Keeps-read_word stable) depth 24

  Keeps-ditr : (mode : Bool) → Keeps P (ditr mode)
  unfolding ditr
  Keeps-ditr mode =
      let codes = Keeps-load_codes_a stable in
      let back = Keeps-mitra_interrupt_return invariant in search keeps depth 12

  Keeps-shift : (inst : ℕ) (mode : Bool) (address : ℕ) → Keeps P (shift_instr inst mode address)
  unfolding shift_instr
  Keeps-shift inst mode address =
      let codes = Keeps-load_codes_a stable in
      search (keeps, Keeps-shc_group stable, Keeps-ditr, Keeps-read_word stable) depth 16

  Keeps-shift_dl : (inst : ℕ) (mode : Bool) → Keeps P (group_3_shift_dl inst mode)
  unfolding group_3_shift_dl
  Keeps-shift_dl inst mode =
      search (keeps, Keeps-shr_group stable, Keeps-set_register, Keeps-read_word stable) depth 12

  Keeps-shift_px : (inst : ℕ) (mode : Bool) → Keeps P (group_3_shift_px inst mode)
  unfolding group_3_shift_px
  Keeps-shift_px inst mode = search (keeps, Keeps-shr_group stable, Keeps-set_register) depth 12

  Keeps-shift_p : (inst : ℕ) (mode : Bool) → Keeps P (group_3_shift_p inst mode)
  unfolding group_3_shift_p
  Keeps-shift_p inst mode = search (keeps, Keeps-shr_group stable, Keeps-set_register) depth 12

  Keeps-enter_service : (section : ℕ) → Keeps P (enter_service section)
  unfolding enter_service
  Keeps-enter_service section = search (keeps, assign, indicators, Keeps-read_word stable) depth 20

  Keeps-csv : (section : ℕ) → Keeps P (csv_instr section)
  unfolding csv_instr
  Keeps-csv section =
      search (keeps, write, Keeps-mitra_trap invariant, Keeps-enter_service, Keeps-read_word stable)
        depth 20

  Keeps-ldp_loop : (left address : ℕ) → Keeps P (ldp_loop left address)
  unfolding ldp_loop
  Keeps-ldp_loop zero address = search keeps
  Keeps-ldp_loop (suc left) address =
      let rest = Keeps-ldp_loop left (address + 2) in
      search (keeps, assign, lock, Keeps-read_word stable) depth 20

  Keeps-ldp : (mode : Bool) (address : ℕ) → Keeps P (load_mem_protect mode address)
  unfolding load_mem_protect
  Keeps-ldp mode address = search (keeps, assign, Keeps-ldp_loop) depth 16

  ruleset operands = (
    keeps, Keeps-add_x, Keeps-sub_x, Keeps-add_l, Keeps-sub_l, Keeps-ldp, Keeps-call_section,
    Keeps-xdr, Keeps-shift, Keeps-test_and_set, Keeps-csv,
  )

  Keeps-group_dl : (inst : ℕ) (mode : Bool) → Keeps P (group_3_dl inst mode)
  unfolding group_3_dl
  Keeps-group_dl inst mode =
      search (operands, Keeps-shift_dl, Keeps-read_word stable, stable) depth 32

  Keeps-group_px : (inst : ℕ) (mode : Bool) → Keeps P (group_3_px inst mode)
  unfolding group_3_px
  Keeps-group_px inst mode = search (operands, Keeps-shift_px, stable) depth 32

  module _ (host : Host) (handlers : AreKept P host.dio_disp) where
    Keeps-io_rwd : (inst : ℕ) (is_write : Bool) → Keeps P (io_rwd host inst is_write)
    unfolding io_rwd
    Keeps-io_rwd inst is_write = Keeps-get λ s p.
        Keeps-if (leb dio_n_mod (dio_get_addr (s.reg reg_e))) Keeps-undefined (
          Keeps-option (host.dio_disp (dio_get_addr (s.reg reg_e))) (Keeps-mitra_trap invariant _ _)
            λ handler e. handlers.handled _ handler e inst is_write)

    Keeps-f4 : (mode : Bool) (inst : ℕ) → Keeps P (f4_master_inst host mode inst)
    unfolding f4_master_inst
    Keeps-f4 mode inst =
        let back = Keeps-mitra_interrupt_return invariant in
        search (keeps, Keeps-set_ma invariant, Keeps-io_rwd) depth 16

    Keeps-group_p : (inst : ℕ) (mode : Bool) → Keeps P (group_3_p host inst mode)
    unfolding group_3_p
    Keeps-group_p inst mode = search (operands, Keeps-shift_p, Keeps-f4, stable) depth 32

    pub Keeps-dispatch_all : (inst : ℕ) (mode : Bool) → Keeps P (dispatch host inst mode)
    unfolding dispatch
    Keeps-dispatch_all inst mode =
        search (keeps, dispatched, Keeps-group_dl, Keeps-group_px, Keeps-group_p, stable) depth 24
