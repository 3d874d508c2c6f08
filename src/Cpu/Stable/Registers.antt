-- ===== src/Cpu/Stable/Registers.antt =====
-- The instructions on registers, and the shifts.
use mitra_15_for_simh.Prelude.{ℕ, ◌≡◌, false}
use mitra_15_for_simh.State.{CpuState}
use mitra_15_for_simh.Run.{M}
use mitra_15_for_simh.Run.Keeps.{Keeps, Keeps-if_false}
use mitra_15_for_simh.Status.{Status}
use mitra_15_for_simh.Shift.{Single, Double}
use mitra_15_for_simh.Instr.Registers.{
  instr_ldr, ldr_number, case_instr_xdr, srg_op, rts, set_register, load_a, load_e, load_x,
}
use mitra_15_for_simh.Instr.Shifts.{
  shift_single, shift_double, load_codes_a, normalize, compute_parity, shr_group, shc_group, ditr,
  shift_instr, group_3_shift_dl, group_3_shift_px, group_3_shift_p,
}
use mitra_15_for_simh.Cpu.Stable.{IsStable, keeps, Keeps-read_word, Keeps-codes_load}

module _ {P : CpuState → Type 0} (stable : IsStable P) where
  open stable use {assign, codes}

  Keeps-instr_ldr : (block number : ℕ) → Keeps P (instr_ldr block number)
  unfolding instr_ldr
  Keeps-instr_ldr block number = search (keeps, assign, Keeps-codes_load stable) depth 12

  pub Keeps-ldr_number : (n : ℕ) → Keeps P (ldr_number n)
  unfolding ldr_number
  Keeps-ldr_number n = search (keeps, Keeps-instr_ldr) depth 12

  pub Keeps-case_instr_xdr :
      (slave : (s : CpuState) → P s → s.ind.ms ≡ false) (inst : ℕ) → Keeps P (case_instr_xdr inst)
  unfolding case_instr_xdr
  Keeps-case_instr_xdr slave inst =
      search (Keeps-if_false, keeps, slave, Keeps-read_word stable, Keeps-ldr_number) depth 12

  pub Keeps-load_a : (n : ℕ) → Keeps P (load_a n)
  unfolding load_a
  Keeps-load_a n = search (keeps, assign, Keeps-codes_load stable) depth 12

  pub Keeps-load_e : (n : ℕ) → Keeps P (load_e n)
  unfolding load_e
  Keeps-load_e n = search (keeps, assign, Keeps-codes_load stable) depth 12

  pub Keeps-load_x : (n : ℕ) → Keeps P (load_x n)
  unfolding load_x
  Keeps-load_x n = search (keeps, assign, Keeps-codes_load stable) depth 12

  pub Keeps-srg_op : (type : ℕ) (other : M Status) → Keeps P other → Keeps P (srg_op type other)
  unfolding srg_op
  Keeps-srg_op type other h = search (keeps, assign, Keeps-codes_load stable, Keeps-load_a) depth 24

  pub Keeps-rts : Keeps P rts
  unfolding rts
  Keeps-rts = search (keeps, assign, Keeps-read_word stable) depth 12

  pub Keeps-set_register : (inst : ℕ) → Keeps P (set_register inst false)
  unfolding set_register
  Keeps-set_register inst = search (keeps, Keeps-srg_op, Keeps-rts, Keeps-read_word stable) depth 12

  Keeps-shift_single :
      (shift : ℕ → Single → Single) (count : ℕ) → Keeps P (shift_single shift count)
  unfolding shift_single
  Keeps-shift_single shift count = search (keeps, assign, codes) depth 12

  Keeps-shift_double :
      (shift : ℕ → Double → Double) (count : ℕ) → Keeps P (shift_double shift count)
  unfolding shift_double
  Keeps-shift_double shift count = search (keeps, assign, codes) depth 12

  pub Keeps-load_codes_a : Keeps P load_codes_a
  unfolding load_codes_a
  Keeps-load_codes_a = search (keeps, Keeps-codes_load stable) depth 12

  Keeps-normalize : (n : ℕ) → Keeps P (normalize n)
  unfolding normalize
  Keeps-normalize n = search (keeps, assign, codes) depth 12

  Keeps-compute_parity : (n : ℕ) → Keeps P (compute_parity n)
  unfolding compute_parity
  Keeps-compute_parity n = search (keeps, assign, codes) depth 12

  pub Keeps-shr_group : (type count : ℕ) → Keeps P (shr_group type count)
  unfolding shr_group
  Keeps-shr_group type count =
      search (keeps, Keeps-shift_single, Keeps-shift_double, Keeps-load_codes_a) depth 12

  pub Keeps-shc_group :
      (type count : ℕ) (other : M Status) → Keeps P other → Keeps P (shc_group type count other)
  unfolding shc_group
  Keeps-shc_group type count other h =
      search (keeps, Keeps-shift_double, Keeps-load_codes_a, Keeps-normalize, Keeps-compute_parity)
        depth 12

  pub Keeps-shift_instr : (inst address : ℕ) → Keeps P (shift_instr inst false address)
  unfolding shift_instr ditr
  Keeps-shift_instr inst address =
      search (keeps, Keeps-shc_group, Keeps-load_codes_a, Keeps-read_word stable) depth 12

  pub Keeps-group_3_shift_dl : (inst : ℕ) → Keeps P (group_3_shift_dl inst false)
  unfolding group_3_shift_dl
  Keeps-group_3_shift_dl inst =
      search (keeps, Keeps-shr_group, Keeps-set_register, Keeps-read_word stable) depth 12

  pub Keeps-group_3_shift_px : (inst : ℕ) → Keeps P (group_3_shift_px inst false)
  unfolding group_3_shift_px
  Keeps-group_3_shift_px inst = search (keeps, Keeps-shr_group, Keeps-set_register) depth 12

  pub Keeps-group_3_shift_p : (inst : ℕ) → Keeps P (group_3_shift_p inst false)
  unfolding group_3_shift_p
  Keeps-group_3_shift_p inst = search (keeps, Keeps-shr_group, Keeps-set_register) depth 12
