-- ===== src/Cpu/Stable/Memory.antt =====
-- The instructions that read, write and move memory.
use mitra_15_for_simh.Prelude.{ℕ, zero, suc}
use mitra_15_for_simh.State.{CpuState}
use mitra_15_for_simh.Run.{M}
use mitra_15_for_simh.Run.Keeps.{Keeps}
use mitra_15_for_simh.Status.{Status}
use mitra_15_for_simh.Host.{Host}
use mitra_15_for_simh.Alu.{
  AluResult, Quotient, div_by_zero, div_overflow, divided, div_undefined, FpStatus, fp_ok, fp_zero,
  fp_overflow, fp_underflow, set_condition_codes_compare, set_condition_codes_arithmetic,
  set_condition_codes_float,
}
use mitra_15_for_simh.Instr.Load.{
  cps_loop, cps_result, cps, complex_mem_op_reg_to_reg, alu_a, divide, mem_op_reg_to_reg,
}
use mitra_15_for_simh.Instr.Store.{
  trs_loop, mvs_up_loop, mvs_loop, string_proc, sbl, sbr, adm, spa, sts, dst, store_word, trs,
  mvs_up, reg_op_mem_to_mem,
}
use mitra_15_for_simh.Instr.Section.{call_section}
use mitra_15_for_simh.Instr.Float.{store_double, with_operands, divide_unless_zero, floating_inst}
use mitra_15_for_simh.Instr.System.{test_and_set}
use mitra_15_for_simh.Cpu.Stable.{
  IsStable, keeps, Keeps-read_word, Keeps-codes_load, Keeps-read_byte, Keeps-write_byte,
}
use mitra_15_for_simh.Cpu.Stable.Registers.{Keeps-load_a, Keeps-load_e, Keeps-load_x}

module _ {P : CpuState → Type 0} (stable : IsStable P) where
  open stable use {assign, codes, write, mask, unlock}

  Keeps-cps_loop : (left b base i addr : ℕ) → Keeps P (cps_loop left b base i addr)
  unfolding cps_loop
  Keeps-cps_loop zero b base i addr = search keeps
  Keeps-cps_loop (suc left) b base i addr =
      search (keeps, Keeps-read_byte stable, Keeps-cps_loop left) depth 12

  Keeps-cps_result : (i addr : ℕ) → Keeps P (cps_result i addr)
  unfolding cps_result
  Keeps-cps_result i addr = search (keeps, assign, codes) depth 12

  Keeps-cps : (address : ℕ) → Keeps P (cps address)
  unfolding cps
  Keeps-cps address =
      search (keeps, Keeps-cps_loop, Keeps-cps_result, Keeps-read_byte stable) depth 12

  Keeps-complex : (op address : ℕ) → Keeps P (complex_mem_op_reg_to_reg op address)
  unfolding complex_mem_op_reg_to_reg
  Keeps-complex op address = search (keeps, Keeps-cps, assign, Keeps-codes_load stable) depth 12

  Keeps-codes_arithmetic : (n c o : ℕ) → Keeps P (set_condition_codes_arithmetic n c o)
  unfolding set_condition_codes_arithmetic
  Keeps-codes_arithmetic n c o = codes _ _

  Keeps-codes_compare : (m n : ℕ) → Keeps P (set_condition_codes_compare m n)
  unfolding set_condition_codes_compare
  Keeps-codes_compare m n = search (keeps, codes) depth 12

  Keeps-alu_a : (r : AluResult) → Keeps P (alu_a r)
  unfolding alu_a
  Keeps-alu_a r = search (keeps, assign, Keeps-codes_arithmetic) depth 12

  Keeps-divide : (q : Quotient) → Keeps P (divide q)
  unfolding divide
  Keeps-divide div_by_zero = search (keeps, codes) depth 12
  Keeps-divide (div_overflow quot) = search (keeps, assign, codes) depth 12
  Keeps-divide (divided quot rem) = search (keeps, assign, Keeps-load_a stable) depth 12
  Keeps-divide div_undefined = search keeps

  pub Keeps-mem_op : (n address inst : ℕ) → Keeps P (mem_op_reg_to_reg n address inst)
  unfolding mem_op_reg_to_reg
  Keeps-mem_op n address inst =
      search
        (
          keeps,
          Keeps-load_a stable,
          Keeps-load_e stable,
          Keeps-load_x stable,
          Keeps-alu_a,
          Keeps-divide,
          Keeps-complex,
          Keeps-codes_compare,
          assign,
        )
        depth 24

  Keeps-trs_loop : (left table base i : ℕ) → Keeps P (trs_loop left table base i)
  unfolding trs_loop
  Keeps-trs_loop zero table base i = search keeps
  Keeps-trs_loop (suc left) table base i =
      search (keeps, Keeps-read_byte stable, Keeps-write_byte stable, Keeps-trs_loop left) depth 12

  Keeps-mvs_up_loop : (left source target i : ℕ) → Keeps P (mvs_up_loop left source target i)
  unfolding mvs_up_loop
  Keeps-mvs_up_loop zero source target i = search keeps
  Keeps-mvs_up_loop (suc left) source target i =
      search (keeps, Keeps-read_byte stable, Keeps-write_byte stable, Keeps-mvs_up_loop left) depth
        12

  Keeps-mvs_loop : (left source target : ℕ) → Keeps P (mvs_loop left source target)
  unfolding mvs_loop
  Keeps-mvs_loop zero source target = search keeps
  Keeps-mvs_loop (suc left) source target =
      search (keeps, Keeps-read_byte stable, Keeps-write_byte stable, Keeps-mvs_loop left) depth 12

  pub Keeps-string_proc : (inst address : ℕ) → Keeps P (string_proc inst address)
  unfolding string_proc
  Keeps-string_proc inst address = search (keeps, assign, Keeps-mvs_loop) depth 12

  Keeps-sbl : (address : ℕ) → Keeps P (sbl address)
  unfolding sbl
  Keeps-sbl address = search (keeps, write, Keeps-read_word stable) depth 12

  Keeps-sbr : (address : ℕ) → Keeps P (sbr address)
  unfolding sbr
  Keeps-sbr address = search (keeps, write, Keeps-read_word stable) depth 12

  Keeps-adm : (address : ℕ) → Keeps P (adm address)
  unfolding adm
  Keeps-adm address =
      search (keeps, write, assign, Keeps-read_word stable, Keeps-codes_arithmetic) depth 12

  Keeps-spa : (address : ℕ) → Keeps P (spa address)
  unfolding spa
  Keeps-spa address = search (keeps, write) depth 12

  Keeps-sts : (address : ℕ) → Keeps P (sts address)
  unfolding sts
  Keeps-sts address =
      search (keeps, write, Keeps-read_word stable, Keeps-codes_load stable) depth 12

  Keeps-dst : (address : ℕ) → Keeps P (dst address)
  unfolding dst
  Keeps-dst address = search (keeps, write) depth 12

  Keeps-store_word : (address n : ℕ) → Keeps P (store_word address n)
  unfolding store_word
  Keeps-store_word address n = search (keeps, write) depth 12

  Keeps-trs : (address : ℕ) → Keeps P (trs address)
  unfolding trs
  Keeps-trs address = search (keeps, assign, Keeps-trs_loop) depth 12

  Keeps-mvs_up : (address : ℕ) → Keeps P (mvs_up address)
  unfolding mvs_up
  Keeps-mvs_up address = search (keeps, assign, Keeps-mvs_up_loop) depth 12

  pub Keeps-reg_op : (inst address : ℕ) → Keeps P (reg_op_mem_to_mem inst address)
  unfolding reg_op_mem_to_mem
  Keeps-reg_op inst address =
      search
        (
          keeps, Keeps-store_word, Keeps-sbl, Keeps-sbr, Keeps-dst, Keeps-adm, Keeps-spa, Keeps-sts,
          Keeps-trs, Keeps-mvs_up,
        )
        depth 24

  pub Keeps-call_section : (address : ℕ) → Keeps P (call_section address)
  unfolding call_section
  Keeps-call_section address = search (keeps, write, assign, Keeps-read_word stable) depth 16

  pub Keeps-test_and_set : (address : ℕ) → Keeps P (test_and_set address)
  unfolding test_and_set
  Keeps-test_and_set address =
      search (keeps, write, assign, codes, mask, unlock, Keeps-read_word stable) depth 16

  Keeps-codes_float : (st : FpStatus) → Keeps P (set_condition_codes_float st)
  unfolding set_condition_codes_float
  Keeps-codes_float fp_ok = codes _ _
  Keeps-codes_float fp_zero = codes _ _
  Keeps-codes_float fp_overflow = codes _ _
  Keeps-codes_float fp_underflow = codes _ _

  module _ (host : Host) where
    Keeps-store_double : (r : host.Double) → Keeps P (store_double host r)
    unfolding store_double
    Keeps-store_double r = search (keeps, assign, Keeps-codes_float) depth 12

    Keeps-with_operands :
        (address : ℕ) (next : host.Double → host.Double → M Status)
        → ((m n : host.Double) → Keeps P (next m n))
        → Keeps P (with_operands host address next)
    unfolding with_operands
    Keeps-with_operands address next h = search (keeps, Keeps-read_word stable) depth 12

    Keeps-divide_unless_zero : (m n : host.Double) → Keeps P (divide_unless_zero host m n)
    unfolding divide_unless_zero
    Keeps-divide_unless_zero m n = search (keeps, Keeps-store_double) depth 12

    pub Keeps-floating_inst : (inst address : ℕ) → Keeps P (floating_inst host inst address)
    unfolding floating_inst
    Keeps-floating_inst inst address =
        search (keeps, Keeps-with_operands, Keeps-store_double, Keeps-divide_unless_zero) depth 16
