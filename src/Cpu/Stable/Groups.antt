-- ===== src/Cpu/Stable/Groups.antt =====
-- The groups of opcodes that are the same in both modes.
use mitra_15_for_simh.Prelude.{ℕ}
use mitra_15_for_simh.State.{CpuState}
use mitra_15_for_simh.Run.Keeps.{Keeps}
use mitra_15_for_simh.Host.{Host}
use mitra_15_for_simh.Decode.{
  ea_il, ea_igx, ea_ilx, load_from, group_1_dl, group_1_p, group_1_dg, group_1_il, group_1_igx,
  group_1_ilx, double_load, store_to, group_2_dl, group_2_dg, group_2_il, group_2_igx, group_2_ilx,
  add_x, sub_x, add_l, sub_l,
}
use mitra_15_for_simh.Decode.Branch.{
  branch_to, group_4_rp, group_4_rm, branch_indirect, group_5_il, group_5_ig,
}
use mitra_15_for_simh.Cpu.Stable.{IsStable, keeps, Keeps-read_word, Keeps-codes_load}
use mitra_15_for_simh.Cpu.Stable.Registers.{Keeps-load_x}
use mitra_15_for_simh.Cpu.Stable.Memory.{
  Keeps-mem_op, Keeps-string_proc, Keeps-reg_op, Keeps-floating_inst,
}

module _ {P : CpuState → Type 0} (stable : IsStable P) where
  open stable use {assign}

  pub Keeps-ea_il : (inst : ℕ) → Keeps P (ea_il inst)
  unfolding ea_il
  Keeps-ea_il inst = search (keeps, Keeps-read_word stable) depth 12

  pub Keeps-ea_igx : (inst : ℕ) → Keeps P (ea_igx inst)
  unfolding ea_igx
  Keeps-ea_igx inst = search (keeps, Keeps-read_word stable) depth 12

  pub Keeps-ea_ilx : (inst : ℕ) → Keeps P (ea_ilx inst)
  unfolding ea_ilx
  Keeps-ea_ilx inst = search (keeps, Keeps-read_word stable) depth 12

  pub Keeps-load_from : (inst address : ℕ) → Keeps P (load_from inst address)
  unfolding load_from
  Keeps-load_from inst address =
      search (keeps, Keeps-read_word stable, Keeps-mem_op stable) depth 12

  pub Keeps-group_1_dl : (inst : ℕ) → Keeps P (group_1_dl inst)
  unfolding group_1_dl
  Keeps-group_1_dl inst = search (keeps, Keeps-load_from) depth 12

  pub Keeps-group_1_p : (inst : ℕ) → Keeps P (group_1_p inst)
  unfolding group_1_p
  Keeps-group_1_p inst = search (keeps, Keeps-read_word stable, Keeps-mem_op stable) depth 12

  pub Keeps-group_1_dg : (inst : ℕ) → Keeps P (group_1_dg inst)
  unfolding group_1_dg
  Keeps-group_1_dg inst = search (keeps, Keeps-load_from) depth 12

  pub Keeps-group_1_il : (inst : ℕ) → Keeps P (group_1_il inst)
  unfolding group_1_il
  Keeps-group_1_il inst = search (keeps, Keeps-ea_il, Keeps-load_from) depth 12

  pub Keeps-group_1_igx : (inst : ℕ) → Keeps P (group_1_igx inst)
  unfolding group_1_igx
  Keeps-group_1_igx inst = search (keeps, Keeps-ea_igx, Keeps-load_from) depth 12

  pub Keeps-group_1_ilx : (inst : ℕ) → Keeps P (group_1_ilx inst)
  unfolding group_1_ilx
  Keeps-group_1_ilx inst = search (keeps, Keeps-ea_ilx, Keeps-load_from) depth 12

  pub Keeps-double_load : (address : ℕ) → Keeps P (double_load address)
  unfolding double_load
  Keeps-double_load address =
      search (keeps, assign, Keeps-read_word stable, Keeps-codes_load stable) depth 12

  pub Keeps-branch_to : (inst address : ℕ) → Keeps P (branch_to inst address)
  unfolding branch_to
  Keeps-branch_to inst address = search (keeps, assign) depth 12

  pub Keeps-group_4_rp : (inst : ℕ) → Keeps P (group_4_rp inst)
  unfolding group_4_rp
  Keeps-group_4_rp inst = search (keeps, assign, Keeps-branch_to) depth 12

  pub Keeps-group_4_rm : (inst : ℕ) → Keeps P (group_4_rm inst)
  unfolding group_4_rm
  Keeps-group_4_rm inst = search (keeps, assign, Keeps-branch_to) depth 12

  pub Keeps-branch_indirect : (base inst : ℕ) → Keeps P (branch_indirect base inst)
  unfolding branch_indirect
  Keeps-branch_indirect base inst =
      search (keeps, assign, Keeps-branch_to, Keeps-read_word stable) depth 12

  pub Keeps-group_5_il : (inst : ℕ) → Keeps P (group_5_il inst)
  unfolding group_5_il
  Keeps-group_5_il inst = search (keeps, Keeps-branch_indirect) depth 12

  pub Keeps-group_5_ig : (inst : ℕ) → Keeps P (group_5_ig inst)
  unfolding group_5_ig
  Keeps-group_5_ig inst = search (keeps, Keeps-branch_indirect) depth 12

  pub Keeps-add_x : (n : ℕ) → Keeps P (add_x n)
  unfolding add_x
  Keeps-add_x n = search (keeps, Keeps-load_x stable) depth 12

  pub Keeps-sub_x : (n : ℕ) → Keeps P (sub_x n)
  unfolding sub_x
  Keeps-sub_x n = search (keeps, Keeps-load_x stable) depth 12

  pub Keeps-add_l : (n : ℕ) → Keeps P (add_l n)
  unfolding add_l
  Keeps-add_l n = search (keeps, assign) depth 12

  pub Keeps-sub_l : (n : ℕ) → Keeps P (sub_l n)
  unfolding sub_l
  Keeps-sub_l n = search (keeps, assign) depth 12

  module _ (host : Host) where
    Keeps-store_to : (inst address : ℕ) → Keeps P (store_to host inst address)
    unfolding store_to
    Keeps-store_to inst address =
        search (keeps, Keeps-double_load, Keeps-floating_inst, Keeps-string_proc, Keeps-reg_op)
          depth 24

    pub Keeps-group_2_dl : (inst : ℕ) → Keeps P (group_2_dl host inst)
    unfolding group_2_dl
    Keeps-group_2_dl inst = search (keeps, Keeps-store_to) depth 12

    pub Keeps-group_2_dg : (inst : ℕ) → Keeps P (group_2_dg host inst)
    unfolding group_2_dg
    Keeps-group_2_dg inst = search (keeps, Keeps-store_to) depth 12

    pub Keeps-group_2_il : (inst : ℕ) → Keeps P (group_2_il host inst)
    unfolding group_2_il
    Keeps-group_2_il inst = search (keeps, Keeps-ea_il, Keeps-store_to) depth 12

    pub Keeps-group_2_igx : (inst : ℕ) → Keeps P (group_2_igx host inst)
    unfolding group_2_igx
    Keeps-group_2_igx inst = search (keeps, Keeps-ea_igx, Keeps-store_to) depth 12

    pub Keeps-group_2_ilx : (inst : ℕ) → Keeps P (group_2_ilx host inst)
    unfolding group_2_ilx
    Keeps-group_2_ilx inst = search (keeps, Keeps-ea_ilx, Keeps-store_to) depth 12

    pub ruleset dispatched = (
      Keeps-group_1_dl, Keeps-group_2_dl, Keeps-group_1_p, Keeps-group_1_dg, Keeps-group_2_dg,
      Keeps-group_1_il, Keeps-group_2_il, Keeps-group_1_igx, Keeps-group_2_igx, Keeps-group_1_ilx,
      Keeps-group_2_ilx, Keeps-group_4_rp, Keeps-group_4_rm, Keeps-group_5_il, Keeps-group_5_ig,
    )
