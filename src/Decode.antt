-- ===== src/Decode.antt =====
-- Mitra/mitra_instr.c: the effective addresses and the groups of 16 opcodes.
pub mod Branch
use mitra_15_for_simh.Prelude.{
  ℕ, ◌+◌, ◌-◌, ◌*◌, ◌/◌, ◌%◌, Bool, [], ◌∷◌, ◌==◌, if◌then◌else◌, switch,
}
use mitra_15_for_simh.State.{CpuState, reg_p, reg_l, reg_g, reg_a, reg_e, reg_x}
use mitra_15_for_simh.Run.{M, ◌>>=◌, ◌>>◌, pure, get, ◌≔◌}
use mitra_15_for_simh.Memory.{read_word}
use mitra_15_for_simh.Alu.{set_condition_codes_load}
use mitra_15_for_simh.Status.{Status, scpe_ok}
use mitra_15_for_simh.Deroute.{g_prime}
use mitra_15_for_simh.Host.{Host}
use mitra_15_for_simh.Instr.Registers.{disp, case_instr_xdr, load_x}
use mitra_15_for_simh.Instr.Shifts.{
  group_3_shift_dl, group_3_shift_px, group_3_shift_p, shift_instr,
}
use mitra_15_for_simh.Instr.Load.{mem_op_reg_to_reg}
use mitra_15_for_simh.Instr.Store.{reg_op_mem_to_mem, string_proc}
use mitra_15_for_simh.Instr.Section.{call_section, csv_instr}
use mitra_15_for_simh.Instr.Float.{floating_inst}
use mitra_15_for_simh.Instr.System.{test_and_set, load_mem_protect, f4_master_inst}
use Branch.{group_4_rp, group_4_rm, group_5_il, group_5_ig}

-- The effective addresses of the modes that have one in memory.
unfoldable pub ea_dl : ℕ → CpuState → ℕ
ea_dl inst s = (s.reg reg_l + disp inst) % 65536

unfoldable pub ea_dg : ℕ → CpuState → ℕ
ea_dg inst s = (s.reg reg_g + disp inst) % 65536

-- An indirect mode reads the pointer at the base plus the displacement, which is not cut to 16 bits.
unfoldable pub ea_il : ℕ → M ℕ
ea_il inst = do s ← get; tmp ← read_word (s.reg reg_l + disp inst); pure ((g_prime s + tmp) % 65536)

unfoldable pub ea_igx : ℕ → M ℕ
ea_igx inst = do
  s ← get
  tmp ← read_word (s.reg reg_g + disp inst)
  pure ((s.reg reg_g + tmp + s.reg reg_x) % 65536)

unfoldable pub ea_ilx : ℕ → M ℕ
ea_ilx inst = do
  s ← get
  tmp ← read_word (s.reg reg_l + disp inst)
  pure ((g_prime s + tmp + s.reg reg_x) % 65536)

-- The operand is loaded and combined; what `Mem_OP_Reg_To_Reg` returns is dropped.
unfoldable pub load_from : (inst target_address : ℕ) → M Status
load_from inst target_address = do
  target_value ← read_word target_address
  mem_op_reg_to_reg target_value target_address inst
  pure scpe_ok

unfoldable pub group_1_dl : ℕ → M Status
group_1_dl inst = do s ← get; load_from inst (ea_dl inst s)

-- The operand is the displacement; the word of the instruction itself is read as well.
unfoldable pub group_1_p : ℕ → M Status
group_1_p inst = do
  s ← get
  let target_address = (s.reg reg_p + 65536 - 2) % 65536
  read_word target_address
  mem_op_reg_to_reg (disp inst) target_address inst
  pure scpe_ok

unfoldable pub group_1_dg : ℕ → M Status
group_1_dg inst = do s ← get; load_from inst (ea_dg inst s)

unfoldable pub group_1_il : ℕ → M Status
group_1_il inst = do target_address ← ea_il inst; load_from inst target_address

unfoldable pub group_1_igx : ℕ → M Status
group_1_igx inst = do target_address ← ea_igx inst; load_from inst target_address

unfoldable pub group_1_ilx : ℕ → M Status
group_1_ilx inst = do target_address ← ea_ilx inst; load_from inst target_address

-- DLD: a double word to E and A.
unfoldable pub double_load : ℕ → M Status
double_load target_address = do
  e ← read_word target_address
  reg_e ≔ e
  a ← read_word ((target_address + 2) % 65536)
  reg_a ≔ a
  s ← get
  set_condition_codes_load (s.reg reg_e)
  pure scpe_ok

module _ (host : Host) where
  -- What the five groups with a store do at their effective address.
  unfoldable pub store_to : (inst target_address : ℕ) → M Status
  store_to inst target_address =
      switch (inst / 256 % 16)
        ((0x0, double_load target_address)
          ∷ (0xa, (do floating_inst host inst target_address; pure scpe_ok))
          ∷ (0xb, (do floating_inst host inst target_address; pure scpe_ok))
          ∷ (0xc, (do floating_inst host inst target_address; pure scpe_ok))
          ∷ (0xd, (do floating_inst host inst target_address; pure scpe_ok))
          ∷ (0xf, (do string_proc inst target_address; pure scpe_ok))
          ∷ [])
        (reg_op_mem_to_mem inst target_address)

  unfoldable pub group_2_dl : ℕ → M Status
  group_2_dl inst = do s ← get; store_to inst (ea_dl inst s)

  unfoldable pub group_2_dg : ℕ → M Status
  group_2_dg inst = do s ← get; store_to inst (ea_dg inst s)

  unfoldable pub group_2_il : ℕ → M Status
  group_2_il inst = do target_address ← ea_il inst; store_to inst target_address

  unfoldable pub group_2_igx : ℕ → M Status
  group_2_igx inst = do target_address ← ea_igx inst; store_to inst target_address

  unfoldable pub group_2_ilx : ℕ → M Status
  group_2_ilx inst = do target_address ← ea_ilx inst; store_to inst target_address

-- ICX, DCX, ICL and DCL on an operand; those on X set the condition codes.
unfoldable pub add_x : ℕ → M Status
add_x n = do s ← get; load_x (s.reg reg_x + n)

unfoldable pub sub_x : ℕ → M Status
sub_x n = do s ← get; load_x (s.reg reg_x + 65536 - n)

unfoldable pub add_l : ℕ → M Status
add_l n = do s ← get; reg_l ≔ s.reg reg_l + n; pure scpe_ok

unfoldable pub sub_l : ℕ → M Status
sub_l n = do s ← get; reg_l ≔ s.reg reg_l + 65536 - n; pure scpe_ok

-- The word that ICX, DCX, ICL, DCL, CSV and CLS take in memory, and what they do with it.
unfoldable pub group_3_dl : (inst : ℕ) (mode : Bool) → M Status
group_3_dl inst mode = do
  s ← get
  let target_address = ea_dl inst s
  switch (inst / 256 % 16)
      ((0x0, (do group_3_shift_dl inst mode; pure scpe_ok))
        ∷ (0x1, (do group_3_shift_dl inst mode; pure scpe_ok))
        ∷ (0x2, (do n ← read_word target_address; add_x n))
        ∷ (0x3, (do n ← read_word target_address; sub_x n))
        ∷ (0x5, (do n ← read_word target_address; add_l n))
        ∷ (0x6, (do n ← read_word target_address; sub_l n))
        ∷ (0x7, (do n ← read_word target_address; csv_instr n; pure scpe_ok))
        ∷ (0x8, (do n ← read_word target_address; call_section n; pure scpe_ok))
        ∷ (0x9, (do case_instr_xdr inst; pure scpe_ok))
        ∷ (0xa, (do case_instr_xdr inst; pure scpe_ok))
        ∷ (0xb, (do load_mem_protect mode target_address; pure scpe_ok))
        ∷ (0xc, (do shift_instr inst mode target_address; pure scpe_ok))
        ∷ (0xd, (do test_and_set target_address; pure scpe_ok))
        ∷ [])
      (pure scpe_ok)

-- The same operations on the displacement plus X.
unfoldable pub group_3_px : (inst : ℕ) (mode : Bool) → M Status
group_3_px inst mode = do
  s ← get
  let target_address = (disp inst + s.reg reg_x) % 65536
  switch (inst / 256 % 16)
      ((0x0, (do group_3_shift_px inst mode; pure scpe_ok))
        ∷ (0x1, (do group_3_shift_px inst mode; pure scpe_ok))
        ∷ (0x2, add_x target_address)
        ∷ (0x3, sub_x target_address)
        ∷ (0x5, add_l target_address)
        ∷ (0x6, sub_l target_address)
        ∷ (0x7, (do csv_instr target_address; pure scpe_ok))
        ∷ (0x8, (do call_section target_address; pure scpe_ok))
        ∷ (0x9, (do case_instr_xdr inst; pure scpe_ok))
        ∷ (0xa, (do case_instr_xdr inst; pure scpe_ok))
        ∷ (0xb, (do load_mem_protect mode target_address; pure scpe_ok))
        ∷ (0xc, (do shift_instr inst mode target_address; pure scpe_ok))
        ∷ (0xd, (do test_and_set target_address; pure scpe_ok))
        ∷ [])
      (pure scpe_ok)

-- The same operations on the displacement; F4 alone hands its status on.
unfoldable pub group_3_p : Host → (inst : ℕ) (mode : Bool) → M Status
group_3_p host inst mode =
    switch (inst / 256 % 16)
      ((0x0, (do group_3_shift_p inst mode; pure scpe_ok))
        ∷ (0x1, (do group_3_shift_p inst mode; pure scpe_ok))
        ∷ (0x2, add_x (disp inst))
        ∷ (0x3, sub_x (disp inst))
        ∷ (0x4, f4_master_inst host mode inst)
        ∷ (0x5, add_l (disp inst))
        ∷ (0x6, sub_l (disp inst))
        ∷ (0x7, (do csv_instr (disp inst); pure scpe_ok))
        ∷ (0x8, (do call_section (disp inst); pure scpe_ok))
        ∷ (0x9, (do case_instr_xdr inst; pure scpe_ok))
        ∷ (0xa, (do case_instr_xdr inst; pure scpe_ok))
        ∷ (0xb, (do load_mem_protect mode (disp inst); pure scpe_ok))
        ∷ (0xc, (do shift_instr inst mode (disp inst); pure scpe_ok))
        ∷ (0xd, (do test_and_set (disp inst); pure scpe_ok))
        ∷ [])
      (pure scpe_ok)

-- The first dispatch, on the top four bits.
unfoldable pub dispatch : Host → (inst : ℕ) (mode : Bool) → M Status
dispatch host inst mode =
    switch (inst / 4096 % 16)
      ((0x0, group_1_dl inst)
        ∷ (0x1, group_2_dl host inst)
        ∷ (0x2, group_1_p inst)
        ∷ (0x3, group_3_dl inst mode)
        ∷ (0x4, group_1_dg inst)
        ∷ (0x5, group_2_dg host inst)
        ∷ (0x6, group_1_il inst)
        ∷ (0x7, group_2_il host inst)
        ∷ (0x8, group_1_igx inst)
        ∷ (0x9, group_2_igx host inst)
        ∷ (0xa, group_1_ilx inst)
        ∷ (0xb, group_2_ilx host inst)
        ∷ (0xc, (if inst / 2048 % 2 == 0 then group_4_rp inst else group_4_rm inst))
        ∷ (0xd, (if inst / 2048 % 2 == 0 then group_5_il inst else group_5_ig inst))
        ∷ (0xe, group_3_px inst mode)
        ∷ (0xf, group_3_p host inst mode)
        ∷ [])
      (pure scpe_ok)
