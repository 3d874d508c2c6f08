-- ===== src/Disassembler/Decode.antt =====
-- The decoding of one instruction word by `decode_insn` of Disassembler/disassembler_v7.c.
use Prim.Native.String.{String}
use text.Mathlib.Text.{◌==◌ as str_eq}
use mitra_15_for_simh.Prelude.{
  ℕ, ◌*◌, ◌/◌, ◌%◌, Bool, true, false, not, ◌||◌, none, some, List, [], ◌∷◌, ◌==◌, leb,
  if◌then◌else◌, switch,
}
use mitra_15_for_simh.Disassembler.Insn.{
  get_elem?, Access, no_acc, acc_r, acc_w, acc_other, g1_acc, g2_acc, AmKind, am_none, am_dl,
  am_imm, am_dg, am_il, am_igx, am_ilx, am_rp, am_rm, am_bil, am_big, am_px, cl_noopnd, cl_mem,
  cl_sysop, cl_branch, Insn, group1_opnames, group2_opnames, sys_names, shr_names, srg_names,
  br_names, mode_names, or_empty,
}

unfoldable pub am_for_hexcode : ℕ → AmKind
unfolding switch
am_for_hexcode hc =
    switch hc
      ((0x0000, am_dl)
        ∷ (0x1000, am_dl)
        ∷ (0x3000, am_dl)
        ∷ (0x2000, am_imm)
        ∷ (0xf000, am_imm)
        ∷ (0x4000, am_dg)
        ∷ (0x5000, am_dg)
        ∷ (0x6000, am_il)
        ∷ (0x7000, am_il)
        ∷ (0x8000, am_igx)
        ∷ (0x9000, am_igx)
        ∷ (0xa000, am_ilx)
        ∷ (0xb000, am_ilx)
        ∷ (0xe000, am_px)
        ∷ [])
      am_none

-- The fields before the switch on the top digit.
unfoldable pub undecoded : (inst : ℕ) → Insn
unfolding get_elem? or_empty
undecoded inst = record {
  inst = inst;
  hexcode = inst / 4096 * 4096;
  opname = none;
  modename = or_empty (get_elem? mode_names (inst / 8192 % 8));
  cls = cl_noopnd;
  am = am_none;
  acc = no_acc;
  disp = inst % 256;
  print_disp = inst % 256;
  is_uncond = false;
  is_brx = false;
  is_cls = false;
  is_csv = false;
  is_ret = false;
}

unfoldable pub memory_insn : (names : List String) (acc : Access) → Insn → Insn
memory_insn names acc d = record d {
  opname = get_elem? names (d.inst / 256 % 16);
  cls = cl_mem;
  am = am_for_hexcode d.hexcode;
  acc = acc;
}

-- SHC: the other shifts, and DITR.
unfoldable pub shc_insn : Insn → Insn
shc_insn d =
    let shift : String → Insn = λ name. record d { opname = some name; print_disp = d.disp % 32 } in
    switch (d.disp / 32 % 8)
      ((0, shift "SLLD")
        ∷ (2, shift "PTY")
        ∷ (4, shift "SRLD")
        ∷ (6, shift "NLZ")
        ∷ (1, record d { opname = some "DITR"; print_disp = 0; is_ret = true })
        ∷ [])
      (record d { opname = none })

unfoldable pub srg_insn : Insn → Insn
srg_insn d = record d {
  opname = get_elem? srg_names (d.disp / 2);
  print_disp = 0;
  is_ret = d.disp / 2 == 0 || d.disp / 2 == 6;
}

-- CLM, DIT, RD, WD and STM: in the form P only.
unfoldable pub ctl_insn : Insn → Insn
ctl_insn d' =
    let d : Insn = record d' { print_disp = 0 } in
    if not (d.hexcode == 0xf000)
    then record d { opname = none }
    else switch d.disp
        ((0x00, record d { opname = some "CLM" })
          ∷ (0x01, record d { opname = some "DIT"; is_ret = true })
          ∷ (0x02, record d { opname = some "RD" })
          ∷ (0x03, record d { opname = some "WD" })
          ∷ (0x08, record d { opname = some "STM" })
          ∷ [])
        (record d { opname = none })

unfoldable pub sysop_insn : (sub : ℕ) → Insn → Insn
sysop_insn sub d = record d {
  cls = cl_sysop;
  is_csv = sub == 7;
  is_cls = sub == 8;
  acc = if sub == 9 || sub == 0xb then acc_r else if sub == 0xa then acc_w else acc_other;
}

unfoldable pub system_insn : Insn → Insn
unfolding shc_insn srg_insn ctl_insn sysop_insn
system_insn d' =
    let sub : ℕ = d'.inst / 256 % 16 in
    let d : Insn = record d' {
      opname = get_elem? sys_names sub;
      modename = if d'.hexcode == 0x3000 then "DL" else if d'.hexcode == 0xe000 then "PX" else "P";
      am = am_for_hexcode d'.hexcode;
    } in
    if leb 14 sub
    then d
    else switch sub
        ((
          0x0,
          record d { opname = get_elem? shr_names (d.disp / 32 % 8); print_disp = d.disp % 32 },
        )
          ∷ (0xc, shc_insn d)
          ∷ (0x1, srg_insn d)
          ∷ (0x4, ctl_insn d)
          ∷ [])
        (sysop_insn sub d)

unfoldable pub branch_insn : Insn → Insn
branch_insn d =
    let op3 : ℕ = d.inst / 256 % 8 in
    let bit11 : Bool = d.inst / 2048 % 2 == 1 in
    let relative : Bool = d.hexcode == 0xc000 in
    record d {
      opname = get_elem? br_names op3;
      cls = cl_branch;
      am = if relative then (if bit11 then am_rm else am_rp) else if bit11 then am_big else am_bil;
      modename = if relative then (if bit11 then "RM" else "RP") else if bit11 then "IG" else "IL";
      is_uncond = op3 == 7;
      is_brx = op3 == 1;
    }

-- An even digit below C is group 1, an odd one other than 3 is group 2.
unfoldable pub decode_insn : (inst : ℕ) → Insn
unfolding undecoded memory_insn system_insn branch_insn
decode_insn inst =
    let d : Insn = undecoded inst in
    let opcode : ℕ = inst / 256 % 16 in
    let digit : ℕ = inst / 4096 in
    if digit == 3 || digit == 14 || digit == 15
    then system_insn d
    else if leb 12 digit
    then branch_insn d
    else if digit % 2 == 0
    then memory_insn group1_opnames (g1_acc opcode) d
    else memory_insn group2_opnames (g2_acc opcode) d

-- What `decode_insn` returns.
abbrev pub is_valid : Insn → Bool
is_valid d = elim d.opname [ none ↦ false | some _ ↦ true ]

unfoldable pub has_name : String → Insn → Bool
has_name name d = elim d.opname as (λ _. Bool) [ none ↦ false | some n ↦ str_eq n name ]
