-- ===== src/Disassembler/Insn.antt =====
-- The decoding of one instruction word of Disassembler/disassembler_v7.c. The templates of the
-- comments are left out.
use Prim.Native.String.{String}
use mitra_15_for_simh.Prelude.{
  ℕ, zero, suc, Bool, true, false, Option, none, some, List, [], ◌∷◌, ◌==◌, leb, if◌then◌else◌,
  switch,
}

-- The element of an array at an index, where there is one.
unfoldable pub get_elem? {ℓ} : {A : Type ℓ} → List A → ℕ → Option A
get_elem? [] i = none
get_elem? (x ∷ xs) zero = some x
get_elem? (x ∷ xs) (suc i) = get_elem? xs i

-- `acc`, a mask of bits: ACC_R, ACC_W, ACC_ADDR, ACC_DBL, ACC_BYTE, ACC_OTHER and ACC_RETCELL.
pub record Access : Type 0 where
  pub reads : Bool
  pub writes : Bool
  pub takes_address : Bool
  pub is_double : Bool
  pub is_byte : Bool
  pub is_other : Bool
  pub is_retcell : Bool

abbrev pub no_acc : Access
no_acc = record {
  reads = false;
  writes = false;
  takes_address = false;
  is_double = false;
  is_byte = false;
  is_other = false;
  is_retcell = false;
}

abbrev pub acc_r : Access
acc_r = record no_acc { reads = true }

abbrev pub acc_w : Access
acc_w = record no_acc { writes = true }

abbrev pub acc_other : Access
acc_other = record no_acc { is_other = true }

abbrev pub double : Access → Access
double a = record a { is_double = true }

abbrev pub byte : Access → Access
byte a = record a { is_byte = true }

unfoldable pub g1_acc : ℕ → Access
unfolding switch
g1_acc opcode =
    if leb 13 opcode
    then byte acc_r
    else if opcode == 4
    then record no_acc { takes_address = true }
    else acc_r

unfoldable pub g2_acc : ℕ → Access
unfolding switch
g2_acc opcode =
    switch opcode
      ((0, double acc_r)
        ∷ (4, byte acc_w)
        ∷ (5, byte acc_w)
        ∷ (6, double acc_w)
        ∷ (7, record acc_r { writes = true })
        ∷ (8, record acc_w { is_retcell = true })
        ∷ (10, double acc_r)
        ∷ (11, double acc_r)
        ∷ (12, double acc_r)
        ∷ (13, double acc_r)
        ∷ (14, acc_other)
        ∷ (15, acc_other)
        ∷ [])
      acc_w

-- The addressing modes and the classes of instructions.
pub data AmKind : Type 0 where
  am_none am_dl am_imm am_dg am_il am_igx am_ilx am_rp am_rm am_bil am_big am_px : AmKind

pub data InsnClass : Type 0 where
  cl_noopnd cl_mem cl_sysop cl_branch : InsnClass

abbrev pub is_branch : InsnClass → Bool
is_branch cl_branch = true
is_branch _ = false

abbrev pub is_mem : InsnClass → Bool
is_mem cl_mem = true
is_mem _ = false

-- `opname` is none for a word that is no instruction.
pub record Insn : Type 0 where
  pub inst : ℕ
  pub hexcode : ℕ
  pub opname : Option String
  pub modename : String
  pub cls : InsnClass
  pub am : AmKind
  pub acc : Access
  pub disp : ℕ
  pub print_disp : ℕ
  pub is_uncond : Bool
  pub is_brx : Bool
  pub is_cls : Bool
  pub is_csv : Bool
  pub is_ret : Bool

abbrev pub group1_opnames : List String
group1_opnames =
    "LDA" ∷ "LDE" ∷ "LDX" ∷ "EOR" ∷ "LEA" ∷ "ADD" ∷ "SUB" ∷ "IOR" ∷ "DIV" ∷ "AND" ∷ "CPS" ∷ "CMP"
    ∷ "MUL" ∷ "LBL" ∷ "LBR" ∷ "LBX" ∷ []

abbrev pub group2_opnames : List String
group2_opnames =
    "DLD" ∷ "STA" ∷ "STE" ∷ "STX" ∷ "SBL" ∷ "SBR" ∷ "DST" ∷ "ADM" ∷ "SPA" ∷ "STS" ∷ "FAD" ∷ "FSU"
    ∷ "FMU" ∷ "FDV" ∷ "TRS" ∷ "MVS" ∷ []

-- The last two of the sixteen are NULL.
abbrev pub sys_names : List String
sys_names =
    "SHR" ∷ "SRG" ∷ "ICX" ∷ "DCX" ∷ "CTL" ∷ "ICL" ∷ "DCL" ∷ "CSV" ∷ "CLS" ∷ "LDR" ∷ "STR" ∷ "LDP"
    ∷ "SHC" ∷ "TES" ∷ []

abbrev pub shr_names : List String
shr_names = "SLLS" ∷ "SRCS" ∷ "SAD" ∷ "SLCD" ∷ "SLCS" ∷ "SAS" ∷ "SRLS" ∷ "SRCD" ∷ []

abbrev pub srg_names : List String
srg_names =
    "RTS" ∷ "XAE" ∷ "XAX" ∷ "XEX" ∷ "XAA" ∷ "CCE" ∷ "RSV" ∷ "ACE" ∷ "CCA" ∷ "AEE" ∷ "CNX" ∷ "AIE"
    ∷ "AAE" ∷ "LNE" ∷ "CNA" ∷ "CHX" ∷ []

abbrev pub br_names : List String
br_names = "BCT" ∷ "BRX" ∷ "BOT" ∷ "BCF" ∷ "BAN" ∷ "BAZ" ∷ "BOF" ∷ "BRU" ∷ []

abbrev pub mode_names : List String
mode_names = "DL" ∷ "P" ∷ "DG" ∷ "IL" ∷ "IGX" ∷ "ILX" ∷ "RP" ∷ "RM" ∷ []

unfoldable pub or_empty : Option String → String
or_empty none = ""
or_empty (some name) = name
