-- ===== src/State.antt =====
-- The state of the processor: CPU_STATE of Mitra/mitra_cpu.h with the globals of
-- Mitra/mitra_cpu.c that instructions read or write (M, MP, susp_stack_ptr, cpu_unit.flags).
--
-- Bit maps (requests for traps, suspensions and interrupts) are functions from the bit's number,
-- memory and the register blocks are functions from the index; who indexes them checks bounds.
use mitra_15_for_simh.Prelude.{ℕ, Bool, ◌==◌, if◌then◌else◌, u16}

-- A 16-bit register that has a field of its own in CPU_STATE. The first eight are block 0 and the
-- next eight are block 1, in the order of their numbers.
pub data Reg : Type 0 where
  reg_p reg_l reg_g reg_a reg_e reg_x reg_v reg_w : Reg
  reg_8 reg_cnt_mae reg_curr_mae reg_work_mae reg_12 reg_nc1 reg_nc2 reg_nc3 : Reg

-- The five program indicators.
pub record Indicators : Type 0 where
  pub c : ℕ
  pub ov : ℕ
  pub ms : Bool
  pub ma : Bool
  pub pr : Bool

-- What `mitra_suspension_process` saves: the fields that are not always 0.
pub record SuspContext : Type 0 where
  pub u_reg : ℕ
  pub j_reg : ℕ
  pub saved_bloc : ℕ

-- The options in `cpu_unit.flags`.
pub record UnitFlags : Type 0 where
  pub extins : Bool
  pub fp : Bool
  pub muldiv : Bool
  pub hsint : Bool

pub record CpuState : Type 0 where
  pub reg : Reg → ℕ
  pub reg_block : ℕ → ℕ → ℕ
  pub ind : Indicators
  pub u : ℕ
  pub j_reg : ℕ
  pub intrpt_pending : ℕ → Bool
  pub curr_int_lvl : ℕ
  pub high_speed : Bool
  pub susp_req_bits : ℕ → Bool
  pub susp_active_level : ℕ
  pub susp_pending : Bool
  pub susp_stack : ℕ → SuspContext
  pub susp_stack_ptr : ℕ
  pub trp_req_bits : ℕ → Bool
  pub trap_pending : Bool
  pub trap_cause : ℕ
  pub mem : ℕ → ℕ
  pub mp : ℕ → Bool
  pub flags : UnitFlags

-- A write of one entry of a table.
abbrev pub update {ℓ} : {A : Type ℓ} → (ℕ → A) → ℕ → A → ℕ → A
update f i y j = if j == i then y else f j

-- The number of a register, block by block.
unfoldable pub reg_num : Reg → ℕ
reg_num reg_p = 0
reg_num reg_l = 1
reg_num reg_g = 2
reg_num reg_a = 3
reg_num reg_e = 4
reg_num reg_x = 5
reg_num reg_v = 6
reg_num reg_w = 7
reg_num reg_8 = 8
reg_num reg_cnt_mae = 9
reg_num reg_curr_mae = 10
reg_num reg_work_mae = 11
reg_num reg_12 = 12
reg_num reg_nc1 = 13
reg_num reg_nc2 = 14
reg_num reg_nc3 = 15

-- An assignment to a register: the fields are uint16, so the value is cut to 16 bits.
unfoldable pub set_reg : Reg → ℕ → CpuState → CpuState
unfolding reg_num
set_reg r n s = record s { reg = λ q. if reg_num q == reg_num r then u16 n else s.reg q }
