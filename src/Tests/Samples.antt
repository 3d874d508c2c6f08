-- ===== src/Tests/Samples.antt =====
-- A processor with a small program, and a host whose doubles are natural numbers.
use mitra_15_for_simh.Prelude.{
  ℕ, ◌+◌, ◌-◌, ◌*◌, ◌/◌, ◌^◌, true, false, none, ◌==◌, leb, if◌then◌else◌,
}
use mitra_15_for_simh.State.{CpuState, Reg, reg_p, reg_l, reg_g, reg_a, reg_e, reg_x}
use mitra_15_for_simh.Host.{Host}

abbrev pub sample_host : Host
sample_host = record {
  Double = ℕ;
  of_nat = λ n. n;
  d_add = λ m n. m + n;
  d_sub = λ m n. m - n;
  d_mul = λ m n. m * n;
  d_div = λ m n. m / n;
  d_neg = λ n. n;
  d_is_zero = λ n. n == 0;
  d_is_negative = λ n. false;
  fabs = λ n. n;
  pow16 = λ e. 16 ^ (e.plus - e.minus);
  floor_log16 = λ n. record { plus = 0; minus = 0 };
  llround = λ n. n;
  dio_disp = λ mode. none;
}

abbrev pub sample_reg : Reg → ℕ
sample_reg reg_p = 0x102
sample_reg reg_l = 0x200
sample_reg reg_g = 0x300
sample_reg reg_a = 0x1234
sample_reg reg_e = 3
sample_reg reg_x = 4
sample_reg _ = 0

-- The word at byte 12 points to the PRTS at byte 0x40; the word at byte 0x40 is 0x500.
abbrev pub sample_mem : ℕ → ℕ
sample_mem i = if i == 6 then 0x40 else if i == 32 then 0x500 else if i == 33 then 0x600 else 0

abbrev pub slave : CpuState
slave = record {
  reg = sample_reg;
  reg_block = λ block number. 0;
  ind = record { c = 1; ov = 0; ms = false; ma = false; pr = false };
  u = 7;
  j_reg = 2;
  intrpt_pending = λ level. level == 5;
  curr_int_lvl = 0;
  high_speed = false;
  susp_req_bits = λ level. level == 9;
  susp_active_level = 0;
  susp_pending = true;
  susp_stack = λ i. record { u_reg = 0; j_reg = 0; saved_bloc = 0 };
  susp_stack_ptr = 1;
  trp_req_bits = λ cause. cause == 4;
  trap_pending = false;
  trap_cause = 0;
  mem = sample_mem;
  mp = λ i. leb 0x2000 i;
  flags = record { extins = true; fp = true; muldiv = true; hsint = false };
}
