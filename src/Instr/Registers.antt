-- ===== src/Instr/Registers.antt =====
-- LDR and STR between A and the numbered registers, and the group SRG of operations on registers.
use mitra_15_for_simh.Prelude.{
  ℕ, ◌+◌, ◌-◌, ◌*◌, ◌/◌, ◌%◌, bit_and, bit_or, bit_xor, Bool, [], ◌∷◌, ◌==◌, if◌then◌else◌, switch,
}
use mitra_15_for_simh.State.{
  Reg, reg_p, reg_l, reg_g, reg_a, reg_e, reg_x, reg_v, reg_w, reg_8, reg_cnt_mae, reg_curr_mae,
  reg_work_mae, reg_12, reg_nc1, reg_nc2, reg_nc3,
}
use mitra_15_for_simh.Run.{M, ◌>>=◌, ◌>>◌, pure, get, ◌≔◌}
use mitra_15_for_simh.Memory.{read_word, trap_ii}
use mitra_15_for_simh.Alu.{set_condition_codes_load}
use mitra_15_for_simh.Status.{Status, scpe_ok, mm_prvins, code}
use mitra_15_for_simh.Deroute.{g_prime, load_indicators_from_block}
use mitra_15_for_simh.Deroute.Interrupt.{set_reg_block}

-- The opcode byte and the displacement of an instruction.
abbrev pub opcode : ℕ → ℕ
opcode inst = inst / 256 % 256

abbrev pub disp : ℕ → ℕ
disp inst = inst % 256

-- The fields that stand for block 0, by number.
unfoldable pub block_0 : ℕ → Reg
unfolding switch
block_0 n =
    switch n
      ((0, reg_p)
        ∷ (1, reg_l)
        ∷ (2, reg_g)
        ∷ (3, reg_a)
        ∷ (4, reg_e)
        ∷ (5, reg_x)
        ∷ (6, reg_v)
        ∷ [])
      reg_w

-- The fields that stand for block 1.
unfoldable pub block_1 : ℕ → Reg
unfolding switch
block_1 n =
    switch n
      ((0, reg_8)
        ∷ (1, reg_cnt_mae)
        ∷ (2, reg_curr_mae)
        ∷ (3, reg_work_mae)
        ∷ (4, reg_12)
        ∷ (5, reg_nc1)
        ∷ (6, reg_nc2)
        ∷ [])
      reg_nc3

unfoldable pub instr_ldr : (block number : ℕ) → M (Unit {0})
instr_ldr block number = do
  s ← get
  reg_a ≔ (
      if block == 0
      then s.reg (block_0 number)
      else if block == 1
      then s.reg (block_1 number)
      else s.reg_block block number)
  t ← get
  set_condition_codes_load (t.reg reg_a)

unfoldable pub instr_str : (block number : ℕ) → M (Unit {0})
instr_str block number = do
  s ← get
  if block == 0
      then block_0 number ≔ s.reg reg_a
      else if block == 1
      then (do block_1 number ≔ s.reg reg_a; set_reg_block block number (s.reg reg_a))
      else set_reg_block block number (s.reg reg_a)
  t ← get
  set_condition_codes_load (t.reg reg_a)

-- The register's number is in the low six bits: the block, then the register.
unfoldable pub ldr_number : ℕ → M Status
ldr_number n = do instr_ldr (n / 8 % 8) (n % 8); pure scpe_ok

unfoldable pub str_number : ℕ → M Status
str_number n = do instr_str (n / 8 % 8) (n % 8); pure scpe_ok

unfoldable pub case_instr_xdr : ℕ → M Status
case_instr_xdr inst = do
  s ← get
  switch (opcode inst)
      ((0x39, (do n ← read_word ((s.reg reg_l + disp inst) % 65536); ldr_number n))
        ∷ (
          0x3a,
          (if s.ind.ms
              then (do n ← read_word ((s.reg reg_l + disp inst) % 65536); str_number n)
              else pure mm_prvins),
        )
        ∷ (0xe9, ldr_number ((disp inst + s.reg reg_x) % 65536))
        ∷ (
          0xea,
          (if s.ind.ms then str_number ((disp inst + s.reg reg_x) % 65536) else pure mm_prvins),
        )
        ∷ (0xf9, ldr_number (disp inst))
        ∷ (0xfa, (if s.ind.ms then str_number (disp inst) else pure mm_prvins))
        ∷ [])
      (pure (code trap_ii))

-- An assignment to a register and the condition codes of its new value.
unfoldable pub load_a : ℕ → M Status
load_a n = do reg_a ≔ n; t ← get; set_condition_codes_load (t.reg reg_a); pure scpe_ok

unfoldable pub load_e : ℕ → M Status
load_e n = do reg_e ≔ n; t ← get; set_condition_codes_load (t.reg reg_e); pure scpe_ok

unfoldable pub load_x : ℕ → M Status
load_x n = do reg_x ≔ n; t ← get; set_condition_codes_load (t.reg reg_x); pure scpe_ok

-- The operations of SRG that every addressing mode has, by `srg_op_t`; `other` is the default.
unfoldable pub srg_op : ℕ → M Status → M Status
srg_op type other = do
  s ← get
  let a = s.reg reg_a
  let e = s.reg reg_e
  let x = s.reg reg_x
  switch type
      ((0x01, (do reg_a ≔ e; reg_e ≔ a; pure scpe_ok))
        ∷ (0x02, (do reg_a ≔ x; reg_x ≔ a; pure scpe_ok))
        ∷ (0x03, (do reg_e ≔ x; reg_x ≔ e; pure scpe_ok))
        ∷ (0x04, (do reg_a ≔ a % 256 * 256 + a / 256 % 256; pure scpe_ok))
        ∷ (0x05, (do reg_e ≔ 65535 - e; pure scpe_ok))
        ∷ (0x07, (do reg_e ≔ e + s.ind.c; set_condition_codes_load a; pure scpe_ok))
        ∷ (0x08, (do reg_a ≔ 65535 - a; pure scpe_ok))
        ∷ (0x09, load_a (bit_xor a e))
        ∷ (0x0a, (do reg_x ≔ 65535 - x + 1; pure scpe_ok))
        ∷ (0x0b, load_a (bit_or a e))
        ∷ (0x0c, load_a (bit_and a e))
        ∷ (0x0d, (do reg_e ≔ 65535; pure scpe_ok))
        ∷ (0x0e, load_a (65535 - a + 1))
        ∷ (0x0f, (do reg_x ≔ x / 2 + x / 32768 * 32768; pure scpe_ok))
        ∷ [])
      other

-- RTS: P and L come from the first two words of the called section's LDS.
unfoldable pub rts : M Status
rts = do
  s ← get
  saved_p ← read_word (s.reg reg_l)
  saved_l ← read_word (s.reg reg_l + 2)
  reg_p ≔ saved_p + g_prime s + 2
  reg_l ≔ saved_l + g_prime s
  pure scpe_ok

-- RSV: the indicators are loaded first.
unfoldable pub rsv : M Status
rsv = do
  s ← get
  saved_flags ← read_word (s.reg reg_g + 4)
  load_indicators_from_block saved_flags
  l ← read_word (s.reg reg_g + 2)
  reg_l ≔ (s.reg reg_g + l) % 32768
  p ← read_word (s.reg reg_g)
  reg_p ≔ (s.reg reg_g + 2 + p) % 32768
  pure scpe_ok

-- The type is bits 1 to 4 of a word in memory (DL), of the displacement plus X (PX) or of the
-- displacement (P); only P has RTS and RSV. `mode` is MS.
unfoldable pub set_register : (inst : ℕ) (mode : Bool) → M Status
set_register inst mode = do
  s ← get
  switch (opcode inst)
      ((
        0x31,
        (do
          srg_word ← read_word ((s.reg reg_l + disp inst) % 65536)
          srg_op (srg_word / 2 % 16) (pure scpe_ok)),
      )
        ∷ (0xe1, srg_op ((disp inst + s.reg reg_x) / 2 % 16) (pure scpe_ok))
        ∷ (
          0xf1,
          switch (disp inst / 2 % 16)
              ((0x00, rts) ∷ (0x06, (if mode then rsv else pure mm_prvins)) ∷ [])
              (srg_op (disp inst / 2 % 16) (pure (code trap_ii))),
        )
        ∷ [])
      (pure (code trap_ii))
