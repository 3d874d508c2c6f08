-- ===== src/Instr/Load.antt =====
-- `Mem_OP_Reg_To_Reg`: the instructions that combine a word of memory with a register.
pub mod Search
use mitra_15_for_simh.Prelude.{
  ℕ, zero, suc, ◌+◌, ◌-◌, ◌*◌, ◌/◌, ◌%◌, bit_and, bit_or, bit_xor, [], ◌∷◌, ◌==◌, if◌then◌else◌,
  switch,
}
use mitra_15_for_simh.State.{reg_a, reg_e, reg_g}
use mitra_15_for_simh.Run.{M, ◌>>=◌, ◌>>◌, pure, get, undefined_behaviour, ◌≔◌, set_c_ov}
use mitra_15_for_simh.Memory.{read_byte, trap_ii}
use mitra_15_for_simh.Alu.{
  AluResult, Quotient, div_by_zero, div_overflow, divided, div_undefined, set_condition_codes_load,
  set_condition_codes_compare, set_condition_codes_arithmetic, add16, sub16, mul32, div32,
}
use mitra_15_for_simh.Status.{Status, scpe_ok, mm_invins, code}
use mitra_15_for_simh.Instr.Registers.{load_a, load_e, load_x}

-- The loop of CPS from index `i`, with the bytes left: the index and address of the first byte
-- that is the reference byte. `addr` is the address looked at last.
unfoldable pub cps_loop : (left : ℕ) (s_byte base i addr : ℕ) → M (record { i : ℕ; addr : ℕ })
cps_loop zero s_byte base i addr = pure (record { i = i; addr = addr })
cps_loop (suc left) s_byte base i addr =
    let rest = cps_loop left s_byte base (i + 1) ((base + i) % 65536) in
    do
      d_byte ← read_byte ((base + i) % 65536)
      if s_byte == d_byte then pure (record { i = i; addr = (base + i) % 65536 }) else rest

-- The end of CPS, where the loop stopped at `i`.
unfoldable pub cps_result : (i addr : ℕ) → M (Unit {0})
cps_result i addr = do
  s ← get
  if i == s.reg reg_e
      then (do reg_a ≔ s.reg reg_g + s.reg reg_a; reg_e ≔ 0; set_c_ov 1 0)
      else (do reg_a ≔ addr; reg_e ≔ s.reg reg_e + 65536 - i; set_c_ov 0 0)

unfoldable pub cps : ℕ → M Status
unfolding cps_loop cps_result
cps target_address = do
  s ← get
  if s.flags.extins
      then (do
        s_byte ← read_byte target_address
        r ← cps_loop (s.reg reg_e) s_byte (s.reg reg_g + s.reg reg_a) 0 0
        cps_result r.i r.addr
        pure scpe_ok)
      else pure mm_invins

-- The callers drop what it returns.
unfoldable pub complex_mem_op_reg_to_reg : (op target_address : ℕ) → M Status
complex_mem_op_reg_to_reg op target_address = do
  s ← get
  switch op
      ((
        0x04,
        (do
          reg_a ≔ target_address + 65536 - s.reg reg_g
          t ← get
          set_condition_codes_load (t.reg reg_a)
          pure scpe_ok),
      )
        ∷ (0x0a, cps target_address)
        ∷ [])
      (pure (code trap_ii))

-- A sum or a difference goes to A, and its carry and overflow to C and OV.
unfoldable pub alu_a : AluResult → M Status
alu_a r = do
  reg_a ≔ r.result
  set_condition_codes_arithmetic (r.result) (r.carry) (r.overflow)
  pure scpe_ok

-- DIV: the quotient goes to A and the remainder to E; on an error only OV is set.
unfoldable pub divide : Quotient → M Status
divide div_by_zero = do s ← get; set_c_ov (s.ind.c) 1; pure scpe_ok
divide (div_overflow quot) = do reg_a ≔ quot; s ← get; set_c_ov (s.ind.c) 1; pure scpe_ok
divide (divided quot rem) = do reg_e ≔ rem; load_a quot
divide div_undefined = undefined_behaviour

unfoldable pub mem_op_reg_to_reg : (mem_value target_address inst : ℕ) → M Status
mem_op_reg_to_reg mem_value target_address inst = do
  s ← get
  let a = s.reg reg_a
  let e = s.reg reg_e
  switch (inst / 256 % 16)
      ((0x00, load_a mem_value)
        ∷ (0x01, load_e mem_value)
        ∷ (0x02, load_x mem_value)
        ∷ (0x03, load_a (bit_xor a mem_value))
        ∷ (0x04, (do complex_mem_op_reg_to_reg 0x04 target_address; pure scpe_ok))
        ∷ (0x05, alu_a (add16 a mem_value 0))
        ∷ (0x06, alu_a (sub16 a mem_value))
        ∷ (0x07, load_a (bit_or a mem_value))
        ∷ (0x08, (if s.flags.muldiv then divide (div32 e a mem_value) else pure mm_invins))
        ∷ (0x09, load_a (bit_and a mem_value))
        ∷ (0x0a, (do complex_mem_op_reg_to_reg 0x0a target_address; pure scpe_ok))
        ∷ (0x0b, (do set_condition_codes_compare a mem_value; pure scpe_ok))
        ∷ (
          0x0c,
          (if s.flags.muldiv
              then (do reg_a ≔ (mul32 a mem_value).low; load_e (mul32 a mem_value).high)
              else pure mm_invins),
        )
        ∷ (0x0d, load_a (a % 256 + mem_value % 256 * 256))
        ∷ (0x0e, load_a (mem_value % 256))
        ∷ [])
      (load_x (mem_value % 256))
