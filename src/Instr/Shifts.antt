-- ===== src/Instr/Shifts.antt =====
-- SHR and SHC: the shift instructions of Mitra/mitra_instr.c and Mitra/mitra_instr_utils.c.
use mitra_15_for_simh.Prelude.{
  ℕ, ◌+◌, ◌-◌, ◌*◌, ◌/◌, ◌%◌, Bool, [], ◌∷◌, ◌==◌, if◌then◌else◌, switch,
}
use mitra_15_for_simh.State.{reg_a, reg_e, reg_x, reg_l}
use mitra_15_for_simh.Run.{M, ◌>>=◌, ◌>>◌, pure, get, ◌≔◌, set_c_ov}
use mitra_15_for_simh.Memory.{read_word, trap_ii}
use mitra_15_for_simh.Alu.{set_condition_codes_load}
use mitra_15_for_simh.Status.{Status, scpe_ok, mm_prvins, code}
use mitra_15_for_simh.Shift.{
  Single, Double, repeat, shift_lls, shift_rls, shift_sas, shift_srcs, shift_slcs, shift_lld,
  shift_rld, shift_sad, shift_lcd, shift_rcd, normalize_loop, parity_step,
}
use mitra_15_for_simh.Deroute.Interrupt.{mitra_interrupt_return}
use mitra_15_for_simh.Instr.Registers.{opcode, disp, set_register}

-- `cpu_state.reg_A = shift(cpu_state.reg_A, count)`.
unfoldable pub shift_single : (ℕ → Single → Single) → ℕ → M (Unit {0})
shift_single shift count = do
  s ← get
  let r = shift count (record { c = s.ind.c; val = s.reg reg_a })
  set_c_ov (r.c) (s.ind.ov)
  reg_a ≔ r.val

-- `shift(&cpu_state.reg_E, &cpu_state.reg_A, count)`.
unfoldable pub shift_double : (ℕ → Double → Double) → ℕ → M (Unit {0})
shift_double shift count = do
  s ← get
  let r = shift count (record { c = s.ind.c; e = s.reg reg_e; a = s.reg reg_a })
  set_c_ov (r.c) (s.ind.ov)
  reg_e ≔ r.e
  reg_a ≔ r.a

unfoldable pub load_codes_a : M Status
load_codes_a = do s ← get; set_condition_codes_load (s.reg reg_a); pure scpe_ok

unfoldable pub normalize : ℕ → M (Unit {0})
unfolding normalize_loop
normalize max_steps = do
  s ← get
  let r = normalize_loop 31 max_steps (s.reg reg_e * 65536 + s.reg reg_a) 0
  reg_e ≔ r.word / 65536 % 65536
  reg_a ≔ r.word % 65536
  reg_x ≔ s.reg reg_x + 65536 - r.steps
  if r.steps == 0 then set_c_ov 0 1 else if r.steps == max_steps then set_c_ov 1 0 else set_c_ov 0 0

-- The count of bits goes to E, as the callers write it.
unfoldable pub compute_parity : ℕ → M (Unit {0})
unfolding repeat parity_step
compute_parity count = do
  s ← get
  let r = repeat count parity_step (record { val = s.reg reg_a; count = 0; shifted_out = 0 })
  reg_a ≔ r.val
  set_c_ov (r.shifted_out) (r.count % 2)
  reg_e ≔ r.count

-- The switch over `shift_type_t` that SHR has in each addressing mode. The last type has a label
-- too: it is the default here since the type has three bits.
unfoldable pub shr_group : (type count : ℕ) → M Status
shr_group type count = do
  switch type
      ((0, shift_single shift_lls count)
        ∷ (1, shift_single shift_srcs count)
        ∷ (2, shift_double shift_sad count)
        ∷ (3, shift_double shift_lcd count)
        ∷ (4, shift_single shift_slcs count)
        ∷ (5, shift_single shift_sas count)
        ∷ (6, shift_single shift_rls count)
        ∷ [])
      (shift_double shift_rcd count)
  load_codes_a

-- The switch over the types of SHC; `other` is what type 1 does, which is DITR except under DL.
unfoldable pub shc_group : (type count : ℕ) → M Status → M Status
shc_group type count other =
    switch type
      ((0, (do shift_double shift_lld count; load_codes_a))
        ∷ (1, other)
        ∷ (2, (do compute_parity count; pure scpe_ok))
        ∷ (4, (do shift_double shift_rld count; load_codes_a))
        ∷ (6, (do normalize count; pure scpe_ok))
        ∷ [])
      load_codes_a

-- DITR, which only a master program may use.
unfoldable pub ditr : Bool → M Status
ditr mode = if mode then (do mitra_interrupt_return; load_codes_a) else pure mm_prvins

unfoldable pub shift_instr : (inst : ℕ) (mode : Bool) (target_address : ℕ) → M Status
shift_instr inst mode target_address =
    switch (opcode inst)
      ((
        0x3c,
        (do word ← read_word target_address; shc_group (word / 32 % 8) (word % 32) load_codes_a),
      )
        ∷ (0xec, shc_group (target_address / 32 % 8) (target_address % 32) (ditr mode))
        ∷ (0xfc, shc_group (disp inst / 32 % 8) (disp inst % 32) (ditr mode))
        ∷ [])
      (pure (code trap_ii))

-- The shift word is in memory.
unfoldable pub group_3_shift_dl : (inst : ℕ) (mode : Bool) → M Status
group_3_shift_dl inst mode = do
  s ← get
  switch (opcode inst)
      ((
        0x30,
        (do
          shr_word ← read_word ((s.reg reg_l + disp inst) % 65536)
          shr_group (shr_word / 32 % 8) (shr_word % 32)),
      )
        ∷ (0x31, set_register inst mode)
        ∷ [])
      (pure scpe_ok)

-- The shift word is the displacement plus X.
unfoldable pub group_3_shift_px : (inst : ℕ) (mode : Bool) → M Status
group_3_shift_px inst mode = do
  s ← get
  let param = (disp inst + s.reg reg_x) % 256
  switch (opcode inst)
      ((0xe0, shr_group (param / 32 % 8) (param % 32)) ∷ (0xe1, set_register inst mode) ∷ [])
      (pure scpe_ok)

-- The shift word is the displacement.
unfoldable pub group_3_shift_p : (inst : ℕ) (mode : Bool) → M Status
group_3_shift_p inst mode =
    switch (opcode inst)
      ((0xf0, shr_group (disp inst / 32 % 8) (disp inst % 32))
        ∷ (0xf1, set_register inst mode)
        ∷ [])
      (pure scpe_ok)
