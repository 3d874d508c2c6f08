-- ===== src/Instr/Store.antt =====
-- `Reg_OP_Mem_To_Mem` and `string_proc`: the instructions that write memory.
pub mod Strings
use mitra_15_for_simh.Prelude.{
  ℕ, zero, suc, ◌+◌, ◌-◌, ◌*◌, ◌/◌, ◌%◌, bit_and, bit_or, [], ◌∷◌, ◌==◌, if◌then◌else◌, switch,
}
use mitra_15_for_simh.State.{reg_a, reg_e, reg_x, reg_g, reg_p}
use mitra_15_for_simh.Run.{M, ◌>>=◌, ◌>>◌, pure, get, ◌≔◌}
use mitra_15_for_simh.Memory.{read_word, write_word, read_byte, write_byte, trap_ii}
use mitra_15_for_simh.Alu.{set_condition_codes_load, set_condition_codes_arithmetic, add16}
use mitra_15_for_simh.Status.{Status, scpe_ok, mm_invins, code}
use mitra_15_for_simh.Deroute.{g_prime}

-- The loop of TRS: the byte at `base + i` is replaced by its entry in the table.
unfoldable pub trs_loop : (left table base i : ℕ) → M (Unit {0})
trs_loop zero table base i = pure tt
trs_loop (suc left) table base i =
    let rest = trs_loop left table base (i + 1) in
    do b ← read_byte (base + i); t ← read_byte (table + b); write_byte (base + i) t; rest

-- The loop of MVS in `Reg_OP_Mem_To_Mem`, upwards.
unfoldable pub mvs_up_loop : (left source target i : ℕ) → M (Unit {0})
mvs_up_loop zero source target i = pure tt
mvs_up_loop (suc left) source target i =
    let rest = mvs_up_loop left source target (i + 1) in
    do b ← read_byte (source + i); write_byte (target + i) b; rest

-- The loop of MVS in `string_proc`: `alpha` from the length less 1 down to 0.
unfoldable pub mvs_loop : (length source target : ℕ) → M (Unit {0})
mvs_loop zero source target = pure tt
mvs_loop (suc alpha) source target =
    let rest = mvs_loop alpha source target in
    do b_moved ← read_byte (source + alpha); write_byte (target + alpha) b_moved; rest

unfoldable pub string_proc : (inst target_address : ℕ) → M Status
unfolding mvs_loop
string_proc inst target_address = do
  s ← get
  if inst / 256 % 32 == 0x1f
      then (do
        mvs_loop (s.reg reg_e) (s.reg reg_g + s.reg reg_a) target_address
        reg_e ≔ 65535
        pure scpe_ok)
      else pure (code trap_ii)

-- SBL and SBR: one byte of A replaces one byte of the word.
unfoldable pub sbl : ℕ → M Status
sbl target_address = do
  s ← get
  d ← read_word target_address
  write_word target_address (d % 256 + s.reg reg_a / 256 * 256)
  pure scpe_ok

unfoldable pub sbr : ℕ → M Status
sbr target_address = do
  s ← get
  d ← read_word target_address
  write_word target_address (d / 256 * 256 + s.reg reg_a % 256)
  pure scpe_ok

unfoldable pub adm : ℕ → M Status
adm target_address = do
  d ← read_word target_address
  s ← get
  let r = add16 d (s.reg reg_a) 0
  write_word target_address r.result
  reg_a ≔ r.result
  set_condition_codes_arithmetic r.result r.carry r.overflow
  pure scpe_ok

-- P is already two ahead.
unfoldable pub spa : ℕ → M Status
spa target_address = do
  s ← get
  write_word target_address ((s.reg reg_p + 4 - 2 + g_prime s) % 65536)
  pure scpe_ok

-- The bits of A that E selects.
unfoldable pub sts : ℕ → M Status
sts target_address = do
  d ← read_word target_address
  s ← get
  let r = bit_or (bit_and d (65535 - s.reg reg_e)) (bit_and (s.reg reg_a) (s.reg reg_e))
  write_word target_address r
  set_condition_codes_load r
  pure scpe_ok

unfoldable pub trs : ℕ → M Status
unfolding trs_loop
trs target_address = do
  s ← get
  trs_loop (s.reg reg_e) target_address (s.reg reg_a + s.reg reg_g) 0
  reg_e ≔ 0
  pure scpe_ok

unfoldable pub mvs_up : ℕ → M Status
unfolding mvs_up_loop
mvs_up target_address = do
  s ← get
  if s.flags.extins
      then (do
        mvs_up_loop (s.reg reg_e) (s.reg reg_g + s.reg reg_a) target_address 0
        reg_e ≔ 65535
        pure scpe_ok)
      else pure mm_invins

unfoldable pub store_word : (target_address val : ℕ) → M Status
store_word target_address val = do write_word target_address val; pure scpe_ok

unfoldable pub dst : ℕ → M Status
dst target_address = do
  s ← get
  write_word target_address (s.reg reg_e)
  write_word ((target_address + 2) % 65536) (s.reg reg_a)
  pure scpe_ok

unfoldable pub reg_op_mem_to_mem : (inst target_address : ℕ) → M Status
reg_op_mem_to_mem inst target_address = do
  s ← get
  switch (inst / 256 % 16)
      ((0x01, store_word target_address (s.reg reg_a))
        ∷ (0x02, store_word target_address (s.reg reg_e))
        ∷ (0x03, store_word target_address (s.reg reg_x))
        ∷ (0x04, sbl target_address)
        ∷ (0x05, sbr target_address)
        ∷ (0x06, dst target_address)
        ∷ (0x07, adm target_address)
        ∷ (0x08, spa target_address)
        ∷ (0x09, sts target_address)
        ∷ (0x0e, trs target_address)
        ∷ (0x0f, mvs_up target_address)
        ∷ [])
      (pure (code trap_ii))
