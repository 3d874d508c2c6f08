-- ===== src/Decode/Branch.antt =====
-- The branches: groups C (relative) and D (indirect) of Mitra/mitra_instr.c.
use mitra_15_for_simh.Prelude.{
  ℕ, ◌+◌, ◌-◌, ◌*◌, ◌/◌, ◌%◌, Bool, true, not, [], ◌∷◌, ◌==◌, if◌then◌else◌, switch,
}
use mitra_15_for_simh.State.{CpuState, reg_p, reg_l, reg_g, reg_a, reg_x}
use mitra_15_for_simh.Run.{M, ◌>>=◌, ◌>>◌, pure, get, ◌≔◌}
use mitra_15_for_simh.Memory.{read_word}
use mitra_15_for_simh.Alu.{sign}
use mitra_15_for_simh.Status.{Status, scpe_ok}
use mitra_15_for_simh.Deroute.{g_prime}
use mitra_15_for_simh.Instr.Registers.{disp}

-- The test of a branch by the low three bits of its opcode: BCT, BOT, BCF, BAN, BAZ, BOF and BRU.
-- The second, BRX, has an address of its own.
unfoldable pub branch_taken : ℕ → CpuState → Bool
unfolding switch
branch_taken op s =
    switch op
      ((0, not (s.ind.c == 0))
        ∷ (2, not (s.ind.ov == 0))
        ∷ (3, s.ind.c == 0)
        ∷ (4, sign (s.reg reg_a) == 1)
        ∷ (5, s.reg reg_a == 0)
        ∷ (6, s.ind.ov == 0)
        ∷ [])
      true

-- A branch other than BRX to a target.
unfoldable pub branch_to : (inst target_address : ℕ) → M Status
unfolding branch_taken
branch_to inst target_address = do
  s ← get
  if branch_taken (inst / 256 % 8) s
      then (do reg_p ≔ target_address; pure scpe_ok)
      else pure scpe_ok

-- `(P - 2) + 2 * disp`, where P is already two ahead.
unfoldable pub group_4_rp : ℕ → M Status
group_4_rp inst = do
  s ← get
  let target_address = (s.reg reg_p + 65536 - 2 + disp inst * 2) % 65536
  if inst / 256 % 8 == 1
      then (do reg_p ≔ target_address + s.reg reg_x * 2; pure scpe_ok)
      else branch_to inst target_address

-- `(P - 2) - 2 * disp`.
unfoldable pub group_4_rm : ℕ → M Status
group_4_rm inst = do
  s ← get
  let target_address = (s.reg reg_p + 65536 - 2 - disp inst * 2) % 65536
  if inst / 256 % 8 == 1
      then (do reg_p ≔ s.reg reg_p + 3 * 65536 - disp inst * 2 - s.reg reg_x * 2 - 2; pure scpe_ok)
      else branch_to inst target_address

-- The pointer is read before the test, also for BRX, which then reads its own.
unfoldable pub branch_indirect : (base inst : ℕ) → M Status
branch_indirect base inst = do
  s ← get
  tmp ← read_word (base + disp inst)
  if inst / 256 % 8 == 1
      then (do
        ind_pointer ← read_word (base + s.reg reg_x + disp inst)
        reg_p ≔ g_prime s + ind_pointer
        pure scpe_ok)
      else branch_to inst ((g_prime s + tmp) % 65536)

unfoldable pub group_5_il : ℕ → M Status
group_5_il inst = do s ← get; branch_indirect (s.reg reg_l) inst

unfoldable pub group_5_ig : ℕ → M Status
group_5_ig inst = do s ← get; branch_indirect (s.reg reg_g) inst
