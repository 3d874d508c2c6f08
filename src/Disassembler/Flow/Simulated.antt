-- ===== src/Disassembler/Flow/Simulated.antt =====
-- The relative branches of Mitra/mitra_instr.c go where the trace of Disassembler/disassembler_v7.c
-- expects them.
use mathlib.Core.Path.{subst}
use mitra_15_for_simh.Prelude.{
  ℕ, ◌+◌, ◌-◌, ◌*◌, ◌/◌, ◌%◌, ◌<◌, ◌≡◌, ◌⊎◌, inl, inr, refl, Bool, false, ◌==◌, Bool-cases,
  if◌then◌else◌, arith, switch,
}
use mitra_15_for_simh.State.{CpuState, reg_p, set_reg}
use mitra_15_for_simh.Run.{done, ◌>>=◌, ◌>>◌, pure, get, ◌≔◌}
use mitra_15_for_simh.Status.{scpe_ok}
use mitra_15_for_simh.Host.{Host}
use mitra_15_for_simh.Decode.{dispatch}
use mitra_15_for_simh.Decode.Branch.{branch_taken, branch_to, group_4_rp, group_4_rm}
use mitra_15_for_simh.Disassembler.Image.{Options, Image, max_mem_words, idx}
use mitra_15_for_simh.Disassembler.Flow.Reached.{FollowsTo}
use mitra_15_for_simh.Disassembler.Flow.Branch.{
  HasDefaults, IsRelative, target, to_target-FollowsTo, past_it-FollowsTo,
}

-- The address that the processor computes is that of the listing.
abbrev simulated_target : (p inst : ℕ) → ℕ
simulated_target p inst =
    if inst / 2048 % 2 == 1
    then (p + 65536 - 2 - inst % 256 * 2) % 65536
    else (p + 65536 - 2 + inst % 256 * 2) % 65536

target-simulated : (w p inst : ℕ) → p ≡ w * 2 + 2 → simulated_target p inst % 65536 ≡ target w inst
target-simulated w p inst h = ground arith

half-cases : (n : ℕ) → (n % 2 ≡ 0) ⊎ (n % 2 ≡ 1)
half-cases n = elim (Bool-cases (n % 2 == 0)) [
  | inl e ↦ inl (ground arith)
  | inr e ↦ inr (ground arith)
]

relative-dispatch :
    (host : Host) (inst : ℕ) (mode : Bool) (s : CpuState)
    → IsRelative inst
    → dispatch host inst mode s ≡ branch_to inst (simulated_target (s.reg reg_p) inst) s
unfolding dispatch switch group_4_rp group_4_rm ◌>>=◌ get pure
relative-dispatch host inst mode s r =
    let digit : inst / 4096 % 16 ≡ 12 = omega (arith, r.digit) in
    elim (half-cases (inst / 2048)) [
      | inl on ↦ rw (digit, on, r.no_brx) refl
      | inr back ↦ rw (digit, back, r.no_brx) refl
    ]

not_taken-op : (op : ℕ) (s : CpuState) → branch_taken op s ≡ false → (op == 7) ≡ false
unfolding branch_taken switch
not_taken-op op s h = elim (Bool-cases (op == 7)) [ inl e ↦ absurd (ground (arith, h)) | inr e ↦ e ]

branch_to-FollowsTo :
    (opts : Options) (img : Image) (w : ℕ) (s : CpuState)
    → HasDefaults opts
    → IsRelative (img.word w)
    → w + 1 < max_mem_words
    → s.reg reg_p ≡ w * 2 + 2
    → (t : CpuState) × (branch_to (img.word w) (simulated_target (s.reg reg_p) (img.word w)) s
        ≡ done scpe_ok t)
      × FollowsTo opts img w (idx (t.reg reg_p))
unfolding branch_to ◌>>=◌ get pure ◌>>◌ ◌≔◌ set_reg
branch_to-FollowsTo opts img w s d r room p =
    elim (Bool-cases (branch_taken (img.word w / 256 % 8) s)) [
      | inl taken ↦ (
        set_reg reg_p (simulated_target (s.reg reg_p) (img.word w)) s,
        rw taken refl,
        rw (target-simulated w (s.reg reg_p) (img.word w) p) (to_target-FollowsTo opts img w d r),
      )
      | inr not_taken ↦ (
        s,
        rw not_taken refl,
        subst (FollowsTo opts img w) (omega (arith, p))
            (past_it-FollowsTo opts img w d r room (not_taken-op _ s not_taken)),
      )
    ]

-- The simulator and the disassembler agree on relative branches: with the default options, at a
-- word below the last of memory that holds a relative branch other than BRX, the simulator with
-- P two bytes behind the word runs the branch and returns with P at a word that is a successor
-- in the trace, whatever the flags of the trace.
pub relative_branch-FollowsTo :
    (opts : Options) (img : Image) (host : Host) (mode : Bool) (w : ℕ) (s : CpuState)
    → HasDefaults opts
    → IsRelative (img.word w)
    → w + 1 < max_mem_words
    → s.reg reg_p ≡ w * 2 + 2
    → (t : CpuState) × (dispatch host (img.word w) mode s ≡ done scpe_ok t)
      × FollowsTo opts img w (idx (t.reg reg_p))
relative_branch-FollowsTo opts img host mode w s d r room p =
    rw (relative-dispatch host (img.word w) mode s r) (branch_to-FollowsTo opts img w s d r room p)
