-- ===== src/Deroute/Suspension/Laws.antt =====
-- What processing a suspension leaves behind.
use mitra_15_for_simh.Prelude.{◌<◌, ◌≡◌, refl, true, false, leb, arith, ==_refl, if◌then◌else◌}
use mitra_15_for_simh.State.{CpuState, update}
use mitra_15_for_simh.Run.{◌>>=◌, ◌>>◌, get, pure, modify}
use mitra_15_for_simh.Run.Steps.{Returns}
use mitra_15_for_simh.Status.{scpe_ok}
use mitra_15_for_simh.Deroute.Suspension.{
  mitra_suspension_process, pushed, popped, settled, io_suspension_dispatch, chosen_level,
  none_pending,
}

-- What a processed suspension changes: the request of the chosen level is taken and its level is
-- the active one, and the registers, the memory, the indicators and the depth of the stack are as
-- before.
pub record IsServed (s t : CpuState) : Type 0 where
  pub taken : t.susp_req_bits ≡ update s.susp_req_bits (chosen_level s) false
  pub active : t.susp_active_level ≡ chosen_level s
  pub depth : t.susp_stack_ptr ≡ s.susp_stack_ptr
  pub u_reg : t.u ≡ s.u
  pub registers : t.reg ≡ s.reg
  pub memory : t.mem ≡ s.mem
  pub indicators : t.ind ≡ s.ind
  pub pending : t.susp_pending ≡ (if none_pending t.susp_req_bits then false else true)

-- A pending suspension, with room on the four-deep stack, is processed to the end: the request
-- of the chosen level is taken and its level is the active one, the registers, the memory, the
-- indicators, U and the depth of the stack are as before, and the flag of pending suspensions
-- stays set exactly where a request is left.
pub mitra_suspension_process-IsServed :
    (s : CpuState)
    → s.susp_pending ≡ true
    → s.susp_stack_ptr < 4
    → Returns (mitra_suspension_process s) scpe_ok (IsServed s)
unfolding mitra_suspension_process pushed popped settled io_suspension_dispatch ◌>>=◌ ◌>>◌ get pure
    modify
mitra_suspension_process-IsServed s pending room =
    let space : leb 4 (s.susp_stack_ptr) ≡ false = ground arith in
    record {
      final = settled (popped (pushed s));
      returns = simp (pending, space) refl;
      holds = record {
        taken = refl;
        active = refl;
        depth = refl;
        u_reg = simp (==_refl (s.susp_stack_ptr)) refl;
        registers = refl;
        memory = refl;
        indicators = refl;
        pending = simp pending refl;
      };
    }
