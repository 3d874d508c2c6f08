-- ===== src/Deroute/Suspension.antt =====
-- Mitra/mitra_deroute.c, the suspension system: requests and the four-deep stack.
pub mod Laws
pub mod Drain
pub mod Service
use mitra_15_for_simh.Prelude.{
  ℕ, zero, suc, ◌+◌, Bool, true, false, not, ◌||◌, none, some, leb, if◌then◌else◌,
}
use mitra_15_for_simh.State.{CpuState, update}
use mitra_15_for_simh.Run.{M, ◌>>=◌, ◌>>◌, pure, get, modify}
use mitra_15_for_simh.Status.{Status, scpe_ok, scpe_arg}
use mitra_15_for_simh.Deroute.Interrupt.{highest_below}

-- SUSP_STACK_DEPTH.
abbrev pub susp_stack_depth : ℕ
susp_stack_depth = 4

unfoldable pub mitra_suspension_request : ℕ → M Status
unfolding modify
mitra_suspension_request level = if leb 32 level then pure scpe_arg else do
  modify λ s. record s { susp_req_bits = update s.susp_req_bits level true; susp_pending = true }
  pure scpe_ok

-- No device handler is registered: the request is dropped.
unfoldable pub io_suspension_dispatch : ℕ → M (Unit {0})
io_suspension_dispatch level = pure tt

-- The level chosen: the highest requested one, else the one that was active before.
unfoldable pub chosen_level : CpuState → ℕ
unfolding highest_below
chosen_level s = elim (highest_below 32 s.susp_req_bits) [
  | none ↦ s.susp_active_level
  | some level ↦ level
]

-- The microprocessor's state is pushed, and the request taken.
unfoldable pub pushed : CpuState → CpuState
unfolding chosen_level
pushed s = record s {
  susp_active_level = chosen_level s;
  susp_req_bits = update s.susp_req_bits (chosen_level s) false;
  susp_stack =
      update s.susp_stack s.susp_stack_ptr
        (record { u_reg = s.u; j_reg = s.j_reg; saved_bloc = s.j_reg });
  susp_stack_ptr = suc s.susp_stack_ptr;
}

-- The pop at the end, which also takes the block number back.
unfoldable pub popped : CpuState → CpuState
popped s = elim s.susp_stack_ptr as (λ _. CpuState) [
  | zero ↦ s
  | suc k ↦ record s {
    u = (s.susp_stack k).u_reg;
    susp_stack =
        update s.susp_stack k (record (s.susp_stack k) { j_reg = (s.susp_stack k).saved_bloc });
    susp_stack_ptr = k;
  }
]

-- `susp_req_bits == 0`, over the 32 bits of the map.
unfoldable pub none_pending : (ℕ → Bool) → Bool
unfolding highest_below
none_pending bits = elim (highest_below 32 bits) [ none ↦ true | some _ ↦ false ]

unfoldable pub settled : CpuState → CpuState
unfolding none_pending
settled s = record s {
  susp_pending = if none_pending s.susp_req_bits then false else s.susp_pending;
}

unfoldable pub mitra_suspension_process : M Status
mitra_suspension_process = do
  s ← get
  if not s.susp_pending || leb susp_stack_depth s.susp_stack_ptr then pure scpe_ok else do
    modify pushed
    t ← get
    io_suspension_dispatch t.susp_active_level
    modify popped
    modify settled
    pure scpe_ok
