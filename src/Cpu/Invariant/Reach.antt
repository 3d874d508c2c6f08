-- ===== src/Cpu/Invariant/Reach.antt =====
-- The states that the simulator reaches from power-on: rounds of the processor, requests of the
-- devices for interrupts and suspensions, and the reset and deposit commands.
use mitra_15_for_simh.Prelude.{ℕ, ◌≡◌, refl, Bool, true, false, List, Option, leb, arith}
use mitra_15_for_simh.State.{CpuState, UnitFlags}
use mitra_15_for_simh.Run.{M, done, modify}
use mitra_15_for_simh.Run.Keeps.{Ends, Keeps, Keeps->>, Keeps-pure, Keeps-get, Keeps-if}
use mitra_15_for_simh.Status.{Status}
use mitra_15_for_simh.Host.{Host}
use mitra_15_for_simh.Deroute.Suspension.{mitra_suspension_request}
use mitra_15_for_simh.Deroute.Interrupt.{highest_below}
use mitra_15_for_simh.Device.Table.{Dib, io_interrupt_dispatch}
use mitra_15_for_simh.Device.Request.{set_pending, request_interrupt}
use mitra_15_for_simh.Console.{cpu_reset, put_back, clear_j_reg, cpu_dep}
use mitra_15_for_simh.Cpu.{Round, sim_round}
use mitra_15_for_simh.Cpu.Stable.{keeps}
use mitra_15_for_simh.Cpu.Invariant.{Keeps-option}
use mitra_15_for_simh.Cpu.Invariant.Instructions.{AreKept}
use mitra_15_for_simh.Cpu.Invariant.Rounds.{Keeps-sim_round}
use mitra_15_for_simh.Cpu.Invariant.Sound.{IsSound, as_before, store-IsSound}
use mitra_15_for_simh.Cpu.Invariant.Sound.Kept.{IsSound-IsInvariant}

-- The static state before the first reset: all zero.
unfoldable pub power_on : UnitFlags → CpuState
power_on flags = record {
  reg = λ _. 0;
  reg_block = λ _ _. 0;
  ind = record { c = 0; ov = 0; ms = false; ma = false; pr = false };
  u = 0;
  j_reg = 0;
  intrpt_pending = λ _. false;
  curr_int_lvl = 0;
  high_speed = false;
  susp_req_bits = λ _. false;
  susp_active_level = 0;
  susp_pending = false;
  susp_stack = λ _. record { u_reg = 0; j_reg = 0; saved_bloc = 0 };
  susp_stack_ptr = 0;
  trp_req_bits = λ _. false;
  trap_pending = false;
  trap_cause = 0;
  mem = λ _. 0;
  mp = λ _. false;
  flags = flags;
}

module _ (host : Host) (devices : List (Option Dib)) where
  -- One call into the simulator that returns.
  pub data Step : CpuState → CpuState → Type 0 where
    round : {s t : CpuState} (r : Round) → sim_round host s ≡ done r t → Step s t
    suspension :
        {s t : CpuState} (level : ℕ) (st : Status)
        → mitra_suspension_request level s ≡ done st t
        → Step s t
    interrupt : {s t : CpuState} (level : ℕ) → request_interrupt level s ≡ done tt t → Step s t
    reset : {s t : CpuState} (st : Status) → cpu_reset devices s ≡ done st t → Step s t
    deposit :
        {s t : CpuState} (val addr : ℕ) (st : Status) → cpu_dep val addr s ≡ done st t → Step s t

  pub data Reach (flags : UnitFlags) : CpuState → Type 0 where
    start : Reach flags (power_on flags)
    later : {s t : CpuState} → Reach flags s → Step s t → Reach flags t

power_on-IsSound : (flags : UnitFlags) → IsSound (power_on flags)
unfolding power_on
power_on-IsSound flags = record {
  words = λ r. omega arith;
  blocks = λ b n. omega arith;
  memory = λ i. omega arith;
  level = omega arith;
  depth = omega arith;
  traps = λ c lt e. cc;
  suspensions = λ l lt e. cc;
}

Ends-done {ℓ} :
    {A : Type ℓ} {m : M A} {s t : CpuState} {y : A}
    → Keeps IsSound m
    → IsSound s
    → m s ≡ done y t
    → IsSound t
Ends-done {m} {s} {t} {y} k h e = let r : Ends IsSound (done y t) = rw e at (k.keep s h) in r

put_back-Keeps : Keeps IsSound (modify put_back)
unfolding modify put_back
put_back-Keeps = record {
  keep = λ s h. record {
    words = h.words;
    blocks = h.blocks;
    memory = h.memory;
    level = omega arith;
    depth = omega arith;
    traps = λ c lt e. cc;
    suspensions = λ l lt e. cc;
  };
}

open IsSound-IsInvariant use {stable, j_reg}
open stable use {assign}

clear_j_reg-Keeps : Keeps IsSound clear_j_reg
unfolding clear_j_reg
clear_j_reg-Keeps = search (keeps, j_reg) depth 8

reset-Keeps : (devices : List (Option Dib)) → Keeps IsSound (cpu_reset devices)
unfolding cpu_reset
reset-Keeps devices =
    let cleared = clear_j_reg-Keeps in
    let zeroed = put_back-Keeps in search (keeps, assign) depth 24

deposit-Keeps : (val addr : ℕ) → Keeps IsSound (cpu_dep val addr)
unfolding cpu_dep
deposit-Keeps val addr = search (keeps, store-IsSound) depth 8

suspension-Keeps : (level : ℕ) → Keeps IsSound (mitra_suspension_request level)
unfolding mitra_suspension_request modify
suspension-Keeps level = Keeps-if (leb 32 level) (Keeps-pure _) (
    Keeps->>
      (record {
        keep = λ s h. record {
          words = h.words;
          blocks = h.blocks;
          memory = h.memory;
          level = h.level;
          depth = h.depth;
          traps = h.traps;
          suspensions = λ l lt e. refl;
        };
      })
      (Keeps-pure _))

pending-Keeps : (level : ℕ) → Keeps IsSound (set_pending level)
unfolding set_pending
pending-Keeps level = record {
  keep = λ s h. as_before _ h refl refl refl refl refl refl refl refl refl;
}

speed-Keeps : Keeps IsSound (modify λ s. record s { high_speed = true })
unfolding modify
speed-Keeps = record { keep = λ s h. as_before _ h refl refl refl refl refl refl refl refl refl }

dispatch-Keeps :
    (int_req : ℕ → Bool) (high_speed : Bool)
    → Keeps IsSound (io_interrupt_dispatch int_req high_speed)
unfolding io_interrupt_dispatch
dispatch-Keeps int_req high_speed = Keeps-if high_speed speed-Keeps (
    Keeps-get λ s h.
      Keeps-if s.ind.ma (Keeps-pure _)
        (Keeps-option (highest_below 32 int_req) (Keeps-pure _) λ level e. assign _ _))

interrupt-Keeps : (level : ℕ) → Keeps IsSound (request_interrupt level)
unfolding request_interrupt
interrupt-Keeps level = let pending = pending-Keeps level in search (keeps, dispatch-Keeps) depth 12

Step-IsSound :
    (host : Host) (devices : List (Option Dib)) {s t : CpuState}
    → AreKept IsSound host.dio_disp
    → Step host devices s t
    → IsSound s
    → IsSound t
Step-IsSound host devices kept (round r e) h =
    Ends-done (Keeps-sim_round IsSound-IsInvariant host kept) h e
Step-IsSound host devices kept (suspension level st e) h = Ends-done (suspension-Keeps level) h e
Step-IsSound host devices kept (interrupt level e) h = Ends-done (interrupt-Keeps level) h e
Step-IsSound host devices kept (reset st e) h = Ends-done (reset-Keeps devices) h e
Step-IsSound host devices kept (deposit val addr st e) h = Ends-done (deposit-Keeps val addr) h e

-- Where the handlers of the devices keep the state sound, every state reached from power-on by
-- rounds of the processor, device requests, resets and deposits is sound: its registers,
-- register blocks and memory hold 16-bit words, its interrupt level is below 32, its stack of
-- suspensions is at most four deep, and the flag of pending traps, or of pending suspensions, is
-- set wherever one is requested.
pub Reach-IsSound :
    (host : Host) (devices : List (Option Dib)) (flags : UnitFlags) (s : CpuState)
    → AreKept IsSound host.dio_disp
    → Reach host devices flags s
    → IsSound s
Reach-IsSound host devices flags s kept start = power_on-IsSound flags
Reach-IsSound host devices flags s kept (later r st) =
    Step-IsSound host devices kept st (Reach-IsSound host devices flags _ kept r)
