-- ===== src/Tests/Supervisor.antt =====
-- Traps, interrupts and suspensions on the sample processor.
use mitra_15_for_simh.Prelude.{ℕ, ◌<◌, ◌≡◌, refl, true, false, arith, ◌==◌, if◌then◌else◌}
use mitra_15_for_simh.State.{CpuState, Reg, Indicators}
use mitra_15_for_simh.Run.Steps.{Returns}
use mitra_15_for_simh.Status.{scpe_ok}
use mitra_15_for_simh.Deroute.{
  indicators_of, set_indicators, indicator_word, mitra_trap, save_context, mitra_resolve_trap_cause,
  context_words,
}
use mitra_15_for_simh.Deroute.IndicatorWord.{indicators_of-set_indicators}
use mitra_15_for_simh.Deroute.Priority.{IsFirst, mitra_resolve_trap_cause-IsFirst}
use mitra_15_for_simh.Deroute.Interrupt.{load_level}
use mitra_15_for_simh.Deroute.Context.{
  HoldsContext, IsRestored, IsWide, save_context-HoldsContext, load_level-IsRestored,
}
use mitra_15_for_simh.Deroute.Trap.{IsTrapped, mitra_trap-IsTrapped}
use mitra_15_for_simh.Deroute.Suspension.{mitra_suspension_process, pushed}
use mitra_15_for_simh.Deroute.Suspension.Service.{
  IsMostUrgent, IsService, mitra_suspension_process-IsService,
}
use mitra_15_for_simh.State.{reg_p, reg_l}
use mitra_15_for_simh.Deroute.Context.{AreWritable}
use mitra_15_for_simh.Deroute.Interrupt.{mitra_interrupt_accept}
use mitra_15_for_simh.Deroute.Interrupt.Acceptance.{
  IsLinked, IsAccepted, switched, mitra_interrupt_accept-IsAccepted,
}
use mitra_15_for_simh.Instr.Registers.{rsv}
use mitra_15_for_simh.Instr.Section.{csv_instr}
use mitra_15_for_simh.Instr.Section.Supervisor.{
  HoldsCaller, IsServing, csv_instr-IsServing, rsv-HoldsCaller,
}
use mitra_15_for_simh.Tests.Samples.{slave, sample_reg}

abbrev shown : Indicators
shown = record { c = 1; ov = 0; ms = false; ma = true; pr = true }

indicators_of-set_indicators_example :
    (indicators_of (set_indicators shown) ≡ shown) × (set_indicators shown ≡ indicator_word shown)
indicators_of-set_indicators_example =
    indicators_of-set_indicators shown (omega arith) (omega arith)

mitra_resolve_trap_cause-IsFirst_example :
    IsFirst (slave.trp_req_bits) (mitra_resolve_trap_cause (slave.trp_req_bits))
mitra_resolve_trap_cause-IsFirst_example = mitra_resolve_trap_cause-IsFirst (slave.trp_req_bits)

mitra_trap-IsTrapped_example : Returns (mitra_trap 4 0x102 slave) scpe_ok (IsTrapped 4 0x102 slave)
mitra_trap-IsTrapped_example =
    mitra_trap-IsTrapped 4 0x102 slave refl refl refl refl refl (omega arith)

nine-IsMostUrgent : IsMostUrgent 9 slave
nine-IsMostUrgent = record {
  inside = omega arith;
  requested = refl;
  none_above = λ k above below. ground arith;
}

mitra_suspension_process-IsService_example :
    Returns (mitra_suspension_process slave) scpe_ok (IsService 9 slave (pushed slave))
mitra_suspension_process-IsService_example =
    mitra_suspension_process-IsService 9 slave refl (omega arith) nine-IsMostUrgent

both : (false ≡ false) × (false ≡ false)
both = (refl, refl)

save_context-HoldsContext_example : Returns (save_context 0x700 slave) tt (HoldsContext 0x700 slave)
unfolding context_words
save_context-HoldsContext_example =
    save_context-HoldsContext 0x700 slave (both, (both, (both, (both, (both, (both, (both, tt)))))))

-- The context of the sample processor lies at byte 0x700.
abbrev context_mem : ℕ → ℕ
context_mem i =
    if i == 0x380
    then 0x800
    else if i == 0x381
    then 4
    else if i == 0x382
    then 3
    else if i == 0x383
    then 0x1234
    else if i == 0x384
    then 0x300
    else if i == 0x385
    then 0x200
    else if i == 0x386
    then 0x102
    else 0

abbrev interrupted : CpuState
interrupted = record slave { mem = context_mem; reg = λ r. 0 }

sample-HoldsContext : HoldsContext 0x700 slave interrupted
unfolding indicator_word
sample-HoldsContext = record {
  word_0 = refl;
  word_1 = refl;
  word_2 = refl;
  word_3 = refl;
  word_4 = refl;
  word_5 = refl;
  word_6 = refl;
}

reg_lt : (r : Reg) → sample_reg r < 65536
reg_lt r = ground arith

slave-IsWide : IsWide slave
slave-IsWide = record { words = reg_lt; carry = omega arith; overflow = omega arith }

load_level-IsRestored_example : Returns (load_level 0x700 interrupted) scpe_ok (IsRestored slave)
load_level-IsRestored_example =
    load_level-IsRestored 0x700 slave interrupted refl slave-IsWide sample-HoldsContext

-- The CPT is at byte 0x900: level 0 has its area at 0x700, and level 5 at 0x800.
abbrev cpt_mem : ℕ → ℕ
cpt_mem i =
    if i == 5
    then 0x900
    else if i == 0x480
    then 0x700
    else if i == 0x485
    then 0x800
    else if i == 7
    then 2
    else 0

abbrev ready : CpuState
ready = record slave { mem = cpt_mem }

from-IsLinked : IsLinked 0 0x700 ready
from-IsLinked = record {
  known = omega arith;
  table = omega arith;
  table_even = refl;
  entry = refl;
  set = ground arith;
  inside = omega arith;
}

to-IsLinked : IsLinked 5 0x800 (switched 5 0x700 ready)
unfolding context_words
to-IsLinked = record {
  known = omega arith;
  table = omega arith;
  table_even = refl;
  entry = refl;
  set = ground arith;
  inside = omega arith;
}

free_area : AreWritable ready (context_words 0x700 ready)
unfolding context_words
free_area = (both, (both, (both, (both, (both, (both, (both, tt)))))))

mitra_interrupt_accept-IsAccepted_example :
    Returns (mitra_interrupt_accept 5 ready) scpe_ok (IsAccepted 5 0x700 0x800 ready)
mitra_interrupt_accept-IsAccepted_example =
    mitra_interrupt_accept-IsAccepted 5 0x700 0x800 ready refl refl (omega arith) refl from-IsLinked
      free_area to-IsLinked refl

-- A call of section 1 of the supervisor by the sample program, whose G is 0x300.
csv_instr-IsServing_example : Returns (csv_instr 1 ready) tt (IsServing 1 ready)
csv_instr-IsServing_example =
    csv_instr-IsServing 1 ready refl refl (omega arith) (omega arith) refl refl refl refl

abbrev service : CpuState
service = record slave {
  mem =
      λ i. if i == 384 then 0xfe00 else if i == 385 then 0xff00 else if i == 386 then 0x800 else 0;
}

service-HoldsCaller : HoldsCaller slave service
unfolding set_indicators
service-HoldsCaller = record { base = refl; saved_p = refl; saved_l = refl; saved_ind = refl }

rsv-HoldsCaller_example :
    Returns
      (rsv service)
      scpe_ok
      λ u. (u.reg reg_p ≡ 0x102) × ((u.reg reg_l ≡ 0x200) × (u.ind ≡ slave.ind))
rsv-HoldsCaller_example =
    rsv-HoldsCaller slave service refl slave-IsWide (omega arith) (omega arith) service-HoldsCaller
