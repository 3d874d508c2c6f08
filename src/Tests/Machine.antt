-- ===== src/Tests/Machine.antt =====
-- Memory, traps and section calls on the sample processor.
use mitra_15_for_simh.Prelude.{◌≡◌, refl, arith, ◌==◌, if◌then◌else◌}
use mitra_15_for_simh.State.{CpuState, reg_p, reg_l, reg_g}
use mitra_15_for_simh.Run.{done, ◌>>◌}
use mitra_15_for_simh.Run.Keeps.{Ends}
use mitra_15_for_simh.Run.Steps.{Returns}
use mitra_15_for_simh.Memory.{read_word, write_word, read_byte, write_byte}
use mitra_15_for_simh.Memory.Laws.{stored, read_word-write_word}
use mitra_15_for_simh.Memory.Bytes.{read_byte-write_byte}
use mitra_15_for_simh.Status.{scpe_ok}
use mitra_15_for_simh.Instr.Registers.{rts}
use mitra_15_for_simh.Instr.Section.{call_section}
use mitra_15_for_simh.Instr.Section.Calls.{
  IsEntered, HoldsReturn, call_section-IsEntered, rts-HoldsReturn,
}
use mitra_15_for_simh.Cpu.{one_inst}
use mitra_15_for_simh.Cpu.Stable.Slave.{is_csv}
use mitra_15_for_simh.Cpu.Privilege.{one_inst-IsContained}
use mitra_15_for_simh.Cpu.Privilege.Trap.{IsContained}
use mitra_15_for_simh.Instr.Store.{mvs_up_loop, mvs_loop}
use mitra_15_for_simh.Instr.Store.Strings.{
  IsMovable, IsMoved, mvs_up_loop-IsMoved, mvs_loop-IsMoved,
}
use mitra_15_for_simh.Instr.Load.Search.{Finds, cps_loop-Finds}
use mitra_15_for_simh.Tests.Samples.{slave, sample_host}

-- A store of A in local word 4.
one_inst-IsContained_example : Ends (IsContained slave) (one_inst sample_host 0x3404 0x102 slave)
unfolding is_csv
one_inst-IsContained_example = one_inst-IsContained sample_host 0x3404 0x102 slave refl refl

read_word-write_word_example :
    (write_word 0x80 0x12345 >> read_word 0x80) slave ≡ done 0x2345 (stored 64 0x12345 slave)
read_word-write_word_example = read_word-write_word 0x80 0x80 0x12345 slave refl refl refl

read_byte-write_byte_example :
    (write_byte 0x41 0x7f >> read_byte 0x40) slave ≡ done 5 (stored 32 0x57f slave)
read_byte-write_byte_example = read_byte-write_byte 0x41 0x40 0x7f slave refl (omega arith)

-- The table lies below G, 0x300: section 0 has its LDS at 0x300 in an empty memory.
call_section-IsEntered_example : Returns (call_section 0 slave) tt (IsEntered 0 slave)
call_section-IsEntered_example = call_section-IsEntered 0 slave refl refl refl refl

-- The processor in the called section.
abbrev called : CpuState
called = record slave {
  reg = λ r. elim r [ reg_l ↦ 0x400 | reg_g ↦ 0x300 | _ ↦ 0 ];
  mem = λ i. if i == 512 then 0xfe00 else if i == 513 then 0xff00 else 0;
}

called-HoldsReturn : HoldsReturn slave called
called-HoldsReturn = record {
  even = refl;
  saved_p = refl;
  saved_l = refl;
  base = refl;
  mode = refl;
}

rts-HoldsReturn_example :
    Returns (rts called) scpe_ok λ u. (u.reg reg_p ≡ 0x102) × (u.reg reg_l ≡ 0x200)
rts-HoldsReturn_example =
    rts-HoldsReturn slave called (omega arith) (omega arith) (omega arith) called-HoldsReturn

-- Two bytes are moved from byte 0x40 to byte 0x100.
slave-IsMovable : IsMovable 2 0x40 0x100 0 slave
slave-IsMovable = record {
  words = λ k. ground arith;
  free = λ k from to. ground arith;
  apart = λ j k from to from' to' e. omega arith;
  length = omega arith;
}

mvs_up_loop-IsMoved_example :
    Returns (mvs_up_loop 2 0x40 0x100 0 slave) tt (IsMoved 2 0x40 0x100 0 slave)
mvs_up_loop-IsMoved_example = mvs_up_loop-IsMoved 2 0x40 0x100 0 slave slave-IsMovable

-- The string at byte 0x40 is 05 00 06 00.
cps_loop-Finds_example : Finds 4 6 0x40 0 0 slave
cps_loop-Finds_example = cps_loop-Finds 4 6 0x40 0 0 slave

mvs_loop-IsMoved_example : Returns (mvs_loop 2 0x40 0x100 slave) tt (IsMoved 2 0x40 0x100 0 slave)
mvs_loop-IsMoved_example = mvs_loop-IsMoved 2 0x40 0x100 slave slave-IsMovable
