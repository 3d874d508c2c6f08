-- ===== src/Device/Registers.antt =====
-- Mitra/IO_printer.c, IO_punched_tape.c, IO_sagem_fix_disk.c and IO_DRI_fix_disk.c: the programs that
-- read or write a register of their device at an odd address.
use mitra_15_for_simh.Device.Printer.{Printer}
use mitra_15_for_simh.Device.Tape.{Tape}
use mitra_15_for_simh.Device.Sagem.{Sagem}
use mitra_15_for_simh.Device.Dri.{Dri}
