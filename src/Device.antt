-- ===== src/Device.antt =====
-- The devices of Mitra/mitra_io.c and of the files Mitra/IO_….c.
pub mod Table
pub mod Request
pub mod File
pub mod Teletype
pub mod CardReader
pub mod Dri
pub mod Printer
pub mod Tape
pub mod Sagem
pub mod Panel
pub mod Registers
