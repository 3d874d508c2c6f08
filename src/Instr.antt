-- ===== src/Instr.antt =====
-- Mitra/mitra_instr_utils.c and Mitra/mitra_instr.c: the instructions.
pub mod Registers
pub mod Shifts
pub mod Load
pub mod Store
pub mod Section
pub mod Float
pub mod System
