-- ===== src/Disassembler.antt =====
-- Disassembler/disassembler_v7.c: the analysis of an image of memory, up to the printing of its listing.
pub mod Insn
pub mod Decode
pub mod Image
pub mod Ebcdic
pub mod Operand
pub mod Text
pub mod Flow
pub mod Tables
pub mod Annotations
pub mod Load
pub mod Refs
pub mod Routine
pub mod Analysis
