-- ===== src/Lib.antt =====
-- Models and theorems for the simulator of the Mitra 15 computer: the processor, its memory, its
-- traps, interrupts and suspensions, its console commands and its devices, as the C files below
-- Mitra/ write them; and for the disassembler, Disassembler/disassembler_v7.c.
--
-- The processor executes one 16-bit instruction after the other over a state of registers,
-- indicators, request bits and 32768 words of memory. `sim_instr` takes a pending trap, then
-- processes a suspension, then accepts an interrupt of a higher level or fetches an instruction;
-- `one_inst` refuses privileged instructions in slave mode, decodes the rest into groups by
-- addressing mode, and takes a trap that the instruction has requested. The groups compute an
-- effective address and call the functions that load, store, shift, call sections, or manage the
-- machine; all of them go to memory through `read_word` and `write_word`.
--
-- The modules, each with the code it models:
--   Prelude: names of the libraries, tests on numbers, casts, the `switch` statement.
--   State: `CPU_STATE` and the globals, Mitra/mitra_cpu.h and Mitra/mitra_cpu.c.
--   Run: programs over the state, and what they keep (Run/Keeps) or return (Run/Steps).
--   Status: the codes that functions return, Mitra/mitra_defs.h.
--   Memory: `read_word`, `write_word`, `read_byte`, `write_byte` of Mitra/mitra_cpu.c;
--     Memory/Refinement, sequences of them against an array of bytes.
--   Alu: condition codes, `add16`, `sub16`, `mul32`, `div32` of Mitra/mitra_instr_utils.c.
--   Shift: the ten shifts and the loops of `normalize` and `compute_parity` of the same file.
--   Deroute: Mitra/mitra_deroute.c, traps and the saved contexts; Deroute/Interrupt, acceptance,
--     return and boot; Deroute/Suspension, the suspension stack, and its processing until no
--     request is left (Deroute/Suspension/Drain);
--     Deroute/Suspension/Service, the service of the most urgent level.
--   Host: the doubles of the host and the table of device handlers, as a parameter.
--   Instr: the instructions of Mitra/mitra_instr_utils.c, one module for registers, shifts, loads,
--     stores, section calls, floating point, and locks with input and output (`io_rwd` of
--     Mitra/mitra_RD_WD.c).
--   Decode: the groups of Mitra/mitra_instr.c; Decode/Branch: groups 4 and 5.
--   Cpu: `one_inst` and a round of the loop of `sim_instr`; Cpu/Stable and Cpu/Privilege,
--     predicates on states against every instruction; Cpu/Invariant, a predicate that rounds
--     keep, and the states that the simulator reaches.
--   Console: `cpu_reset`, `cpu_ex`, `cpu_dep` and `cpu_set_size` of Mitra/mitra_cpu.c;
--     Console/History, the history of instructions.
--   Device: the table of handlers and the dispatch of interrupts, Mitra/mitra_io.c
--     (Device/Table, with its success in Device/Table/Wiring and its failure in
--     Device/Table/Conflict), and one module for each device: Teletype (Mitra/IO_asr33.c),
--     CardReader (Mitra/IO_card_reader.c), Dri (Mitra/IO_DRI_fix_disk.c), Tape
--     (Mitra/IO_punched_tape.c), Printer (Mitra/IO_printer.c), Sagem
--     (Mitra/IO_sagem_fix_disk.c, which the makefile leaves out) and Panel
--     (Mitra/IO_front_panel.c). Device/File stands for the files of the host, Device/Registers
--     for the registers that devices have at odd addresses.
--   Disassembler: Disassembler/disassembler_v7.c, which reads an image of memory and classifies its
--     words. Insn, Decode and Operand: the decoding of a word; Image: the options and the arrays; Load:
--     raw files; Text: runs of text (`find_text_candidates`); Tables: the PRT, the PRTS, the CPT
--     and the entries of modules; Flow: the trace of control flow, with its end in Flow/Ends, its
--     result in Flow/Traced, and the branches of the processor against it in Flow/Simulated;
--     Annotations; Refs: references and data; Routine: the roles of routines; Analysis: the passes in their order.
--   Tests: a sample processor, and the theorems applied to it.
--
-- A function of the source is a program `M A`: it takes the state to a result and a state, or to
-- `exited` where the source calls `exit`, or to `undefined` where it reads or writes an array out of
-- its bounds. A word is a number; assignments to a register cut it to 16 bits, and casts and masks
-- are written out. Function names are those of the source in lower case.
--
-- Loops are recursions over the number of rounds that the source counts (a shift count, the length
-- in E, the 31 rounds of `normalize`, the 32 levels of a scan), so no fuel can run out. The
-- trace of the disassembler takes a round for each word of its work list; 32768 rounds are enough,
-- since a word is pushed once. A round of
-- `sim_instr` is one step; the loop around it does not end by itself and is not modelled.
--
-- A device is a program that takes the state of the device with that of the processor and returns
-- both: `D A` is `Device → M (A × Device)` in each of the modules. What a device meets at a poll, a
-- key that is typed or the next bytes of a file, is an argument or a part of its state. What a
-- device does on RD and WD in a round of the processor is the parameter `dio_disp` of the host, and
-- doubles are the host's. Nothing in the program calls `cdr_poll`, `dri_poll_devices`,
-- `dri_start_transfer` or `inst_hist`; they are modelled as they stand.
--
-- The arrays of the disassembler are functions of the index. Where it can access one of 32768
-- entries out of its bounds (`wl_push`, `classify_roots` and the search for the PRTS), the model
-- sets the field `escaped` of the image, and what the arrays hold from then on is not said.
--
-- Not modelled: the output of `sim_printf`, the event queue and its delays, breakpoints and stop
-- requests of SIMH, failures of attachment, of `fwrite` and, in the disks, of `fseek`, the copy that
-- the teletype makes of its output in an attached file, and clock, loading and symbolic
-- printing, which are input and output for the host. The assembler is a
-- program in Python. Of the disassembler, hexadecimal files, names, the text of profiles, the
-- reading of annotations and options and all that is printed are left out; its older versions are
-- not modelled.
pub mod Prelude
pub mod State
pub mod Run
pub mod Memory
pub mod Alu
pub mod Shift
pub mod Status
pub mod Deroute
pub mod Host
pub mod Instr
pub mod Decode
pub mod Cpu
pub mod Console
pub mod Device
pub mod Disassembler
pub mod Tests
