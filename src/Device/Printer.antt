-- ===== src/Device/Printer.antt =====
-- Mitra/IO_printer.c: the printer. `lp_do_jump` and `lp_putc` have no caller in the source.
use mitra_15_for_simh.Prelude.{
  ℕ, ◌+◌, ◌-◌, ◌/◌, ◌%◌, Bool, true, false, not, ◌&&◌, Option, none, some, List, [], ◌∷◌, ◌==◌, leb,
  if◌then◌else◌, switch,
}
use mitra_15_for_simh.State.{reg_a, reg_e}
use mitra_15_for_simh.Run.{M, ◌>>=◌, ◌>>◌, get, pure, ◌≔◌}
use mitra_15_for_simh.Status.{Status, scpe_ok, scpe_ioerr}
use mitra_15_for_simh.Memory.{read_word}
use mitra_15_for_simh.Device.Table.{io_interrupt_dispatch, read_byte_io}

-- LP_DEV; `output` holds the characters of the file, the last one first.
pub record Printer : Type 0 where
  pub output : Option (List ℕ)
  pub status : ℕ
  pub active : Bool
  pub mem_addr : ℕ
  pub bytes_left : ℕ
  pub format_mode : ℕ
  pub jump_code : ℕ

abbrev pub D : Type 0 → Type 0
D A = Printer → M (A × Printer)

unfoldable pub lp_interrupt : M (Unit {0})
lp_interrupt = io_interrupt_dispatch (λ level. level == 2) false

unfoldable pub ebcdic_to_ascii : ℕ → ℕ
ebcdic_to_ascii ebcdic =
    switch ebcdic
      ((0x20, 0x20)
        ∷ (0x4b, 0x2e)
        ∷ (0x4c, 0x3c)
        ∷ (0x4d, 0x28)
        ∷ (0x4e, 0x2b)
        ∷ (0x4f, 0x7c)
        ∷ (0x50, 0x26)
        ∷ (0x5a, 0x21)
        ∷ (0x5b, 0x24)
        ∷ (0x5c, 0x2a)
        ∷ (0x5d, 0x29)
        ∷ (0x5e, 0x3b)
        ∷ (0x5f, 0x2d)
        ∷ (0x60, 0x2f)
        ∷ (0x61, 0x2c)
        ∷ (0x6a, 0x25)
        ∷ (0x6b, 0x5f)
        ∷ (0x6c, 0x3e)
        ∷ (0x6d, 0x3f)
        ∷ (0x6e, 0x3a)
        ∷ (0x6f, 0x23)
        ∷ (0x79, 0x60)
        ∷ (0x7a, 0x3a)
        ∷ (0x7b, 0x23)
        ∷ (0x7c, 0x40)
        ∷ (0x7d, 0x27)
        ∷ (0x7e, 0x3d)
        ∷ (0x7f, 0x22)
        ∷ (0x81, 0x61)
        ∷ (0x82, 0x62)
        ∷ (0x83, 0x63)
        ∷ (0x84, 0x64)
        ∷ (0x85, 0x65)
        ∷ (0x86, 0x66)
        ∷ (0x87, 0x67)
        ∷ (0x88, 0x68)
        ∷ (0x89, 0x69)
        ∷ (0x91, 0x6a)
        ∷ (0x92, 0x6b)
        ∷ (0x93, 0x6c)
        ∷ (0x94, 0x6d)
        ∷ (0x95, 0x6e)
        ∷ (0x96, 0x6f)
        ∷ (0x97, 0x70)
        ∷ (0x98, 0x71)
        ∷ (0x99, 0x72)
        ∷ (0xa2, 0x73)
        ∷ (0xa3, 0x74)
        ∷ (0xa4, 0x75)
        ∷ (0xa5, 0x76)
        ∷ (0xa6, 0x77)
        ∷ (0xa7, 0x78)
        ∷ (0xa8, 0x79)
        ∷ (0xa9, 0x7a)
        ∷ (0xc1, 0x41)
        ∷ (0xc2, 0x42)
        ∷ (0xc3, 0x43)
        ∷ (0xc4, 0x44)
        ∷ (0xc5, 0x45)
        ∷ (0xc6, 0x46)
        ∷ (0xc7, 0x47)
        ∷ (0xc8, 0x48)
        ∷ (0xc9, 0x49)
        ∷ (0xd1, 0x4a)
        ∷ (0xd2, 0x4b)
        ∷ (0xd3, 0x4c)
        ∷ (0xd4, 0x4d)
        ∷ (0xd5, 0x4e)
        ∷ (0xd6, 0x4f)
        ∷ (0xd7, 0x50)
        ∷ (0xd8, 0x51)
        ∷ (0xd9, 0x52)
        ∷ (0xe2, 0x53)
        ∷ (0xe3, 0x54)
        ∷ (0xe4, 0x55)
        ∷ (0xe5, 0x56)
        ∷ (0xe6, 0x57)
        ∷ (0xe7, 0x58)
        ∷ (0xe8, 0x59)
        ∷ (0xe9, 0x5a)
        ∷ (0xf0, 0x30)
        ∷ (0xf1, 0x31)
        ∷ (0xf2, 0x32)
        ∷ (0xf3, 0x33)
        ∷ (0xf4, 0x34)
        ∷ (0xf5, 0x35)
        ∷ (0xf6, 0x36)
        ∷ (0xf7, 0x37)
        ∷ (0xf8, 0x38)
        ∷ (0xf9, 0x39)
        ∷ (0x15, 0x0a)
        ∷ (0x0d, 0x0d)
        ∷ [])
      0

unfoldable pub lp_putc : (ebcdic : ℕ) → Printer → Printer
unfolding ebcdic_to_ascii
lp_putc ebcdic d =
    let ascii = ebcdic_to_ascii ebcdic in
    elim d.output [
      | none ↦ d
      | some out ↦ record d { output = some ((if ascii == 0 then 63 else ascii) ∷ out) }
    ]

unfoldable pub lp_do_jump : (code : ℕ) → Printer → Printer
unfolding lp_putc
lp_do_jump code d =
    switch code
      ((1, lp_putc 10 d)
        ∷ (2, lp_putc 10 (lp_putc 10 d))
        ∷ (3, lp_putc 10 (lp_putc 10 (lp_putc 10 d)))
        ∷ [])
      d

-- A first byte from 0x60 to 0x6f is a skip code, which is passed over.
unfoldable pub skip_format : (fmt_byte : ℕ) → Printer → Printer
skip_format fmt_byte d =
    if leb 0x60 fmt_byte && leb fmt_byte 0x6f
    then record d { mem_addr = d.mem_addr + 1; bytes_left = d.bytes_left - 1; format_mode = 1 }
    else d

unfoldable pub printer_wd : (e_reg a_val : ℕ) → D Status
unfolding skip_format
printer_wd e_reg a_val d =
    if not (e_reg == 3)
    then pure (scpe_ioerr, d)
    else if not (a_val % 256 == 0x40)
    then pure (scpe_ioerr, d)
    else (do
      addr_reg ← read_word 0x20
      count_reg ← read_word 0x21
      let d' : Printer = record d {
        jump_code = a_val / 256 % 256;
        format_mode = 1;
        mem_addr = addr_reg;
        bytes_left = count_reg;
        active = true;
        status = 3;
      }
      if count_reg == 0
          then pure (scpe_ok, d')
          else do fmt_byte ← read_byte_io addr_reg; pure (scpe_ok, skip_format fmt_byte d'))

unfoldable pub printer_rd : (e_reg : ℕ) → D Status
printer_rd e_reg d =
    if not (e_reg == 3)
    then pure (scpe_ioerr, d)
    else do reg_a ≔ d.status; pure (scpe_ok, record d { status = 0 })

unfoldable pub printer_dio_handler : (inst : ℕ) (is_write : Bool) → D Status
unfolding printer_wd printer_rd
printer_dio_handler inst is_write d = do
  s ← get
  if is_write then printer_wd (s.reg reg_e) (s.reg reg_a) d else printer_rd (s.reg reg_e) d

unfoldable pub printer_detach : Printer → Printer
printer_detach d = record d { output = none; active = false }

unfoldable pub printer_reset : Printer → Printer
printer_reset d = record d { active = false; status = 0 }
