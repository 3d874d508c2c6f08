-- ===== src/Device/Tape.antt =====
-- Mitra/IO_punched_tape.c: the reader and the punch of paper tape.
use mitra_15_for_simh.Prelude.{
  ℕ, ◌+◌, ◌*◌, ◌/◌, ◌%◌, Bool, true, false, not, ◌||◌, Option, none, some, List, [], ◌∷◌, ◌==◌,
  if◌then◌else◌, switch, bit, u8,
}
use mitra_15_for_simh.State.{reg_a, reg_e, reg_p}
use mitra_15_for_simh.Run.{M, ◌>>=◌, ◌>>◌, get, pure, modify, ◌≔◌}
use mitra_15_for_simh.Status.{
  Status, scpe_ok, scpe_ioerr, scpe_ierr, scpe_nxdev, scpe_unatt, scpe_fmt,
}
use mitra_15_for_simh.Memory.{read_word, write_byte}
use mitra_15_for_simh.Console.{cpu_reset}
use mitra_15_for_simh.Device.Table.{Dib, io_interrupt_dispatch}
use mitra_15_for_simh.Device.Teletype.{skip_leader, load_loop}

-- PTR_DEV; `has_image` tells whether `image` is not NULL.
pub record Ptr : Type 0 where
  pub has_image : Bool
  pub pos : ℕ
  pub nzc : ℕ
  pub last_char : ℕ
  pub status : ℕ
  pub active : Bool
  pub mem_addr : ℕ
  pub bytes_left : ℕ
  pub mode : ℕ

-- PTP_DEV.
pub record Ptp : Type 0 where
  pub has_image : Bool
  pub pos : ℕ
  pub status : ℕ
  pub active : Bool
  pub mem_addr : ℕ
  pub bytes_left : ℕ
  pub advance : Bool

pub record Tape : Type 0 where
  pub reader : Ptr
  pub punch : Ptp

abbrev pub D : Type 0 → Type 0
D A = Tape → M (A × Tape)

-- The end of the attachments: the file is not kept.
unfoldable pub ptr_attach : Ptr → Ptr
ptr_attach r = record r { pos = 0; nzc = 0; last_char = 0; status = 0 }

unfoldable pub ptp_attach : Ptp → Ptp
ptp_attach p = record p { pos = 0; status = 0 }

unfoldable pub ptr_detach : Ptr → Ptr
ptr_detach r = record r { has_image = false; active = false }

unfoldable pub ptp_detach : Ptp → Ptp
ptp_detach p = record p { has_image = false; active = false }

unfoldable pub ptr_reset : Ptr → Ptr
ptr_reset r = record r { active = false; status = 0 }

unfoldable pub ptp_reset : Ptp → Ptp
ptp_reset p = record p { active = false; status = 0 }

unfoldable pub ptr_interrupt : M (Unit {0})
ptr_interrupt = io_interrupt_dispatch (λ level. level == 5) false

unfoldable pub ptp_interrupt : M (Unit {0})
ptp_interrupt = io_interrupt_dispatch (λ level. level == 6) false

-- The reader is active before the two registers are read.
unfoldable pub ptr_wd : (e_reg a_val : ℕ) → D Status
ptr_wd e_reg a_val d =
    let cmd = a_val % 256 in
    if not (e_reg == 8)
    then pure (scpe_ioerr, d)
    else if cmd == 1 || cmd == 3
    then if not d.reader.has_image
      then pure (scpe_unatt, d)
      else if d.reader.active
      then pure (scpe_ok, d)
      else (do
        adm ← read_word 0x1c
        cm ← read_word 0x1d
        pure (
          scpe_ok,
          record d {
            reader = record (d.reader) {
              mode = cmd;
              active = true;
              nzc = 0;
              mem_addr = adm + 2;
              bytes_left = cm * 2;
            };
          },
        ))
    else if cmd == 2
    then pure (scpe_ok, record d { reader = record (d.reader) { active = false; status = 3 } })
    else pure (scpe_ok, d)

-- `(status & 0x03) << 13 | (last_char && 0x0FF)`: the character is read as 0 or 1.
unfoldable pub ptr_rd : (e_reg : ℕ) → D Status
ptr_rd e_reg d = if not (e_reg == 8) then pure (scpe_ioerr, d) else do
  reg_a ≔ d.reader.status % 4 * 8192 + bit (not (d.reader.last_char == 0))
  pure (scpe_ok, record d { reader = record (d.reader) { status = 0 } })

unfoldable pub ptp_wd : (e_reg a_val : ℕ) → D Status
ptp_wd e_reg a_val d =
    if not (e_reg == 18)
    then pure (scpe_ioerr, d)
    else if not d.punch.has_image
    then pure (scpe_unatt, d)
    else if a_val / 32768 % 2 == 1
    then if d.punch.active
      then pure (scpe_ok, record d { punch = record (d.punch) { advance = true } })
      else (do
        adm ← read_word 0x1c
        cm ← read_word 0x1d
        pure (
          scpe_ok,
          record d {
            punch = record (d.punch) {
              advance = true;
              active = true;
              mem_addr = adm + 2;
              bytes_left = cm * 2;
              status = 0;
            };
          },
        ))
    else pure (
      scpe_ok,
      record d { punch = record (d.punch) { advance = false; active = false; status = 3 } },
    )

unfoldable pub ptp_rd : (e_reg : ℕ) → D Status
ptp_rd e_reg d = if not (e_reg == 18) then pure (scpe_ioerr, d) else do
  reg_a ≔ d.punch.status % 4
  pure (scpe_ok, record d { punch = record (d.punch) { status = 0 } })

unfoldable pub ptr_dio_handler : (inst : ℕ) (is_write : Bool) → D Status
unfolding ptr_wd ptr_rd ptp_wd ptp_rd
ptr_dio_handler inst is_write d = do
  s ← get
  switch (s.reg reg_e)
      ((0x08, (if is_write then ptr_wd (s.reg reg_e) (s.reg reg_a) d else ptr_rd (s.reg reg_e) d))
        ∷ (
          0x18,
          (if is_write then ptp_wd (s.reg reg_e) (s.reg reg_a) d else ptp_rd (s.reg reg_e) d),
        )
        ∷ [])
      (pure (scpe_ioerr, d))

-- The end of the boot: master mode, no key, and P at the entry.
unfoldable pub start_loaded : M (Unit {0})
unfolding modify
start_loaded = do
  modify (λ s. record s { ind = record (s.ind) { ms = true; pr = false } })
  reg_p ≔ 0

unfoldable pub ptr_boot :
    (devices : List (Option Dib)) (unit_num : ℕ) (attached : Bool) (file : Option (List ℕ))
    (rewound : Bool)
    → D Status
unfolding start_loaded
ptr_boot devices unit_num attached file rewound d =
    if not (unit_num == 0)
    then pure (scpe_nxdev, d)
    else if not attached
    then pure (scpe_unatt, d)
    else elim file [
      | none ↦ pure (scpe_ierr, d)
      | some tape ↦ if not rewound then pure (scpe_ioerr, d) else elim (skip_leader tape) [
        | [] ↦ pure (scpe_fmt, d)
        | c ∷ rest ↦ (do
          write_byte 0 (u8 c)
          load_loop 4095 1 rest
          cpu_reset devices
          start_loaded
          pure (scpe_ok, record d { reader = ptr_reset d.reader }))
      ]
    ]
