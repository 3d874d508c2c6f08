-- ===== src/Device/CardReader.antt =====
-- Mitra/IO_card_reader.c: the card reader. A card is a record of 120 bytes, two columns of 12 bits in
-- every three bytes.
pub mod Binary
pub mod Poll
pub mod Copy
pub mod Card
use mitra_15_for_simh.Prelude.{
  ℕ, zero, suc, ◌+◌, ◌-◌, ◌*◌, ◌/◌, ◌%◌, ◌^◌, Bool, true, false, not, ◌||◌, Option, none, some, [],
  ◌∷◌, ◌==◌, leb, ltb, if◌then◌else◌, switch, bit, u8,
}
use mitra_15_for_simh.State.{reg_a, reg_e, update}
use mitra_15_for_simh.Run.{M, ◌>>=◌, ◌>>◌, get, pure, undefined_behaviour, ◌≔◌}
use mitra_15_for_simh.Status.{Status, scpe_ok, scpe_ioerr}
use mitra_15_for_simh.Device.Table.{io_interrupt_dispatch, write_byte_io}
use mitra_15_for_simh.Device.File.{File, fread}

-- CDR_COLUMNS and CDR_BYTES_PER_CARD.
abbrev pub cdr_columns : ℕ
cdr_columns = 80

abbrev pub cdr_bytes_per_card : ℕ
cdr_bytes_per_card = 120

-- CDR_DEV.
pub record Cdr : Type 0 where
  pub image : Option File
  pub hopper : ℕ
  pub stacker : ℕ → ℕ
  pub stacker_sel : ℕ
  pub status : ℕ
  pub mode : ℕ
  pub active : Bool
  pub buffer : ℕ → ℕ
  pub col : ℕ
  pub bptr : ℕ
  pub blnt : ℕ
  pub mem_addr : ℕ
  pub bytes_left : ℕ

abbrev pub D : Type 0 → Type 0
D A = Cdr → M (A × Cdr)

-- Level 4.
unfoldable pub cdr_interrupt : M (Unit {0})
cdr_interrupt = io_interrupt_dispatch (λ level. level == 4) false

-- What follows `attach_unit`: whole cards only.
unfoldable pub cdr_attach : File → Cdr → Status × Cdr
cdr_attach f d =
    if f.size % cdr_bytes_per_card == 0
    then (
      scpe_ok,
      record d {
        image = some f;
        hopper = f.size / cdr_bytes_per_card % 4294967296;
        status = 0;
        active = false;
      },
    )
    else (scpe_ioerr, d)

unfoldable pub cdr_detach : Cdr → Cdr
cdr_detach d = record d { image = none; hopper = 0; active = false }

unfoldable pub cdr_reset : Cdr → Cdr
cdr_reset d = record d { active = false; status = 0 }

-- The column of a card that is packed in the bytes given.
unfoldable pub column : (bytes : ℕ → ℕ) → ℕ → ℕ
column bytes col =
    let c1 = bytes (col / 2 * 3) in
    let c2 = bytes (col / 2 * 3 + 1) in
    let c3 = bytes (col / 2 * 3 + 2) in
    if col % 2 == 0 then (c1 * 16 + c2 / 16) % 4096 else (c2 % 16 * 256 + c3) % 4096

unfoldable pub cdr_read_card : D Bool
unfolding column fread
cdr_read_card d = elim d.image [
  | none ↦ undefined_behaviour
  | some f ↦
      let r = fread cdr_bytes_per_card f in
      if r.0
      then pure (
        true,
        record d {
          image = some r.1;
          buffer = λ i.
              if ltb i cdr_columns then column (λ k. u8 (f.byte (f.pos + k))) i else d.buffer i;
        },
      )
      else pure (false, record d { image = some r.1 })
]

-- `((cmd & 0xC000) >> 14) && 0x03` is 0 or 1.
unfoldable pub mode_selector : ℕ → ℕ
mode_selector cmd = bit (not (cmd / 16384 % 4 == 0))

unfoldable pub cdr_mode : ℕ → ℕ
cdr_mode selector = if selector == 2 then 2 else if selector == 1 then 1 else 0

-- A status, with the interrupt.
unfoldable pub reported : (status : ℕ) → Cdr → M Cdr
reported status d = do cdr_interrupt; pure (record d { status = status })

unfoldable pub begun : Bool → Cdr → M Cdr
begun true d = pure (record d { col = 0; bptr = 0; blnt = cdr_columns; active = true })
begun false d = reported 0x80 d

unfoldable pub cdr_start_transfer : (cmd : ℕ) → Cdr → M Cdr
unfolding mode_selector cdr_mode
cdr_start_transfer cmd d =
    let d' = record d { mode = cdr_mode (mode_selector cmd) } in
    if d.active
    then pure d
    else if d'.mode == 2
    then reported 0x04 d'
    else if d'.hopper == 0
    then reported 0x40 d'
    else (do r ← cdr_read_card d'; begun r.0 r.1)

-- The number of punches in the seven bits of 0x1FC.
unfoldable pub punches : ℕ → ℕ
punches row_bits =
    row_bits / 4 % 2
    + row_bits / 8 % 2
    + row_bits / 16 % 2
    + row_bits / 32 % 2
    + row_bits / 64 % 2
    + row_bits / 128 % 2
    + row_bits / 256 % 2

-- A column of the buffer, which has 80.
unfoldable pub column_at : ℕ → Cdr → M ℕ
column_at i d = if leb cdr_columns i then undefined_behaviour else pure (d.buffer i)

-- The byte that EBCDIC mode emits.
unfoldable pub ebcdic_byte : D ℕ
unfolding punches
ebcdic_byte d = do
  row_bits ← column_at d.bptr d
  let d' = record d { bptr = d.bptr + 1 }
  pure (
      if ltb 1 (punches row_bits)
      then (0, record d' { status = d.status / 2 * 2 + 1 })
      else (u8 row_bits, d'))

-- The byte that binary mode emits: three in two columns.
unfoldable pub binary_byte : D ℕ
binary_byte d = do
  this ← column_at d.bptr d
  let d' = record d { col = d.col + 1 }
  switch (d.col % 3)
      ((0, pure (this / 16 % 256, d'))
        ∷ (
          1,
          (do
            next ← column_at (d.bptr + 1) d
            pure (this % 16 * 16 + next / 256 % 16, record d' { bptr = d.bptr + 1 })),
        )
        ∷ [])
      (pure (this % 256, record d' { bptr = d.bptr + 1 }))

-- A byte of the card goes to memory; the card is over with the count or with its last column.
unfoldable pub emitted : (byte : ℕ) → D ℕ
emitted byte d = do
  write_byte_io d.mem_addr byte
  let d' = record d {
    mem_addr = (d.mem_addr + 1) % 4294967296;
    bytes_left = (d.bytes_left + 4294967295) % 4294967296;
  }
  if d'.bytes_left == 0 || d'.bptr == d'.blnt
      then (do
        cdr_interrupt
        pure (
          1,
          record d' {
            active = false;
            hopper = (d.hopper + 4294967295) % 4294967296;
            stacker = update d.stacker d.stacker_sel (d.stacker d.stacker_sel + 1);
            status = if d.status % 2 == 0 then 0 else d.status;
          },
        ))
      else pure (1, d')

unfoldable pub polled : D ℕ
polled d = do r ← (if d.mode == 1 then ebcdic_byte d else binary_byte d); emitted r.0 r.1

unfoldable pub next_card : Bool → D ℕ
unfolding polled
next_card true d = polled (record d { bptr = 0; blnt = cdr_columns })
next_card false d = do d' ← reported 0x80 (record d { active = false }); pure (1, d')

unfoldable pub cdr_poll : D ℕ
unfolding next_card polled
cdr_poll d =
    if not d.active
    then pure (0, d)
    else if d.blnt == 0
    then (do r ← cdr_read_card d; next_card r.0 r.1)
    else polled d

unfoldable pub cdr_wd : (e_reg a_val : ℕ) → D Status
cdr_wd e_reg a_val d =
    if not (e_reg == 7)
    then pure (scpe_ioerr, d)
    else (do d' ← cdr_start_transfer a_val d; pure (scpe_ok, d'))

unfoldable pub cdr_rd : (e_reg : ℕ) → D Status
cdr_rd e_reg d =
    if not (e_reg == 17)
    then pure (scpe_ioerr, d)
    else do reg_a ≔ d.status; pure (scpe_ok, record d { status = 0 })

unfoldable pub cdr_dio_handler : (inst : ℕ) (is_write : Bool) → D Status
unfolding cdr_wd cdr_rd
cdr_dio_handler inst is_write d = do
  s ← get
  if is_write then cdr_wd (s.reg reg_e) (s.reg reg_a) d else cdr_rd (s.reg reg_e) d
