-- ===== src/Device/Dri.antt =====
-- Mitra/IO_DRI_fix_disk.c: the fixed disk with its two units. A sector has 256 bytes, a track 24
-- sectors, a cylinder two tracks.
pub mod Address
pub mod Phases
use mitra_15_for_simh.Prelude.{
  ℕ, zero, suc, ◌+◌, ◌-◌, ◌*◌, ◌/◌, ◌%◌, Bool, true, false, not, ◌&&◌, Option, none, some, [], ◌∷◌,
  ◌==◌, leb, ltb, if◌then◌else◌, switch, u16, u8, bit_or,
}
use mitra_15_for_simh.State.{reg_a, reg_e, update}
use mitra_15_for_simh.Run.{M, ◌>>=◌, ◌>>◌, get, pure, undefined_behaviour, ◌≔◌}
use mitra_15_for_simh.Status.{Status, scpe_ok, scpe_ioerr}
use mitra_15_for_simh.Memory.{write_word}
use mitra_15_for_simh.Deroute.Suspension.{mitra_suspension_request}
use mitra_15_for_simh.Device.Table.{io_interrupt_dispatch, read_byte_io, write_byte_io}
use mitra_15_for_simh.Device.File.{File, fseek, fread, fwrite}

abbrev pub dri_sector_size : ℕ
dri_sector_size = 256

abbrev pub dri_sectors_per_track : ℕ
dri_sectors_per_track = 24

abbrev pub dri_tracks_per_cyl : ℕ
dri_tracks_per_cyl = 2

abbrev pub dri_reg_ads : ℕ
dri_reg_ads = 0x3c

-- DRI_UNIT.
pub record DriUnit : Type 0 where
  pub image : Option File
  pub total_sectors : ℕ
  pub status : ℕ
  pub operation : ℕ
  pub active : Bool
  pub mem_addr : ℕ
  pub bytes_left : ℕ
  pub cur_ads : ℕ
  pub susp_level : ℕ

-- `dri_state` and `last_selected`.
pub record Dri : Type 0 where
  pub unit : ℕ → DriUnit
  pub last_selected : ℕ

abbrev pub D : Type 0 → Type 0
D A = Dri → M (A × Dri)

abbrev pub with_unit : ℕ → DriUnit → Dri → Dri
with_unit n u d = record d { unit = update d.unit n u }

unfoldable pub ads_to_sector : ℕ → ℕ
ads_to_sector ads =
    (ads / 128 % 512 * dri_tracks_per_cyl + ads / 64 % 2) * dri_sectors_per_track + ads / 2 % 32

-- `(cyl << 7) | (head << 6) | (sec << 1) | (drive & 1)`, cut to 16 bits: the fields do not overlap.
unfoldable pub sector_to_ads : (sector drive : ℕ) → ℕ
sector_to_ads sector drive = u16 (
    sector / 48 * 128
    + sector / dri_sectors_per_track % dri_tracks_per_cyl * 64
    + sector % dri_sectors_per_track * 2
    + drive % 2)

unfoldable pub dri_interrupt : ℕ → M (Unit {0})
dri_interrupt n = io_interrupt_dispatch (λ level. level == 7 + n) false

-- A unit stops with a status, and the interrupt is requested.
unfoldable pub dri_stopped : (n status : ℕ) → Dri → M Dri
dri_stopped n status d = do
  dri_interrupt n
  pure (with_unit n (record (d.unit n) { active = false; status = status }) d)

unfoldable pub dri_start_transfer : (n mem_addr byte_count ads op : ℕ) → Dri → M Dri
unfolding ads_to_sector
dri_start_transfer n mem_addr byte_count ads op d =
    if (d.unit n).active
    then pure d
    else if leb (d.unit n).total_sectors (ads_to_sector ads)
    then (do dri_interrupt n; pure (with_unit n (record (d.unit n) { status = 0x0400 }) d))
    else pure (
        with_unit n
          (record (d.unit n) {
            active = true;
            mem_addr = mem_addr;
            bytes_left = byte_count;
            cur_ads = ads;
            operation = op;
          })
          d)

-- The bytes of a buffer go to memory, with the bytes left and the next index.
unfoldable pub write_buffer : (left i addr : ℕ) (buf : ℕ → ℕ) → M (Unit {0})
write_buffer zero i addr buf = pure tt
write_buffer (suc left) i addr buf =
    let rest = write_buffer left (suc i) addr buf in do write_byte_io (addr + i) (buf i); rest

-- The bytes of memory go to a buffer.
unfoldable pub read_buffer : (left i addr : ℕ) (buf : ℕ → ℕ) → M (ℕ → ℕ)
read_buffer zero i addr buf = pure buf
read_buffer (suc left) i addr buf = do
  b ← read_byte_io (addr + i)
  read_buffer left (suc i) addr (update buf i b)

-- What a poll moves: the rest, or a sector of it.
unfoldable pub bytes_to_do : DriUnit → ℕ
bytes_to_do u = if ltb u.bytes_left dri_sector_size then u.bytes_left else dri_sector_size

-- After the bytes the address of the next sector is kept, and the transfer ends with the count.
unfoldable pub dri_advance : (n : ℕ) → File → D ℕ
unfolding bytes_to_do ads_to_sector
dri_advance n f d =
    let u = d.unit n in
    let next_sector = ads_to_sector u.cur_ads + 1 in
    let u' = record u {
      image = some f;
      mem_addr = (u.mem_addr + bytes_to_do u) % 4294967296;
      bytes_left = u.bytes_left - bytes_to_do u;
      cur_ads = sector_to_ads next_sector (u.cur_ads % 2);
    } in
    if u'.bytes_left == 0
    then (do d' ← dri_stopped n 0 (with_unit n u' d); pure (1, d'))
    else pure (1, with_unit n u' d)

unfoldable pub dri_read : (n : ℕ) → File → D ℕ
dri_read n f d =
    let u = d.unit n in
    let r = fread (bytes_to_do u) f in
    if r.0
    then (do
      write_buffer (bytes_to_do u) 0 u.mem_addr (λ i. u8 (f.byte (f.pos + i)))
      dri_advance n r.1 d)
    else (do
      d' ← dri_stopped n 0x0c00 (with_unit n (record u { image = some r.1 }) d)
      pure (1, d'))

unfoldable pub dri_write : (n : ℕ) → File → D ℕ
dri_write n f d = do
  buf ← read_buffer (bytes_to_do (d.unit n)) 0 (d.unit n).mem_addr (λ _. 0)
  dri_advance n (fwrite buf (bytes_to_do (d.unit n)) f) d

-- `fseek` is to a position that is not negative, and does not fail. The comparison is not done.
unfoldable pub dri_transfer : (n : ℕ) → File → D ℕ
unfolding ads_to_sector
dri_transfer n f d =
    let at_sector = fseek (ads_to_sector (d.unit n).cur_ads * dri_sector_size) f in
    switch (d.unit n).operation ((0, dri_read n at_sector d) ∷ (1, dri_write n at_sector d) ∷ [])
      (do d' ← dri_stopped n 0x1000 d; pure (1, d'))

unfoldable pub dri_poll : (n : ℕ) → D ℕ
dri_poll n d =
    if not (d.unit n).active
    then pure (0, d)
    else elim (d.unit n).image [ none ↦ undefined_behaviour | some f ↦ dri_transfer n f d ]

unfoldable pub dri_poll_devices : Dri → M Dri
dri_poll_devices d = do r ← dri_poll 0 d; r' ← dri_poll 1 r.1; pure r'.1

-- WD at 3: the unit by the two top bits of A, the operation by its low byte; only A as a whole is
-- compared with F0.
unfoldable pub dri_select : (a : ℕ) → Dri → Status × Dri
dri_select a d =
    let op = if a % 256 == 0x80 then 1 else if a == 0xf0 then 2 else 0 in
    if a / 32768 % 2 == 1
    then (
      scpe_ok,
      with_unit 0 (record (d.unit 0) { operation = op }) (record d { last_selected = 0 }),
    )
    else if a / 16384 % 2 == 1
    then (
      scpe_ok,
      with_unit 1 (record (d.unit 1) { operation = op }) (record d { last_selected = 1 }),
    )
    else (scpe_ioerr, d)

unfoldable pub dri_control : (a : ℕ) → Dri → Dri
dri_control a d =
    if a == 0x80
    then with_unit d.last_selected (record (d.unit d.last_selected) { status = 0; active = false })
        d
    else d

unfoldable pub dri_begin : (a : ℕ) → D Status
dri_begin a d = if (d.unit d.last_selected).active then pure (scpe_ok, d) else (do
  write_word dri_reg_ads a
  mitra_suspension_request (d.unit d.last_selected).susp_level
  pure (
    scpe_ok,
    with_unit d.last_selected (record (d.unit d.last_selected) { active = true; status = 0 }) d,
  ))

unfoldable pub dri_wd : D Status
unfolding dri_select dri_control dri_begin
dri_wd d = do
  s ← get
  switch (s.reg reg_e)
      ((3, pure (dri_select (s.reg reg_a) d))
        ∷ (5, pure (scpe_ok, dri_control (s.reg reg_a) d))
        ∷ (0x15, dri_begin (s.reg reg_a) d)
        ∷ [])
      (pure (scpe_ioerr, d))

unfoldable pub dri_rd : D Status
dri_rd d = do
  s ← get
  if not (s.reg reg_e == 0x15) then pure (scpe_ioerr, d) else do
    reg_a ≔ (d.unit d.last_selected).status
    pure (scpe_ok, with_unit d.last_selected (record (d.unit d.last_selected) { status = 0 }) d)

unfoldable pub dri_dio_handler : (inst : ℕ) (is_write : Bool) → D Status
unfolding dri_wd dri_rd
dri_dio_handler inst is_write d = if is_write then dri_wd d else dri_rd d
