-- ===== src/Device/Dri/Phases.antt =====
-- Mitra/IO_DRI_fix_disk.c: the controller's microprogram, one phase for each suspension, the errors,
-- reset and boot.
use mitra_15_for_simh.Prelude.{
  ℕ, zero, suc, ◌+◌, ◌-◌, ◌*◌, ◌/◌, ◌%◌, Bool, false, not, Option, none, some, List, [], ◌∷◌, ◌==◌,
  leb, ltb, if◌then◌else◌, switch, u16, u8, bit_or,
}
use mitra_15_for_simh.State.{update}
use mitra_15_for_simh.Run.{M, ◌>>=◌, ◌>>◌, pure, undefined_behaviour}
use mitra_15_for_simh.Status.{Status, scpe_ok, scpe_nxdev, scpe_unatt, scpe_ierr, scpe_ioerr}
use mitra_15_for_simh.Memory.{read_word, write_word, write_byte}
use mitra_15_for_simh.Deroute.Interrupt.{get_boot_entry_addr}
use mitra_15_for_simh.Deroute.Suspension.{mitra_suspension_request}
use mitra_15_for_simh.Console.{cpu_reset}
use mitra_15_for_simh.Device.Table.{Dib}
use mitra_15_for_simh.Device.File.{File, fseek, fread, fwrite}
use mitra_15_for_simh.Device.Dri.{
  Dri, with_unit, ads_to_sector, sector_to_ads, dri_interrupt, dri_stopped, dri_reg_ads,
  dri_sector_size,
}

abbrev pub dri_words_per_sector : ℕ
dri_words_per_sector = 128

abbrev pub dri_reg_adm : ℕ
dri_reg_adm = 0x39

abbrev pub dri_reg_cm : ℕ
dri_reg_cm = 0x3a

abbrev pub dri_reg_q : ℕ
dri_reg_q = 0x3b

abbrev pub dri_sts_e : ℕ
dri_sts_e = 0x1000

abbrev pub dri_sts_epl : ℕ
dri_sts_epl = 0x0100

unfoldable pub dri_set_error : (n error_bits : ℕ) → Dri → M Dri
dri_set_error n error_bits d =
    dri_stopped n (bit_or (d.unit n).status (bit_or error_bits dri_sts_e)) d

-- `status = (status & ~DRI_STS_PHASE_MASK) | phase`, then a suspension is requested.
unfoldable pub to_phase : (n phase : ℕ) → Dri → M Dri
to_phase n phase d = do
  mitra_suspension_request (d.unit n).susp_level
  pure (with_unit n (record (d.unit n) { status = bit_or ((d.unit n).status % 8192) phase }) d)

-- Phase 2: the negative counts of words and of zeros.
unfoldable pub phase_2 : (n cm : ℕ) → Dri → M Dri
phase_2 n cm d = do
  (if ltb cm dri_words_per_sector
      then (do
        write_word dri_reg_q ((65536 - cm) % 65536)
        write_word dri_reg_cm ((65536 - (dri_words_per_sector - cm)) % 65536))
      else (do
        write_word dri_reg_q (65536 - dri_words_per_sector)
        write_word dri_reg_cm (cm - dri_words_per_sector)))
  to_phase n 3 d

-- The words of memory, with the words left and the next index, as bytes of a sector.
unfoldable pub words_to_buffer : (left i addr : ℕ) (buf : ℕ → ℕ) → M (ℕ → ℕ)
words_to_buffer zero i addr buf = pure buf
words_to_buffer (suc left) i addr buf = do
  w ← read_word (addr + i)
  words_to_buffer left (suc i) addr
      (update (update buf (i * 2) (w / 256 % 256)) (i * 2 + 1) (w % 256))

unfoldable pub buffer_to_words : (left i addr : ℕ) (buf : ℕ → ℕ) → M (Unit {0})
buffer_to_words zero i addr buf = pure tt
buffer_to_words (suc left) i addr buf =
    let rest = buffer_to_words left (suc i) addr buf in
    do write_word (addr + i) (u8 (buf (i * 2)) * 256 + u8 (buf (i * 2 + 1))); rest

-- Phase 4: a sector between memory and the file. What `fread` leaves of the buffer at the end of the
-- file has no defined value: it is taken from `byte`.
unfoldable pub phase_4 : (n adm sector : ℕ) → File → Dri → M Dri
phase_4 n adm sector file d = do
  let f = fseek (sector * dri_sector_size) file
  image ←
      (if (d.unit n).operation == 1
        then (do
          buf ← words_to_buffer dri_words_per_sector 0 (adm + 2) (λ _. 0)
          pure (fwrite buf dri_sector_size f))
        else (do
          buffer_to_words dri_words_per_sector 0 (adm + 2) (λ i. f.byte (f.pos + i))
          pure (fread dri_sector_size f).1))
  write_word dri_reg_adm (u16 (adm + 2 + dri_words_per_sector - 2))
  to_phase n 6 (with_unit n (record (d.unit n) { image = some image }) d)

-- Phase 6: the end, or the next sector.
unfoldable pub phase_6 : (n ads sector : ℕ) → Dri → M Dri
phase_6 n ads sector d = do
  cm ← read_word dri_reg_cm
  if cm == 0
      then dri_stopped n 0 d
      else do write_word dri_reg_ads (sector_to_ads (sector + 1) (ads % 2)); to_phase n 0 d

-- The phase is masked out of the top three bits, and compared with numbers from 0 to 7.
unfoldable pub dri_phase : (n cm ads adm : ℕ) → Dri → M Dri
unfolding ads_to_sector dri_set_error to_phase phase_2 phase_4 phase_6
dri_phase n cm ads adm d =
    switch ((d.unit n).status / 8192 % 8 * 8192)
      ((0, (if cm == 0 then dri_set_error n dri_sts_epl d else to_phase n 1 d))
        ∷ (1, to_phase n 2 d)
        ∷ (2, phase_2 n cm d)
        ∷ (3, to_phase n 4 d)
        ∷ (
          4,
          elim (d.unit n).image [
            | none ↦ undefined_behaviour
            | some f ↦ phase_4 n adm (ads_to_sector ads) f d
          ],
        )
        ∷ (5, to_phase n 6 d)
        ∷ (6, phase_6 n ads (ads_to_sector ads) d)
        ∷ (7, dri_set_error n dri_sts_epl d)
        ∷ [])
      (pure d)

unfoldable pub dri_suspension_handler : (n : ℕ) → Dri → M Dri
unfolding dri_phase
dri_suspension_handler n d = if not (d.unit n).active then pure d else do
  cm ← read_word dri_reg_cm
  ads ← read_word dri_reg_ads
  adm ← read_word dri_reg_adm
  dri_phase n cm ads adm d

unfoldable pub dri_reset : Dri → Dri
dri_reset d = record d {
  unit = λ n.
      if ltb n 2
      then record (d.unit n) { active = false; status = 0; susp_level = 0 }
      else d.unit n;
}

-- The end of `dri_attach`, for a file of a size.
unfoldable pub dri_attach : (n : ℕ) → File → Dri → Dri
dri_attach n f d =
    with_unit n
      (record (d.unit n) {
        image = some f;
        total_sectors = if f.size == 0 then 203 * 2 * 24 else f.size / dri_sector_size % 4294967296;
        status = 0;
        active = false;
      })
      d

unfoldable pub dri_detach : (n : ℕ) → Dri → Dri
dri_detach n d = with_unit n (record (d.unit n) { image = none; active = false }) d

-- The bytes that were read of the boot sector go to memory from address 0 on.
unfoldable pub boot_bytes : (left i : ℕ) (buf : ℕ → ℕ) → M (Unit {0})
boot_bytes zero i buf = pure tt
boot_bytes (suc left) i buf =
    let rest = boot_bytes left (suc i) buf in do write_byte i (u8 (buf i)); rest

-- `attached` is UNIT_ATT. The first sector is read as far as the file goes.
unfoldable pub dri_boot :
    (devices : List (Option Dib)) (unit_num : ℕ) (attached : Bool) → Dri → M (Status × Dri)
unfolding boot_bytes
dri_boot devices unit_num attached d =
    if leb 2 unit_num
    then pure (scpe_nxdev, d)
    else if not attached
    then pure (scpe_unatt, d)
    else elim (d.unit unit_num).image [
      | none ↦ pure (scpe_ierr, d)
      | some f ↦
          let nread = if leb dri_sector_size f.size then dri_sector_size else f.size in
          let d' =
            with_unit unit_num
              (record (d.unit unit_num) { active = false; image = some (record f { pos = nread }) })
              d in
          if nread == 0 then pure (scpe_ioerr, d') else (do
            boot_bytes nread 0 f.byte
            cpu_reset devices
            dri_interrupt unit_num
            get_boot_entry_addr
            pure (scpe_ok, record d' { last_selected = unit_num }))
    ]
