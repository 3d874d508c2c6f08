-- ===== src/Device/Sagem.antt =====
-- Mitra/IO_sagem_fix_disk.c: the fixed disk of SAGEM. Its transfers are commented out in the source.
use mitra_15_for_simh.Prelude.{
  ℕ, ◌+◌, ◌*◌, ◌/◌, ◌%◌, Bool, true, false, not, ◌==◌, leb, if◌then◌else◌,
}
use mitra_15_for_simh.State.{reg_a, reg_e}
use mitra_15_for_simh.Run.{M, ◌>>=◌, ◌>>◌, get, pure, ◌≔◌}
use mitra_15_for_simh.Status.{Status, scpe_ok, scpe_ioerr}
use mitra_15_for_simh.Memory.{read_word, write_word}
use mitra_15_for_simh.Device.Table.{io_interrupt_dispatch}

-- SAGEM_DEV, of which only unit 0 is used.
pub record Sagem : Type 0 where
  pub has_image : Bool
  pub total_sectors : ℕ
  pub me : ℕ
  pub status : ℕ
  pub active : Bool
  pub mem_addr : ℕ
  pub bytes_left : ℕ
  pub track : ℕ
  pub sector : ℕ
  pub mode : ℕ

abbrev pub D : Type 0 → Type 0
D A = Sagem → M (A × Sagem)

unfoldable pub ts_to_sector : (track sector : ℕ) → ℕ
ts_to_sector track sector = track * 12 + sector

unfoldable pub sagem_interrupt : M (Unit {0})
sagem_interrupt = io_interrupt_dispatch (λ level. level == 9) false

-- A mode register and a status, with the interrupt.
unfoldable pub sagem_refused : (me status : ℕ) → Sagem → M Sagem
sagem_refused me status d = do sagem_interrupt; pure (record d { me = me; status = status })

unfoldable pub sagem_start_transfer : (mem_addr byte_count track sector mode : ℕ) → Sagem → M Sagem
unfolding ts_to_sector
sagem_start_transfer mem_addr byte_count track sector mode d =
    if d.active
    then pure d
    else if leb d.total_sectors (ts_to_sector track sector)
    then sagem_refused 0x0010 1 d
    else if byte_count == 0
    then sagem_refused 0x0080 2 d
    else pure (record d {
      active = true;
      mem_addr = mem_addr;
      bytes_left = byte_count;
      mode = mode;
      track = track;
      sector = sector;
    })

-- The end of `sagem_attach`, for a file of a size.
unfoldable pub sagem_attach : (size : ℕ) → Sagem → Sagem
sagem_attach size d = record d {
  has_image = true;
  total_sectors = if size / 256 % 4294967296 == 0 then 128 * 12 else size / 256 % 4294967296;
  me = 0;
  status = 0;
  active = false;
}

unfoldable pub sagem_detach : Sagem → Sagem
sagem_detach d = record d { has_image = false; active = false }

unfoldable pub sagem_wd : (e_reg a_val : ℕ) → D Status
unfolding sagem_start_transfer sagem_refused
sagem_wd e_reg a_val d = if not (e_reg == 5) then pure (scpe_ioerr, d) else do
  write_word 0x3d a_val
  if a_val % 4 == 0 then pure (scpe_ok, d) else do
    ad ← read_word 0x3b
    cm ← read_word 0x3c
    d' ←
        (if cm == 0
          then sagem_refused 0x0008 2 d
          else sagem_start_transfer (ad + 2) (cm * 2) (a_val / 256 % 128) (a_val / 16 % 16)
              (a_val % 4) d)
    pure (scpe_ok, d')

unfoldable pub sagem_rd : (e_reg : ℕ) → D Status
sagem_rd e_reg d =
    if not (e_reg == 3)
    then pure (scpe_ioerr, d)
    else do reg_a ≔ d.status; pure (scpe_ok, record d { status = 0 })

unfoldable pub sagem_dio_handler : (inst : ℕ) (is_write : Bool) → D Status
unfolding sagem_wd sagem_rd
sagem_dio_handler inst is_write d = do
  s ← get
  if is_write then sagem_wd (s.reg reg_e) (s.reg reg_a) d else sagem_rd (s.reg reg_e) d

unfoldable pub sagem_get_me : Sagem → ℕ
sagem_get_me d = d.me

unfoldable pub sagem_reset : Sagem → Sagem
sagem_reset d = record d { active = false; me = 0; status = 0 }
