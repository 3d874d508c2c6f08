-- ===== src/Device/Dri/Address.antt =====
-- The disk addresses of Mitra/IO_DRI_fix_disk.c: cylinder, head, sector and drive in one word.
use mitra_15_for_simh.Prelude.{ℕ, ◌+◌, ◌*◌, ◌/◌, ◌%◌, ◌<◌, ◌≡◌, arith, u16}
use mitra_15_for_simh.Device.Dri.{ads_to_sector, sector_to_ads}

fields :
    (cyl head sec drive : ℕ)
    → cyl < 512
    → head < 2
    → sec < 32
    → drive < 2
    → let ads = cyl * 128 + head * 64 + sec * 2 + drive in
      (u16 ads ≡ ads) × ((ads / 128 % 512 ≡ cyl) × ((ads / 64 % 2 ≡ head) × (ads / 2 % 32 ≡ sec)))
fields cyl head sec drive hc hh hs hd = (omega arith, (omega arith, (omega arith, omega arith)))

-- The address of a sector names that sector, for the 24576 sectors that a 9-bit cylinder
-- reaches, on either drive.
pub ads_to_sector-sector_to_ads :
    (sector drive : ℕ) → sector < 24576 → ads_to_sector (sector_to_ads sector drive) ≡ sector
unfolding ads_to_sector sector_to_ads
ads_to_sector-sector_to_ads sector drive lt =
    let e =
      fields (sector / 48) (sector / 24 % 2) (sector % 24) (drive % 2) (omega arith) (omega arith)
        (omega arith) (omega arith) in
    rw (e.0, e.1.0, e.1.1.0, e.1.1.1) (omega arith)
