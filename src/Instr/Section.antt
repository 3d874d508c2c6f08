-- ===== src/Instr/Section.antt =====
-- CLS and CSV: calls of a section of the program and of a section of the supervisor.
pub mod Calls
pub mod Supervisor
use mitra_15_for_simh.Prelude.{ℕ, ◌+◌, ◌-◌, ◌*◌, ◌%◌, true, leb, if◌then◌else◌}
use mitra_15_for_simh.State.{reg_p, reg_l, reg_g}
use mitra_15_for_simh.Run.{M, ◌>>=◌, ◌>>◌, pure, get, ◌≔◌}
use mitra_15_for_simh.Memory.{read_word, write_word, trap_vm}
use mitra_15_for_simh.Deroute.{
  g_prime, sub_word, set_indicators, indicator_word, set_ind, mitra_trap,
}
use mitra_15_for_simh.Status.{Status}

-- `(base - 4 * n) & 0xFFFF` for a 16-bit `n`.
abbrev pub table_entry : (base n : ℕ) → ℕ
table_entry base n = (base + 4 * 65536 - 4 * n) % 65536

-- The argument is cut to the 16 bits of `section`.
unfoldable pub call_section : ℕ → M (Unit {0})
call_section target_address = do
  s ← get
  let section = target_address % 65536
  called_l_base ← read_word (table_entry (s.reg reg_g) section)
  called_p_base ← read_word ((table_entry (s.reg reg_g) section + 2) % 65536)
  let lds = (called_l_base + s.reg reg_g) % 65536
  write_word lds ((s.reg reg_p + 2 * 65536 - 2 - g_prime s) % 65536)
  write_word (lds + 2) (sub_word (s.reg reg_l) (g_prime s))
  reg_l ≔ lds
  reg_p ≔ called_p_base + s.reg reg_g

-- The end of CSV: the section is entered through the PRTS.
unfoldable pub enter_service : ℕ → M (Unit {0})
enter_service target_address = do
  t ← get
  set_ind (record (t.ind) { ms = true; pr = true })
  prts_addr ← read_word 0x0c
  l ← read_word (table_entry prts_addr target_address)
  reg_l ≔ l
  p ← read_word (table_entry prts_addr target_address + 2)
  reg_p ≔ p

unfoldable pub csv_instr : ℕ → M (Unit {0})
csv_instr target_address = do
  s ← get
  max_sections ← read_word 0x0e
  if leb max_sections target_address then (do mitra_trap trap_vm (s.reg reg_p); pure tt) else do
    write_word (s.reg reg_g) ((s.reg reg_p + 2 * 65536 - s.reg reg_g - 2) % 65536)
    write_word (s.reg reg_g + 2) (sub_word (s.reg reg_l) (s.reg reg_g))
    write_word (s.reg reg_g + 4) (set_indicators s.ind)
    enter_service target_address
