-- ===== src/Cpu/Stable.antt =====
-- Predicates on the state that register writes,
-- checked memory writes, the interrupt mask and the clearing of a lock keep; the children go
-- through the instructions of Mitra/mitra_instr_utils.c and Mitra/mitra_instr.c.
pub mod Registers
pub mod Memory
pub mod Groups
pub mod Slave
use mitra_15_for_simh.Prelude.{ℕ, ◌≡◌, Bool, false}
use mitra_15_for_simh.State.{CpuState, Reg}
use mitra_15_for_simh.Run.{◌≔◌, set_c_ov}
use mitra_15_for_simh.Run.Keeps.{
  Keeps, Keeps->>=, Keeps->>, Keeps-pure, Keeps-get, Keeps-exit, Keeps-undefined, Keeps-if,
  Keeps-switch,
}
use mitra_15_for_simh.Memory.{
  read_word, write_word, read_byte, write_byte, request_trap, bad_address,
}
use mitra_15_for_simh.Deroute.Interrupt.{set_ma}
use mitra_15_for_simh.Instr.System.{set_lock}
use mitra_15_for_simh.Alu.{set_condition_codes_load}

pub record IsStable (P : CpuState → Type 0) : Type 0 where
  pub assign : (r : Reg) (n : ℕ) → Keeps P (r ≔ n)
  pub codes : (n m : ℕ) → Keeps P (set_c_ov n m)
  pub write : (va n : ℕ) → Keeps P (write_word va n)
  pub request : (cause : ℕ) → Keeps P (request_trap cause)
  pub mask : (b : Bool) → Keeps P (set_ma b)
  pub unlock : (index : ℕ) → Keeps P (set_lock index false)

pub ruleset keeps = (
  Keeps->>=, Keeps->>, Keeps-get, Keeps-pure, Keeps-exit, Keeps-undefined, Keeps-if, Keeps-switch,
)

module _ {P : CpuState → Type 0} (stable : IsStable P) where
  Keeps-bad_address {ℓ} : {A : Type ℓ} → Keeps P (bad_address {A = A})
  unfolding bad_address
  Keeps-bad_address = search (keeps, stable.request) depth 12

  pub Keeps-read_word : (va : ℕ) → Keeps P (read_word va)
  unfolding read_word
  Keeps-read_word va = search (keeps, Keeps-bad_address) depth 12

  pub Keeps-read_byte : (va : ℕ) → Keeps P (read_byte va)
  unfolding read_byte
  Keeps-read_byte va = search (keeps, Keeps-read_word) depth 12

  pub Keeps-write_byte : (va n : ℕ) → Keeps P (write_byte va n)
  unfolding write_byte
  Keeps-write_byte va n = search (keeps, Keeps-read_word, stable.write) depth 12

  pub Keeps-codes_load : (n : ℕ) → Keeps P (set_condition_codes_load n)
  unfolding set_condition_codes_load
  Keeps-codes_load n = stable.codes _ _
