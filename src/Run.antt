-- ===== src/Run.antt =====
-- Programs over the state of the processor. `read_word` and `write_word` call `exit(-1)` on an odd
-- address, so a call may end the whole simulator; a read or write of a C array out of its bounds
-- has no defined result.
pub mod Keeps
pub mod Steps
use mitra_15_for_simh.Prelude.{ℕ}
use mitra_15_for_simh.State.{CpuState, Reg, set_reg}

pub data Run {ℓ} (A : Type ℓ) : Type ℓ where
  done : A → CpuState → Run A
  exited : Run A
  undefined : Run A

abbrev pub M {ℓ} : Type ℓ → Type ℓ
M A = CpuState → Run A

infixl 5 ◌>>=◌ ◌>>◌
unfoldable pub ◌>>=◌ {ℓ κ} : {A : Type ℓ} {B : Type κ} → M A → (A → M B) → M B
◌>>=◌ m f s = elim (m s) [ done y t ↦ f y t | exited ↦ exited | undefined ↦ undefined ]

unfoldable pub ◌>>◌ {ℓ κ} : {A : Type ℓ} {B : Type κ} → M A → M B → M B
unfolding ◌>>=◌
m >> k = m >>= λ _. k

unfoldable pub pure {ℓ} : {A : Type ℓ} → A → M A
pure y s = done y s

unfoldable pub get : M CpuState
get s = done s s

-- `exit(-1)`.
unfoldable pub exit {ℓ} : {A : Type ℓ} → M A
exit s = exited

-- An access out of an array's bounds, or a trap of the host's arithmetic.
unfoldable pub undefined_behaviour {ℓ} : {A : Type ℓ} → M A
undefined_behaviour s = undefined

unfoldable pub modify : (CpuState → CpuState) → M (Unit {0})
modify f s = done tt (f s)

-- `cpu_state.reg_… = n`.
infix 6 ◌≔◌
unfoldable pub ◌≔◌ : Reg → ℕ → M (Unit {0})
unfolding set_reg
(r ≔ n) s = done tt (set_reg r n s)

-- `cpu_state.C = n; cpu_state.OV = m`.
unfoldable pub set_c_ov : ℕ → ℕ → M (Unit {0})
set_c_ov n m s = done tt (record s { ind = record (s.ind) { c = n; ov = m } })
