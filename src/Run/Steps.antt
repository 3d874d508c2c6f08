-- ===== src/Run/Steps.antt =====
-- Runs whose parts are known: how a sequence goes on after a part that returns.
use mitra_15_for_simh.Prelude.{ℕ, ◌≡◌, refl, ◌∙◌, ap}
use mitra_15_for_simh.State.{CpuState, Reg, set_reg}
use mitra_15_for_simh.Run.{Run, done, exited, undefined, M, ◌>>=◌, ◌>>◌, ◌≔◌, get, pure}

pub bind_done {ℓ κ} :
    {A : Type ℓ} {B : Type κ} (m : M A) (f : A → M B) {s t : CpuState} {y : A}
    → m s ≡ done y t
    → (m >>= f) s ≡ f y t
unfolding ◌>>=◌
bind_done {B} m f e =
    ap (λ r. elim r as (λ _. Run B) [ done y t ↦ f y t | exited ↦ exited | undefined ↦ undefined ])
      e

pub then_done {ℓ κ} :
    {A : Type ℓ} {B : Type κ} (m : M A) (k : M B) {s t : CpuState} {y : A}
    → m s ≡ done y t
    → (m >> k) s ≡ k t
unfolding ◌>>◌
then_done m k e = bind_done m (λ _. k) e

-- A sequence whose first part ends the simulator.
pub bind_exited {ℓ κ} :
    {A : Type ℓ} {B : Type κ} (m : M A) (f : A → M B) {s : CpuState}
    → m s ≡ exited
    → (m >>= f) s ≡ exited
unfolding ◌>>=◌
bind_exited {B} m f e =
    ap (λ r. elim r as (λ _. Run B) [ done y t ↦ f y t | exited ↦ exited | undefined ↦ undefined ])
      e

-- Runs that agree go on alike.
pub bind_as {ℓ κ} :
    {A : Type ℓ} {B : Type κ} (m m' : M A) (f : A → M B) {s t : CpuState}
    → m s ≡ m' t
    → (m >>= f) s ≡ (m' >>= f) t
unfolding ◌>>=◌
bind_as {B} m m' f e =
    ap (λ r. elim r as (λ _. Run B) [ done y t ↦ f y t | exited ↦ exited | undefined ↦ undefined ])
      e

-- A run returns a value in a state with a property.
pub record Returns {ℓ} {A : Type ℓ} (r : Run A) (y : A) (P : CpuState → Type 0) : Type ℓ where
  pub final : CpuState
  pub returns : r ≡ done y final
  pub holds : P final

-- A run that goes on as another one returns where that one does.
pub returns_as {ℓ} :
    {A : Type ℓ} {r r' : Run A} {y : A} {P : CpuState → Type 0}
    → r ≡ r'
    → Returns r' y P
    → Returns r y P
returns_as e h = record { final = h.final; returns = e ∙ h.returns; holds = h.holds }

pub get_returns {ℓ} :
    {A : Type ℓ} (f : CpuState → M A) (s : CpuState) {y : A} {P : CpuState → Type 0}
    → Returns (f s s) y P
    → Returns ((get >>= f) s) y P
unfolding ◌>>=◌ get
get_returns f s h = h

pub assign_returns {ℓ} :
    {A : Type ℓ} (r : Reg) (n : ℕ) (k : M A) (s : CpuState) {y : A} {P : CpuState → Type 0}
    → Returns (k (set_reg r n s)) y P
    → Returns ((r ≔ n >> k) s) y P
unfolding ◌>>=◌ ◌>>◌ ◌≔◌
assign_returns r n k s h = h

pub pure_returns {ℓ} :
    {A : Type ℓ} (s : CpuState) {y : A} {P : CpuState → Type 0} → P s → Returns (pure y s) y P
unfolding pure
pure_returns s h = record { final = s; returns = refl; holds = h }

pub then_returns {ℓ κ} :
    {A : Type ℓ} {B : Type κ} (m : M A) (k : M B) {s : CpuState} {y : A} {z : B}
    {P Q : CpuState → Type 0}
    → Returns (m s) y P
    → ((t : CpuState) → P t → Returns (k t) z Q)
    → Returns ((m >> k) s) z Q
then_returns m k h next = returns_as (then_done m k (h.returns)) (next (h.final) (h.holds))

pub weaken_returns {ℓ} :
    {A : Type ℓ} {r : Run A} {y : A} {P Q : CpuState → Type 0}
    → Returns r y P
    → ((t : CpuState) → P t → Q t)
    → Returns r y Q
weaken_returns h weaker = record {
  final = h.final;
  returns = h.returns;
  holds = weaker (h.final) (h.holds);
}

pub assign_last :
    (r : Reg) (n : ℕ) (s : CpuState) {P : CpuState → Type 0}
    → P (set_reg r n s)
    → Returns ((r ≔ n) s) tt P
unfolding ◌≔◌
assign_last r n s h = record { final = set_reg r n s; returns = refl; holds = h }

pub bind_returns {ℓ κ} :
    {A : Type ℓ} {B : Type κ} (m : M A) (f : A → M B) {s : CpuState} {y : A} {z : B}
    {P Q : CpuState → Type 0}
    → Returns (m s) y P
    → ((t : CpuState) → P t → Returns (f y t) z Q)
    → Returns ((m >>= f) s) z Q
bind_returns m f h next = returns_as (bind_done m f (h.returns)) (next (h.final) (h.holds))
