-- ===== src/Prelude/Switch.antt =====
-- The `switch` statement of C whose cases end in `break` or `return`.
use Prim.Native.Nat.{ℕ}
use mathlib.Core.List.{List, [], ◌∷◌}
use mitra_15_for_simh.Prelude.Tests.{◌==◌, if◌then◌else◌}

-- The body of the first case whose label is the value, else the default.
unfoldable pub switch {ℓ} : {A : Type ℓ} → ℕ → List (ℕ × A) → A → A
switch n [] other = other
switch n ((label, body) ∷ cases) other = if n == label then body else switch n cases other
