-- ===== src/Run/Keeps.antt =====
-- A predicate on states that a program keeps, with one rule for each way to build programs.
use mitra_15_for_simh.Prelude.{
  ℕ, ◌≡◌, inl, inr, Bool, true, false, Bool-cases, ==_iff, if◌then◌else◌, ◌==◌, switch, List, [],
  ◌∷◌,
}
use mitra_15_for_simh.State.{CpuState}
use mitra_15_for_simh.Run.{
  Run, done, exited, undefined, M, ◌>>=◌, ◌>>◌, pure, get, exit, undefined_behaviour,
}

-- The predicate holds of the state in which a run ends, if it returns.
abbrev pub Ends {ℓ} : {A : Type ℓ} → (CpuState → Type 0) → Run A → Type 0
Ends P (done y t) = P t
Ends P exited = Unit
Ends P undefined = Unit

pub record Keeps {ℓ} (P : CpuState → Type 0) {A : Type ℓ} (m : M A) : Type 0 where
  pub keep : (s : CpuState) → P s → Ends P (m s)

abbrev pub KeepsAll {ℓ} : {A : Type ℓ} → (CpuState → Type 0) → List (ℕ × M A) → Type 0
KeepsAll P [] = Unit
KeepsAll P ((n, m) ∷ cases) = Keeps P m × KeepsAll P cases

abbrev pub KeepsExcept {ℓ} :
    {A : Type ℓ} → (CpuState → Type 0) → (ℕ → Bool) → List (ℕ × M A) → Type 0
KeepsExcept P avoid [] = Unit
KeepsExcept P avoid ((n, m) ∷ cases) =
    (if avoid n then Unit else Keeps P m) × KeepsExcept P avoid cases

eq_false : (n k : ℕ) (avoid : ℕ → Bool) → avoid n ≡ false → avoid k ≡ true → (n == k) ≡ false
eq_false n k avoid hn hk = elim (Bool-cases (n == k)) [
  | inl e ↦ let same : n ≡ k = (==_iff n k).0 e in cc
  | inr e ↦ e
]

module _ {P : CpuState → Type 0} where
  Ends-bind {ℓ κ} :
      {A : Type ℓ} {B : Type κ} (r : Run A) (f : A → M B)
      → Ends P r
      → ((y : A) → Keeps P (f y))
      → Ends P (elim r [ done y t ↦ f y t | exited ↦ exited | undefined ↦ undefined ])
  Ends-bind (done y t) f h k = (k y).keep t h
  Ends-bind exited f h k = tt
  Ends-bind undefined f h k = tt

  pub Keeps->>= {ℓ κ} :
      {A : Type ℓ} {B : Type κ} {m : M A} {f : A → M B}
      → Keeps P m
      → ((y : A) → Keeps P (f y))
      → Keeps P (m >>= f)
  unfolding ◌>>=◌
  Keeps->>= {m} {f} h k = record { keep = λ s p. Ends-bind (m s) f (h.keep s p) k }

  pub Keeps->> {ℓ κ} :
      {A : Type ℓ} {B : Type κ} {m : M A} {k : M B} → Keeps P m → Keeps P k → Keeps P (m >> k)
  unfolding ◌>>◌
  Keeps->> {m} {k} h h' = record { keep = λ s p. Ends-bind (m s) (λ _. k) (h.keep s p) (λ _. h') }

  pub Keeps-pure {ℓ} : {A : Type ℓ} (y : A) → Keeps P (pure y)
  unfolding pure
  Keeps-pure y = record { keep = λ s p. p }

  -- What follows a `get` may use that the predicate holds of what was read.
  pub Keeps-get {ℓ} :
      {A : Type ℓ} {f : CpuState → M A}
      → ((s : CpuState) → P s → Keeps P (f s))
      → Keeps P (get >>= f)
  unfolding ◌>>=◌ get
  Keeps-get h = record { keep = λ s p. (h s p).keep s p }

  pub Keeps-exit {ℓ} : {A : Type ℓ} → Keeps P (exit {A = A})
  unfolding exit
  Keeps-exit = record { keep = λ s p. tt }

  pub Keeps-undefined {ℓ} : {A : Type ℓ} → Keeps P (undefined_behaviour {A = A})
  unfolding undefined_behaviour
  Keeps-undefined = record { keep = λ s p. tt }

  pub Keeps-if {ℓ} :
      {A : Type ℓ} (b : Bool) {m k : M A} → Keeps P m → Keeps P k → Keeps P (if b then m else k)
  Keeps-if true h h' = h
  Keeps-if false h h' = h'

  pub Keeps-switch {ℓ} :
      {A : Type ℓ} (n : ℕ) (cases : List (ℕ × M A)) {other : M A}
      → KeepsAll P cases
      → Keeps P other
      → Keeps P (switch n cases other)
  unfolding switch
  Keeps-switch n [] h h' = h'
  Keeps-switch n ((k, m) ∷ cases) h h' = Keeps-if (n == k) h.0 (Keeps-switch n cases h.1 h')

  pub Keeps-if_false {ℓ} :
      {A : Type ℓ} (b : Bool) (m : M A) {k : M A}
      → b ≡ false
      → Keeps P k
      → Keeps P (if b then m else k)
  Keeps-if_false b m e h = rw e h

  -- Labels that the value is not may be left out.
  pub Keeps-switch_except {ℓ} :
      {A : Type ℓ} (avoid : ℕ → Bool) (n : ℕ) (cases : List (ℕ × M A)) {other : M A}
      → avoid n ≡ false
      → KeepsExcept P avoid cases
      → Keeps P other
      → Keeps P (switch n cases other)
  unfolding switch
  Keeps-switch_except avoid n [] ne h h' = h'
  Keeps-switch_except avoid n ((k, m) ∷ cases) ne h h' =
      let rest = Keeps-switch_except avoid n cases ne h.1 h' in
      elim (Bool-cases (avoid k)) [
        | inl skipped ↦ Keeps-if_false (n == k) m (eq_false n k avoid ne skipped) rest
        | inr wanted ↦ let first : Keeps P m = rw wanted at (h.0) in Keeps-if (n == k) first rest
      ]

-- A run from a state with one property ends, if it returns, in a state with another.
pub record Leads {ℓ} (P Q : CpuState → Type 0) {A : Type ℓ} (m : M A) : Type 0 where
  pub lead : (s : CpuState) → P s → Ends Q (m s)

module _ {P Q : CpuState → Type 0} where
  Ends-bind_to {ℓ κ} :
      {A : Type ℓ} {B : Type κ} (r : Run A) (f : A → M B)
      → Ends P r
      → ((y : A) → Leads P Q (f y))
      → Ends Q (elim r [ done y t ↦ f y t | exited ↦ exited | undefined ↦ undefined ])
  Ends-bind_to (done y t) f h k = (k y).lead t h
  Ends-bind_to exited f h k = tt
  Ends-bind_to undefined f h k = tt

  pub Leads->>= {ℓ κ} :
      {A : Type ℓ} {B : Type κ} {m : M A} {f : A → M B}
      → Keeps P m
      → ((y : A) → Leads P Q (f y))
      → Leads P Q (m >>= f)
  unfolding ◌>>=◌
  Leads->>= {m} {f} h k = record { lead = λ s p. Ends-bind_to (m s) f (h.keep s p) k }

  pub Leads->> {ℓ κ} :
      {A : Type ℓ} {B : Type κ} {m : M A} {k : M B} → Keeps P m → Leads P Q k → Leads P Q (m >> k)
  unfolding ◌>>◌
  Leads->> {m} {k} h h' = record {
    lead = λ s p. Ends-bind_to (m s) (λ _. k) (h.keep s p) (λ _. h');
  }

  pub Leads-get {ℓ} :
      {A : Type ℓ} {f : CpuState → M A}
      → ((s : CpuState) → P s → Leads P Q (f s))
      → Leads P Q (get >>= f)
  unfolding ◌>>=◌ get
  Leads-get h = record { lead = λ s p. (h s p).lead s p }

  pub Leads-if {ℓ} :
      {A : Type ℓ} (b : Bool) {m k : M A}
      → Leads P Q m
      → Leads P Q k
      → Leads P Q (if b then m else k)
  Leads-if true h h' = h
  Leads-if false h h' = h'

  pub Leads-pure {ℓ} : {A : Type ℓ} (y : A) → ((s : CpuState) → P s → Q s) → Leads P Q (pure y)
  unfolding pure
  Leads-pure y h = record { lead = h }
