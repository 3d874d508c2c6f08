-- ===== src/Device/Table/Conflict.antt =====
-- The device lists that `io_init` of Mitra/mitra_io.c refuses.
use mitra_15_for_simh.Prelude.{
  ℕ, ◌≡◌, ◌⊎◌, inl, inr, refl, Bool, true, false, Option, none, some, List, [], ◌∷◌, leb, ◌↔◌, sym,
}
use mitra_15_for_simh.State.{update}
use mitra_15_for_simh.Instr.System.{dio_n_mod}
use mitra_15_for_simh.Device.Table.{Handler, Dib, Table, plug, io_init}
use mitra_15_for_simh.Device.Table.Wiring.{Claims, update_here, update_there, update_from, plugged}

-- Two devices of the list claim one mode.
abbrev pub ClaimsTwice : List (Option Dib) → Type 0
ClaimsTwice [] = ⊥
ClaimsTwice (none ∷ devices) = ClaimsTwice devices
ClaimsTwice (some dib ∷ devices) =
    (((h : Handler) × (dib.dio_disp ≡ some h)) × ((h : Handler) × Claims devices dib.dio h))
    ⊎ ClaimsTwice devices

-- A device of the list claims a mode that the table does not have.
abbrev pub ClaimsIllegal : List (Option Dib) → Type 0
ClaimsIllegal [] = ⊥
ClaimsIllegal (none ∷ devices) = ClaimsIllegal devices
ClaimsIllegal (some dib ∷ devices) =
    (((h : Handler) × (dib.dio_disp ≡ some h)) × (leb dio_n_mod dib.dio ≡ true))
    ⊎ ClaimsIllegal devices

-- A device of the list claims a mode that is taken in a table.
abbrev pub ClaimsTaken : List (Option Dib) → Table → Type 0
ClaimsTaken [] before = ⊥
ClaimsTaken (none ∷ devices) before = ClaimsTaken devices before
ClaimsTaken (some dib ∷ devices) before =
    (((h : Handler) × (dib.dio_disp ≡ some h)) × ((h : Handler) × (before dib.dio ≡ some h)))
    ⊎ ClaimsTaken devices before

-- Why the loop fails.
abbrev pub IsRefused : List (Option Dib) → Table → Type 0
IsRefused devices before =
    ClaimsIllegal devices ⊎ (ClaimsTaken devices before ⊎ ClaimsTwice devices)

-- A claim of a mode that has just been plugged, or was taken before.
taken_now :
    (devices : List (Option Dib)) (before : Table) (mode : ℕ) (handler : Handler)
    → ClaimsTaken devices (update before mode (some handler))
    → ClaimsTaken devices before ⊎ ((h : Handler) × Claims devices mode h)
taken_now [] before mode handler c = absurd c
taken_now (none ∷ devices) before mode handler c = taken_now devices before mode handler c
taken_now (some dib ∷ devices) before mode handler (inl ((h, e), (h', t))) =
    elim (update_from before dib.dio mode handler h' t) [
      | inl old ↦ inl (inl ((h, e), (h', old)))
      | inr now ↦ inr (h, inl (sym now.0, e))
    ]
taken_now (some dib ∷ devices) before mode handler (inr c) =
    elim (taken_now devices before mode handler c) [
      | inl old ↦ inl (inr old)
      | inr now ↦ inr (now.0, inr now.1)
    ]

taken_before :
    (devices : List (Option Dib)) (before : Table) (mode : ℕ) (handler : Handler)
    → before mode ≡ none
    → ClaimsTaken devices before
    → ClaimsTaken devices (update before mode (some handler))
taken_before [] before mode handler free c = absurd c
taken_before (none ∷ devices) before mode handler free c =
    taken_before devices before mode handler free c
taken_before (some dib ∷ devices) before mode handler free (inl ((h, e), (h', t))) =
    inl ((h, e), (h', update_there before dib.dio mode handler h' free t))
taken_before (some dib ∷ devices) before mode handler free (inr c) =
    inr (taken_before devices before mode handler free c)

claimed_now :
    (devices : List (Option Dib)) (before : Table) (mode : ℕ) (handler h : Handler)
    → Claims devices mode h
    → ClaimsTaken devices (update before mode (some handler))
claimed_now [] before mode handler h c = absurd c
claimed_now (none ∷ devices) before mode handler h c = claimed_now devices before mode handler h c
claimed_now (some dib ∷ devices) before mode handler h (inl (at, e)) =
    inl ((h, e), (handler, update_here before dib.dio mode handler (sym at)))
claimed_now (some dib ∷ devices) before mode handler h (inr c) =
    inr (claimed_now devices before mode handler h c)

module _ (dib : Dib) (devices : List (Option Dib)) (before : Table) where
  later-IsRefused : IsRefused devices before → IsRefused (some dib ∷ devices) before
  later-IsRefused (inl illegal) = inl (inr illegal)
  later-IsRefused (inr (inl taken)) = inr (inl (inr taken))
  later-IsRefused (inr (inr twice)) = inr (inr (inr twice))

  idle-IsRefused :
      dib.dio_disp ≡ none → IsRefused (some dib ∷ devices) before → IsRefused devices before
  idle-IsRefused e (inl (inl ((h, e'), small))) = absurd (cc)
  idle-IsRefused e (inl (inr illegal)) = inl illegal
  idle-IsRefused e (inr (inl (inl ((h, e'), taken)))) = absurd (cc)
  idle-IsRefused e (inr (inl (inr taken))) = inr (inl taken)
  idle-IsRefused e (inr (inr (inl ((h, e'), again)))) = absurd (cc)
  idle-IsRefused e (inr (inr (inr twice))) = inr (inr twice)

  now-IsRefused :
      (h : Handler)
      → dib.dio_disp ≡ some h
      → IsRefused devices (update before dib.dio (some h))
      → IsRefused (some dib ∷ devices) before
  now-IsRefused h e (inl illegal) = inl (inr illegal)
  now-IsRefused h e (inr (inr twice)) = inr (inr (inr twice))
  now-IsRefused h e (inr (inl taken)) = elim (taken_now devices before dib.dio h taken) [
    | inl old ↦ inr (inl (inr old))
    | inr again ↦ inr (inr (inl ((h, e), again)))
  ]

  was-IsRefused :
      (h : Handler)
      → leb dio_n_mod dib.dio ≡ false
      → before dib.dio ≡ none
      → IsRefused (some dib ∷ devices) before
      → IsRefused devices (update before dib.dio (some h))
  was-IsRefused h small free (inl (inl (claim, large))) = absurd (cc)
  was-IsRefused h small free (inl (inr illegal)) = inl illegal
  was-IsRefused h small free (inr (inl (inl (claim, (h', e))))) = absurd (cc)
  was-IsRefused h small free (inr (inl (inr taken))) =
      inr (inl (taken_before devices before dib.dio h free taken))
  was-IsRefused h small free (inr (inr (inl (claim, (h', again))))) =
      inr (inl (claimed_now devices before dib.dio h h' again))
  was-IsRefused h small free (inr (inr (inr twice))) = inr (inr twice)

module _ (dib : Dib) (devices : List (Option Dib)) (before : Table)
    (rest : (t : Table) → ((plug devices t).0 ≡ true) ↔ IsRefused devices t) where
  plugged-IsRefused :
      (handler : Option Handler) (illegal : Bool) (taken : Option Handler)
      → dib.dio_disp ≡ handler
      → leb dio_n_mod dib.dio ≡ illegal
      → before dib.dio ≡ taken
      → ((plugged devices before dib handler illegal taken).0 ≡ true)
        ↔ IsRefused (some dib ∷ devices) before
  plugged-IsRefused none illegal taken e small free = (
    λ f. later-IsRefused dib devices before ((rest before).0 f),
    λ r. (rest before).1 (idle-IsRefused dib devices before e r),
  )
  plugged-IsRefused (some h) true taken e small free = (λ _. inl (inl ((h, e), small)), λ _. refl)
  plugged-IsRefused (some h) false (some h') e small free =
      (λ _. inr (inl (inl ((h, e), (h', free)))), λ _. refl)
  plugged-IsRefused (some h) false none e small free = (
    λ f. now-IsRefused dib devices before h e ((rest _).0 f),
    λ r. (rest _).1 (was-IsRefused dib devices before h small free r),
  )

plug-IsRefused :
    (devices : List (Option Dib)) (before : Table)
    → ((plug devices before).0 ≡ true) ↔ IsRefused devices before
unfolding plug
plug-IsRefused [] before = (
  λ e. absurd (cc),
  λ c. elim c [ inl x ↦ absurd x | inr y ↦ elim y [ inl x ↦ absurd x | inr x ↦ absurd x ] ],
)
plug-IsRefused (none ∷ devices) before = plug-IsRefused devices before
plug-IsRefused (some dib ∷ devices) before =
    plugged-IsRefused dib devices before (plug-IsRefused devices) dib.dio_disp _ (before dib.dio)
      refl refl refl

none_taken : (devices : List (Option Dib)) → ClaimsTaken devices (λ _. none) → ⊥
none_taken [] c = c
none_taken (none ∷ devices) c = none_taken devices c
none_taken (some dib ∷ devices) (inl (claim, (h, e))) = absurd (cc)
none_taken (some dib ∷ devices) (inr c) = none_taken devices c

-- `io_init` fails exactly where a device with a handler claims a mode above 127, or two devices
-- with handlers claim one mode.
pub io_init-conflicts :
    (devices : List (Option Dib))
    → ((io_init devices).0 ≡ true) ↔ (ClaimsIllegal devices ⊎ ClaimsTwice devices)
unfolding io_init
io_init-conflicts devices =
    let h = plug-IsRefused devices (λ _. none) in
    (
      λ f. conflict (h.0 f),
      λ c. elim c [ inl illegal ↦ h.1 (inl illegal) | inr twice ↦ h.1 (inr (inr twice)) ],
    )
  where
    conflict : IsRefused devices (λ _. none) → ClaimsIllegal devices ⊎ ClaimsTwice devices
    conflict (inl illegal) = inl illegal
    conflict (inr (inl taken)) = absurd (none_taken devices taken)
    conflict (inr (inr twice)) = inr twice
