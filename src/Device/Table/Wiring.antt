-- ===== src/Device/Table/Wiring.antt =====
-- What `io_init` of Mitra/mitra_io.c plugs into the table.
use mitra_15_for_simh.Prelude.{
  ℕ, ◌<◌, ◌≡◌, ◌⊎◌, inl, inr, refl, Bool, Bool-cases, true, false, Option, none, some, List, [],
  ◌∷◌, ◌==◌, leb, arith, ◌∙◌, sym, ==_refl, ==_iff,
}
use mitra_15_for_simh.State.{update}
use mitra_15_for_simh.Instr.System.{dio_n_mod}
use mitra_15_for_simh.Device.Table.{Handler, Dib, Table, plug, io_init}

-- A device of the list claims a mode for a handler.
abbrev pub Claims : List (Option Dib) → ℕ → Handler → Type 0
Claims [] mode handler = ⊥
Claims (none ∷ devices) mode handler = Claims devices mode handler
Claims (some dib ∷ devices) mode handler =
    ((dib.dio ≡ mode) × (dib.dio_disp ≡ some handler)) ⊎ Claims devices mode handler

-- The table that was `before` sends each claimed mode to the handler that claims it, and no other
-- mode to a new handler.
pub record IsWired (devices : List (Option Dib)) (before table : Table) : Type 0 where
  pub claimed :
      (mode : ℕ) (handler : Handler)
      → Claims devices mode handler
      → (mode < 128) × (table mode ≡ some handler)
  pub kept : (mode : ℕ) (handler : Handler) → before mode ≡ some handler → table mode ≡ some handler
  pub only :
      (mode : ℕ) (handler : Handler)
      → table mode ≡ some handler
      → (before mode ≡ some handler) ⊎ Claims devices mode handler

pub update_here :
    (before : Table) (mode m : ℕ) (handler : Handler)
    → m ≡ mode
    → update before m (some handler) mode ≡ some handler
update_here before mode m handler e = simp (e, ==_refl mode) refl

pub update_there :
    (before : Table) (mode m : ℕ) (handler handler' : Handler)
    → before m ≡ none
    → before mode ≡ some handler'
    → update before m (some handler) mode ≡ some handler'
update_there before mode m handler handler' free e = elim (Bool-cases (mode == m)) [
  | inl same ↦
      let e' : mode ≡ m = (==_iff mode m).0 same in
      let e'' : before m ≡ some handler' = rw e' at e in cc
  | inr other ↦ rw other e
]

pub update_from :
    (before : Table) (mode m : ℕ) (handler handler' : Handler)
    → update before m (some handler) mode ≡ some handler'
    → (before mode ≡ some handler') ⊎ ((m ≡ mode) × (some handler ≡ some handler'))
update_from before mode m handler handler' e = elim (Bool-cases (mode == m)) [
  | inl same ↦ inr (sym ((==_iff mode m).0 same), rw same at e)
  | inr other ↦ inl (rw other at e)
]

plug_one :
    (dib : Dib) (handler : Handler) (devices : List (Option Dib)) (before table : Table)
    → dib.dio_disp ≡ some handler
    → dib.dio < 128
    → before dib.dio ≡ none
    → IsWired devices (update before dib.dio (some handler)) table
    → IsWired (some dib ∷ devices) before table
plug_one dib handler devices before table e lt free h = record {
  claimed = λ mode h' c. elim c [
    | inl here ↦ (
      rw (← here.0) lt,
      h.kept mode h' (update_here before mode dib.dio handler here.0 ∙ (sym e ∙ here.1)),
    )
    | inr later ↦ h.claimed mode h' later
  ];
  kept = λ mode h' c. h.kept mode h' (update_there before mode dib.dio handler h' free c);
  only = λ mode h' c. elim (h.only mode h' c) [
    | inl old ↦ elim (update_from before mode dib.dio handler h' old) [
      | inl older ↦ inl older
      | inr now ↦ inr (inl (now.0, e ∙ now.1))
    ]
    | inr later ↦ inr (inr later)
  ];
}

plug_idle :
    (dib : Dib) (devices : List (Option Dib)) (before table : Table)
    → dib.dio_disp ≡ none
    → IsWired devices before table
    → IsWired (some dib ∷ devices) before table
plug_idle dib devices before table e h = record {
  claimed = λ mode h' c. elim c [
    | inl here ↦ let clash = here.1 in cc
    | inr later ↦ h.claimed mode h' later
  ];
  kept = h.kept;
  only = λ mode h' c. elim (h.only mode h' c) [ inl old ↦ inl old | inr later ↦ inr (inr later) ];
}

-- What the loop does with a device, by what is found of it.
abbrev pub plugged :
    (devices : List (Option Dib)) (before : Table) (dib : Dib) (handler : Option Handler)
    (illegal : Bool) (taken : Option Handler)
    → Bool × Table
plugged devices before dib handler illegal taken = elim handler [
  | none ↦ plug devices before
  | some h ↦ elim illegal [
    | true ↦ (true, before)
    | false ↦ elim taken [
      | some _ ↦ (true, before)
      | none ↦ plug devices (update before dib.dio (some h))
    ]
  ]
]

module _ (dib : Dib) (devices : List (Option Dib)) (before : Table)
    (rest : (t : Table) → (plug devices t).0 ≡ false → IsWired devices t (plug devices t).1) where
  plugged-IsWired :
      (handler : Option Handler) (illegal : Bool) (taken : Option Handler)
      → dib.dio_disp ≡ handler
      → leb dio_n_mod dib.dio ≡ illegal
      → before dib.dio ≡ taken
      → (plugged devices before dib handler illegal taken).0 ≡ false
      → IsWired (some dib ∷ devices) before (plugged devices before dib handler illegal taken).1
  plugged-IsWired none illegal taken e small free ok =
      plug_idle dib devices before _ e (rest before ok)
  plugged-IsWired (some h) true taken e small free ok = absurd (cc)
  plugged-IsWired (some h) false (some _) e small free ok = absurd (cc)
  plugged-IsWired (some h) false none e small free ok =
      plug_one dib h devices before _ e (ground arith) free (rest _ ok)

plug-IsWired :
    (devices : List (Option Dib)) (before : Table)
    → (plug devices before).0 ≡ false
    → IsWired devices before (plug devices before).1
unfolding plug
plug-IsWired [] before e = record {
  claimed = λ mode h c. absurd c;
  kept = λ mode h c. c;
  only = λ mode h c. inl c;
}
plug-IsWired (none ∷ devices) before e =
    let h = plug-IsWired devices before e in
    record { claimed = h.claimed; kept = h.kept; only = h.only }
plug-IsWired (some dib ∷ devices) before e =
    plugged-IsWired dib devices before (plug-IsWired devices) dib.dio_disp _ (before dib.dio) refl
      refl refl e

-- Where `io_init` succeeds, the table sends every mode that a device claims to the handler of
-- that device, all these modes are below 128, and every handler in the table is that of a device
-- that claims its mode.
pub io_init-IsWired :
    (devices : List (Option Dib))
    → (io_init devices).0 ≡ false
    → ((mode : ℕ) (handler : Handler)
        → Claims devices mode handler
        → (mode < 128) × ((io_init devices).1 mode ≡ some handler))
      × ((mode : ℕ) (handler : Handler)
          → (io_init devices).1 mode ≡ some handler
          → Claims devices mode handler)
unfolding io_init
io_init-IsWired devices e =
    let h = plug-IsWired devices (λ _. none) e in
    (
      h.claimed,
      λ mode handler c. elim (h.only mode handler c) [ inl old ↦ absurd (cc) | inr d ↦ d ],
    )
