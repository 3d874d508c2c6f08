-- ===== src/Deroute/Suspension/Service.antt =====
-- The processing of a suspension in Mitra/mitra_deroute.c: which level is served, what its service
-- finds on the stack, and what the end of the service restores.
use mitra_15_for_simh.Prelude.{
  ℕ, ◌<◌, ◌≡◌, ◌↔◌, ◌∙◌, refl, suc, true, false, Bool, Bool-cases, inl, inr, Option, none, some,
  arith, ◌==◌, ==_refl, ==_iff, ap, ltb, if◌then◌else◌,
}
use mitra_15_for_simh.State.{CpuState, update}
use mitra_15_for_simh.Run.Steps.{Returns, weaken_returns}
use mitra_15_for_simh.Status.{scpe_ok}
use mitra_15_for_simh.Deroute.Priority.{IsHighest, nothing, highest, highest_below-IsHighest}
use mitra_15_for_simh.Deroute.Suspension.{
  mitra_suspension_process, pushed, popped, chosen_level, none_pending,
}
use mitra_15_for_simh.Deroute.Suspension.Drain.{chosen}
use mitra_15_for_simh.Deroute.Suspension.Laws.{mitra_suspension_process-IsServed}

-- Some level of the 32 is requested.
abbrev IsRequesting : CpuState → Type 0
IsRequesting s = (k : ℕ) × (k < 32) × (s.susp_req_bits k ≡ true)

-- The level is the most urgent of the requested ones.
pub record IsMostUrgent (level : ℕ) (s : CpuState) : Type 0 where
  pub inside : level < 32
  pub requested : s.susp_req_bits level ≡ true
  pub none_above : (k : ℕ) → level < k → k < 32 → s.susp_req_bits k ≡ false

-- The service of a level: `service` is the state in which its handler runs, and `popped` ends it.
pub record IsService (level : ℕ) (s service t : CpuState) : Type 0 where
  pub active : service.susp_active_level ≡ level
  pub saved :
      service.susp_stack s.susp_stack_ptr
      ≡ record { u_reg = s.u; j_reg = s.j_reg; saved_bloc = s.j_reg }
  pub deeper : service.susp_stack_ptr ≡ suc s.susp_stack_ptr
  pub restores :
      (after : CpuState)
      → after.susp_stack ≡ service.susp_stack
      → after.susp_stack_ptr ≡ service.susp_stack_ptr
      → ((popped after).u ≡ s.u) × ((popped after).susp_stack_ptr ≡ s.susp_stack_ptr)
  pub taken : t.susp_req_bits ≡ update s.susp_req_bits level false
  pub last_level : t.susp_active_level ≡ level
  pub depth : t.susp_stack_ptr ≡ s.susp_stack_ptr
  pub u_reg : t.u ≡ s.u
  pub registers : t.reg ≡ s.reg
  pub memory : t.mem ≡ s.mem
  pub indicators : t.ind ≡ s.ind
  pub pending : (t.susp_pending ≡ true) ↔ IsRequesting t

found :
    (bits : ℕ → Bool) (level : ℕ) (r : Option ℕ)
    → IsHighest bits 32 r
    → level < 32
    → bits level ≡ true
    → ((k : ℕ) → level < k → k < 32 → bits k ≡ false)
    → r ≡ some level
found bits level _ (nothing clear) lt on above = let off = clear level lt in absurd (cc)
found bits level _ (highest other lt' on' above') lt on above = elim (Bool-cases (other == level)) [
  | inl same ↦ ap some ((==_iff other level).0 same)
  | inr differ ↦ elim (Bool-cases (ltb level other)) [
    | inl more ↦ let off = above other (ground arith) lt' in absurd (cc)
    | inr less ↦ let off = above' level (ground arith) lt in absurd (cc)
  ]
]

most_urgent-chosen_level :
    (level : ℕ) (s : CpuState) → IsMostUrgent level s → chosen_level s ≡ level
most_urgent-chosen_level level s h = chosen s level (
    found s.susp_req_bits level _ (highest_below-IsHighest 32 s.susp_req_bits) h.inside h.requested
      h.none_above)

pending_from :
    (s : CpuState) (r : Option ℕ)
    → IsHighest s.susp_req_bits 32 r
    → ((if (elim r as (λ _. Bool) [ none ↦ true | some _ ↦ false ]) then false else true) ≡ true)
      ↔ IsRequesting s
pending_from s _ (nothing clear) =
    (λ e. absurd (cc), λ (k, lt, on). let off = clear k lt in absurd (cc))
pending_from s _ (highest level lt on above) = (λ _. (level, lt, on), λ _. refl)

none_pending-IsRequesting :
    (s : CpuState)
    → ((if none_pending s.susp_req_bits then false else true) ≡ true) ↔ IsRequesting s
unfolding none_pending
none_pending-IsRequesting s = pending_from s _ (highest_below-IsHighest 32 s.susp_req_bits)

popped_next :
    (s after : CpuState) (k : ℕ)
    → after.susp_stack_ptr ≡ suc k
    → ((popped after).u ≡ (after.susp_stack k).u_reg) × ((popped after).susp_stack_ptr ≡ k)
unfolding popped
popped_next s after k e = rw e (refl, refl)

-- A pending suspension of the most urgent requested level, with room on the four-deep stack, is
-- processed to the end: its service runs at that level, one level deeper, with U and J saved on
-- the stack, and from any state that a service leaves with that stack its end restores U and the
-- depth. At the end the request of the level is taken, U, the depth, the registers, the memory
-- and the indicators are as before, and the flag of pending suspensions is set exactly where one
-- of the 32 levels is requested.
pub mitra_suspension_process-IsService :
    (level : ℕ) (s : CpuState)
    → s.susp_pending ≡ true
    → s.susp_stack_ptr < 4
    → IsMostUrgent level s
    → Returns (mitra_suspension_process s) scpe_ok (IsService level s (pushed s))
unfolding pushed
mitra_suspension_process-IsService level s pending room urgent =
    let same = most_urgent-chosen_level level s urgent in
    let here : (s.susp_stack_ptr == s.susp_stack_ptr) ≡ true = ==_refl s.susp_stack_ptr in
    weaken_returns (mitra_suspension_process-IsServed s pending room) λ t h. record {
      active = same;
      saved = rw here refl;
      deeper = refl;
      restores = λ after stack ptr.
          let (u, depth) = popped_next s after s.susp_stack_ptr ptr in
          (u ∙ rw stack (rw here refl), depth);
      taken = h.taken ∙ rw same refl;
      last_level = h.active ∙ same;
      depth = h.depth;
      u_reg = h.u_reg;
      registers = h.registers;
      memory = h.memory;
      indicators = h.indicators;
      pending = rw h.pending (none_pending-IsRequesting t);
    }
