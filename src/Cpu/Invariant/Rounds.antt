-- ===== src/Cpu/Invariant/Rounds.antt =====
-- A round of the loop of `sim_instr` of Mitra/mitra_cpu.c, step by step, against such a predicate.
use mitra_15_for_simh.Prelude.{
  ℕ, ◌≡◌, ◌⊎◌, inl, inr, refl, Bool, true, false, Option, none, some, leb, if◌then◌else◌,
}
use mitra_15_for_simh.State.{CpuState}
use mitra_15_for_simh.Run.{M, Run, done, exited, undefined, ◌>>=◌, ◌>>◌, get, pure}
use mitra_15_for_simh.Run.Keeps.{Ends, Keeps, Keeps->>=, Keeps->>, Keeps-pure, Keeps-get, Keeps-if}
use mitra_15_for_simh.Status.{Status, code}
use mitra_15_for_simh.Host.{Host}
use mitra_15_for_simh.Deroute.{mitra_trap, mitra_resolve_trap_cause}
use mitra_15_for_simh.Deroute.Interrupt.{get_highest_interrupt}
use mitra_15_for_simh.Cpu.{
  clear_trap_pending, set_trap_cause, trap_or_clear, take_trap, one_inst, after_inst,
  fetch_and_execute, interrupts_by, interrupt_or_fetch, sim_round,
}
use mitra_15_for_simh.Cpu.Stable.{keeps, Keeps-read_word}
use mitra_15_for_simh.Cpu.Invariant.{
  IsInvariant, Keeps-option, Keeps-lookup, Keeps-mitra_trap, Keeps-cpt_lookup,
  Keeps-mitra_interrupt_accept,
}
use mitra_15_for_simh.Cpu.Invariant.Instructions.{AreKept, Keeps-dispatch_all}

module _ (P : CpuState → Type 0) where
  Ends-run {ℓ κ} :
      {A : Type ℓ} {B : Type κ} (r : Run A) (k : M B)
      → Ends P r
      → Keeps P k
      → Ends P (elim r [ done y t ↦ k t | exited ↦ exited | undefined ↦ undefined ])
  Ends-run (done y t) k h h' = h'.keep t h
  Ends-run exited k h h' = tt
  Ends-run undefined k h h' = tt

  Ends-then {ℓ κ} :
      {A : Type ℓ} {B : Type κ} (m : M A) (k : M B) (s : CpuState)
      → Ends P (m s)
      → Keeps P k
      → Ends P ((m >> k) s)
  unfolding ◌>>=◌ ◌>>◌
  Ends-then m k s h h' = Ends-run (m s) k h h'

  -- What is read is the state that the rest starts in.
  Keeps-from {ℓ} :
      {A : Type ℓ} (f : CpuState → M A)
      → ((s : CpuState) → P s → Ends P (f s s))
      → Keeps P (get >>= f)
  unfolding ◌>>=◌ get
  Keeps-from f h = record { keep = h }

  Ends-if {ℓ} :
      {A : Type ℓ} (b : Bool) (m k : M A) (s : CpuState)
      → (b ≡ true → Ends P (m s))
      → (b ≡ false → Ends P (k s))
      → Ends P ((if b then m else k) s)
  Ends-if true m k s h h' = h refl
  Ends-if false m k s h h' = h' refl

  Ends-option {ℓ} :
      {A : Type ℓ} (o : Option ℕ) (m : M A) (f : ℕ → M A) (s : CpuState)
      → (o ≡ none → Ends P (m s))
      → ((n : ℕ) → Ends P (f n s))
      → Ends P ((elim o as (λ _. M A) [ none ↦ m | some n ↦ f n ]) s)
  Ends-option none m f s h h' = h refl
  Ends-option (some n) m f s h h' = h' n

no_cause : (b : Bool) (o : Option ℕ) → (if b then o else none) ≡ none → (b ≡ false) ⊎ (o ≡ none)
no_cause true o e = inr e
no_cause false o e = inl refl

module _ {P : CpuState → Type 0} (invariant : IsInvariant P) where
  open invariant use {stable, cause, settle, suspend}
  open stable use {assign}

  Keeps-cause_trap : (n pc : ℕ) → Keeps P (set_trap_cause n >> mitra_trap n pc)
  Keeps-cause_trap n pc = Keeps->> (cause n) (Keeps-mitra_trap invariant n pc)

  Ends-trap_or_clear :
      (pc : ℕ) (ret : Status) (s : CpuState)
      → P s
      → Ends P (trap_or_clear pc ret (mitra_resolve_trap_cause s.trp_req_bits) s)
  unfolding trap_or_clear
  Ends-trap_or_clear pc ret s p =
      Ends-option P (mitra_resolve_trap_cause s.trp_req_bits) _ _ s
        (λ e. Ends-then P clear_trap_pending (pure ret) s (settle s p (inr e)) (Keeps-pure ret))
        λ n. (Keeps-cause_trap n pc).keep s p

  Keeps-take_trap : (pc : ℕ) (ret : Status) → Keeps P (take_trap pc ret)
  unfolding take_trap
  Keeps-take_trap pc ret = Keeps-from P _ λ s p.
      Ends-if P s.trap_pending _ _ s (λ _. Ends-trap_or_clear pc ret s p)
        λ _. (Keeps-pure ret).keep s p

  Keeps-after_inst : (save_p : ℕ) (reason : Status) → Keeps P (after_inst save_p reason)
  unfolding after_inst
  Keeps-after_inst save_p (code n) = search (keeps, assign) depth 12
  Keeps-after_inst save_p reason = search (keeps, assign) depth 12

  Keeps-interrupts_by : (n : ℕ) → Keeps P (interrupts_by n)
  unfolding interrupts_by
  Keeps-interrupts_by n = Keeps->>= (Keeps-cpt_lookup invariant n) λ r.
      Keeps-lookup r
        (λ ptr. Keeps->>= (Keeps-mitra_interrupt_accept invariant n) λ reason. Keeps-pure _)
        λ st. Keeps-pure _

  module _ (host : Host) (handlers : AreKept P host.dio_disp) where
    pub Keeps-one_inst : (inst pc : ℕ) → Keeps P (one_inst host inst pc)
    unfolding one_inst
    Keeps-one_inst inst pc =
        search
          (
            keeps,
            Keeps-mitra_trap invariant,
            Keeps-dispatch_all invariant host handlers,
            Keeps-take_trap,
          )
          depth 16

    Keeps-fetch : Keeps P (fetch_and_execute host)
    unfolding fetch_and_execute
    Keeps-fetch =
        search (keeps, assign, Keeps-read_word stable, Keeps-one_inst, Keeps-after_inst) depth 20

    Keeps-interrupt_or_fetch : Keeps P (interrupt_or_fetch host)
    unfolding interrupt_or_fetch
    Keeps-interrupt_or_fetch = Keeps-get λ s p.
        Keeps-option (get_highest_interrupt s) Keeps-fetch
          λ n e. Keeps-if (leb n s.curr_int_lvl) Keeps-fetch (Keeps-interrupts_by n)

    pub Keeps-sim_round : Keeps P (sim_round host)
    unfolding sim_round
    Keeps-sim_round = Keeps-from P _ λ s p.
        Ends-option P (if s.trap_pending then mitra_resolve_trap_cause s.trp_req_bits else none) _ _
          s
          (λ e.
            Ends-then P clear_trap_pending _ s (settle s p (no_cause s.trap_pending _ e))
              (Keeps->> suspend Keeps-interrupt_or_fetch))
          λ n.
            (Keeps->> (cause n)
                (Keeps->>= (Keeps-mitra_trap invariant n _) λ reason. Keeps-pure _)).keep
              s p
