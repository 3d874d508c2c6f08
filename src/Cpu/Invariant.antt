-- ===== src/Cpu/Invariant.antt =====
-- What it is for every primitive step of the simulator to keep a predicate, in both modes; the
-- traps and the interrupts of Mitra/mitra_deroute.c are built from these steps.
pub mod Instructions
pub mod Rounds
pub mod Sound
pub mod Reach
use mitra_15_for_simh.Prelude.{
  ℕ, zero, suc, ◌<◌, ◌≡◌, ◌⊎◌, inl, inr, refl, Bool, Bool-cases, true, false, Option, none, some,
  List, [], ◌∷◌, leb, arith, if◌then◌else◌,
}
use mitra_15_for_simh.State.{CpuState, Reg, Indicators}
use mitra_15_for_simh.Run.{M, ◌>>=◌, ◌>>◌, get, ◌≔◌}
use mitra_15_for_simh.Run.Keeps.{
  Ends, Keeps, Keeps->>=, Keeps->>, Keeps-pure, Keeps-get, Keeps-exit, Keeps-undefined, Keeps-if,
}
use mitra_15_for_simh.Status.{Status, scpe_ok}
use mitra_15_for_simh.Deroute.{
  set_ind, clear_traps, indicator_word, load_indicators_from_block, enter_supervisor,
  call_supervisor, mitra_trap, Lookup, found, failed, cpt_lookup, load_from_reserved_block,
  load_ctx_from_mem, write_all, save_context, mitra_resolve_trap_cause,
}
use mitra_15_for_simh.Deroute.IndicatorWord.{indicator_word-lt}
use mitra_15_for_simh.Deroute.Interrupt.{
  highest_below, get_highest_interrupt, set_curr_int_lvl, clear_pending, set_j_reg, set_reg_block,
  load_level, with_context, accept_fast, accept_normal, then_clear, mitra_interrupt_accept,
  return_fast, set_ma, return_normal, mitra_interrupt_return, get_boot_entry_addr,
}
use mitra_15_for_simh.Deroute.Suspension.{mitra_suspension_process}
use mitra_15_for_simh.Instr.System.{set_lock}
use mitra_15_for_simh.Cpu.{clear_trap_pending, set_trap_cause}
use mitra_15_for_simh.Cpu.Stable.{IsStable, keeps, Keeps-read_word}

pub record IsInvariant (P : CpuState → Type 0) : Type 0 where
  pub stable : IsStable P
  pub words : (s : CpuState) → P s → (r : Reg) → s.reg r < 65536
  pub indicators : (i : Indicators) → Keeps P (set_ind i)
  pub lock : (index : ℕ) (b : Bool) → Keeps P (set_lock index b)
  pub acknowledge : Keeps P clear_traps
  pub level : (n : ℕ) → n < 32 → Keeps P (set_curr_int_lvl n)
  pub clear : (n : ℕ) → Keeps P (clear_pending n)
  pub j_reg : (n : ℕ) → Keeps P (set_j_reg n)
  pub block : (b n w : ℕ) → w < 65536 → Keeps P (set_reg_block b n w)
  pub cause : (n : ℕ) → Keeps P (set_trap_cause n)
  pub suspend : Keeps P mitra_suspension_process
  -- The flag of pending traps is cleared alone only where no trap is requested, or no flag is set.
  pub settle :
      (s : CpuState)
      → P s
      → (s.trap_pending ≡ false) ⊎ (mitra_resolve_trap_cause s.trp_req_bits ≡ none)
      → Ends P (clear_trap_pending s)

pub highest_below-lt : (n : ℕ) (bits : ℕ → Bool) {k : ℕ} → highest_below n bits ≡ some k → k < n
unfolding highest_below
highest_below-lt zero bits e = cc
highest_below-lt (suc n) bits {k} e = elim (Bool-cases (bits n)) [
  | inl here ↦ ground arith
  | inr other ↦
      let rest : highest_below n bits ≡ some k = rw other at e in
      omega (arith, highest_below-lt n bits rest)
]

highest-lt : (s : CpuState) {k : ℕ} → get_highest_interrupt s ≡ some k → k < 32
unfolding get_highest_interrupt
highest-lt s e = ground (arith, highest_below-lt 32 s.intrpt_pending)

module _ {P : CpuState → Type 0} where
  pub Keeps-unless {ℓ} :
      {A : Type ℓ} (b : Bool) {m k : M A}
      → Keeps P m
      → (b ≡ false → Keeps P k)
      → Keeps P (if b then m else k)
  Keeps-unless true h h' = h
  Keeps-unless false h h' = h' refl

  pub Keeps-option {ℓ κ} :
      {A : Type ℓ} {B : Type κ} (o : Option B) {m : M A} {f : B → M A}
      → Keeps P m
      → ((x : B) → o ≡ some x → Keeps P (f x))
      → Keeps P (elim o [ none ↦ m | some x ↦ f x ])
  Keeps-option none h h' = h
  Keeps-option (some x) h h' = h' x refl

  pub Keeps-lookup {ℓ} :
      {A : Type ℓ} (r : Lookup) {f : ℕ → M A} {g : Status → M A}
      → ((n : ℕ) → Keeps P (f n))
      → ((st : Status) → Keeps P (g st))
      → Keeps P (elim r [ found n ↦ f n | failed st ↦ g st ])
  Keeps-lookup (found n) h h' = h n
  Keeps-lookup (failed st) h h' = h' st

module _ {P : CpuState → Type 0} (invariant : IsInvariant P) where
  open invariant use {stable, indicators, acknowledge, level, clear, j_reg, block}
  open stable use {assign, write}

  pub Keeps-load_indicators : (word : ℕ) → Keeps P (load_indicators_from_block word)
  unfolding load_indicators_from_block
  Keeps-load_indicators word = indicators _

  Keeps-enter_supervisor : (p l : ℕ) → Keeps P (enter_supervisor p l)
  unfolding enter_supervisor
  Keeps-enter_supervisor p l = let last = acknowledge in search (keeps, assign, indicators) depth 16

  Keeps-call_supervisor : (ptr : ℕ) → Keeps P (call_supervisor ptr)
  unfolding call_supervisor
  Keeps-call_supervisor ptr =
      search (keeps, Keeps-enter_supervisor, Keeps-read_word stable) depth 16

  pub Keeps-mitra_trap : (trap pc : ℕ) → Keeps P (mitra_trap trap pc)
  unfolding mitra_trap
  Keeps-mitra_trap trap pc =
      search (keeps, write, Keeps-call_supervisor, Keeps-read_word stable) depth 20

  pub Keeps-cpt_lookup : (n : ℕ) → Keeps P (cpt_lookup n)
  unfolding cpt_lookup
  Keeps-cpt_lookup n = search (keeps, Keeps-read_word stable) depth 16

  Keeps-reserved_block : (n : ℕ) → Keeps P (load_from_reserved_block n)
  unfolding load_from_reserved_block
  Keeps-reserved_block n = search (keeps, assign) depth 16

  Keeps-load_ctx : (ptr : ℕ) → Keeps P (load_ctx_from_mem ptr)
  unfolding load_ctx_from_mem
  Keeps-load_ctx ptr = search (keeps, assign, Keeps-read_word stable) depth 24

  Keeps-write_all : (writes : List (ℕ × ℕ)) → Keeps P (write_all writes)
  unfolding write_all
  Keeps-write_all [] = search keeps
  Keeps-write_all ((va, val) ∷ writes) = let rest = Keeps-write_all writes in search (keeps, write)

  Keeps-save_context : (ptr : ℕ) → Keeps P (save_context ptr)
  unfolding save_context
  Keeps-save_context ptr = search (keeps, Keeps-write_all)

  Keeps-load_level : (ptr : ℕ) → Keeps P (load_level ptr)
  unfolding load_level
  Keeps-load_level ptr =
      search (keeps, Keeps-load_ctx, Keeps-load_indicators, Keeps-read_word stable) depth 16

  Keeps-with_context :
      (n : ℕ) (next : ℕ → M Status)
      → ((ptr : ℕ) → Keeps P (next ptr))
      → Keeps P (with_context n next)
  unfolding with_context
  Keeps-with_context n next h =
      Keeps->>= (Keeps-cpt_lookup n) λ r. Keeps-lookup r h (λ st. Keeps-pure st)

  Keeps-accept_fast : Keeps P accept_fast
  unfolding accept_fast
  Keeps-accept_fast =
      search (keeps, assign, j_reg, Keeps-load_indicators, Keeps-reserved_block) depth 24

  Keeps-accept_normal : (n : ℕ) → n < 32 → Keeps P (accept_normal n)
  unfolding accept_normal
  Keeps-accept_normal n small =
      let raised = level n small in
      search (keeps, Keeps-with_context, Keeps-save_context, Keeps-load_level) depth 16

  Keeps-then_clear : (n : ℕ) (st : Status) → Keeps P (then_clear n st)
  unfolding then_clear
  Keeps-then_clear n scpe_ok = search (keeps, clear)
  Keeps-then_clear n st = search keeps

  pub Keeps-mitra_interrupt_accept : (n : ℕ) → Keeps P (mitra_interrupt_accept n)
  unfolding mitra_interrupt_accept
  Keeps-mitra_interrupt_accept n = Keeps-get λ s p. Keeps-unless (leb 32 n) (Keeps-pure _) λ e.
      let fast = Keeps-accept_fast in
      let normal = Keeps-accept_normal n (ground arith) in search (keeps, Keeps-then_clear) depth 16

  pub Keeps-set_ma : (b : Bool) → Keeps P (set_ma b)
  unfolding set_ma
  Keeps-set_ma b = search (keeps, indicators)

  Keeps-return_fast : Keeps P return_fast
  unfolding return_fast
  Keeps-return_fast = Keeps-get λ s p.
      let wide = indicator_word-lt s.ind in
      search (keeps, assign, j_reg, block, wide, Keeps-load_indicators, Keeps-reserved_block) depth
        24

  Keeps-return_normal : Keeps P return_normal
  unfolding return_normal
  Keeps-return_normal = Keeps-get λ s p. Keeps-with_context _ _ λ ptr.
      Keeps->> (Keeps-load_indicators ptr) (
        Keeps-get λ t q.
          Keeps-option (get_highest_interrupt t) (Keeps->> (level 0 (omega arith)) (Keeps-pure _))
            λ n e.
              Keeps->> (level n (highest-lt t e))
                (Keeps->> (Keeps-set_ma false) (Keeps-with_context n load_level Keeps-load_level)))

  pub Keeps-mitra_interrupt_return : Keeps P mitra_interrupt_return
  unfolding mitra_interrupt_return
  Keeps-mitra_interrupt_return =
      let fast = Keeps-return_fast in let normal = Keeps-return_normal in search keeps depth 8
