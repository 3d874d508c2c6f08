-- ===== src/Cpu/Privilege/Trap.antt =====
-- `mitra_trap` of Mitra/mitra_deroute.c as a slave program causes it.
use mitra_15_for_simh.Prelude.{
  ℕ, ◌+◌, ◌%◌, ◌≡◌, refl, ◌⊎◌, inl, inr, true, false, leb, Bool-cases, arith,
}
use mitra_15_for_simh.State.{CpuState, set_reg, reg_p, reg_l, reg_g}
use mitra_15_for_simh.Run.{◌≔◌, ◌>>=◌, ◌>>◌, get, pure}
use mitra_15_for_simh.Run.Keeps.{Ends, Leads, Leads->>=, Leads->>, Leads-get}
use mitra_15_for_simh.Memory.{read_word, word_index, max_mem_words}
use mitra_15_for_simh.Memory.Laws.{read_word-Ends}
use mitra_15_for_simh.Deroute.{set_ind, enter_supervisor, call_supervisor, mitra_trap, clear_traps}
use mitra_15_for_simh.Cpu.Stable.{Keeps-read_word}
use mitra_15_for_simh.Cpu.Privilege.Confined.{
  IsGuarded, IsConfined, IsGuarded-as, write-IsConfined, IsConfined-IsStable,
}

-- Master through section 0 of the supervisor: P and L come from the PRTS, whose address is in the
-- word at 12, and traps are acknowledged.
pub record IsSupervised (t : CpuState) : Type 0 where
  pub master : t.ind.ms ≡ true
  pub key : t.ind.pr ≡ true
  pub masked : t.ind.ma ≡ true
  pub program : t.reg reg_p ≡ (t.mem (word_index (t.mem 6)) + t.reg reg_g) % 32768
  pub local : t.reg reg_l ≡ (t.mem (word_index (t.mem 6 + 2)) + t.reg reg_g) % 32768
  pub acknowledged : t.trap_pending ≡ false

-- How an instruction of a slave program ends.
pub record IsContained (s t : CpuState) : Type 0 where
  pub guarded : IsGuarded s t
  pub mode : ((t.ind.ms ≡ false) × (t.ind.pr ≡ s.ind.pr)) ⊎ IsSupervised t

module _ (s : CpuState) where
  pub confined-IsContained : (t : CpuState) → IsConfined s t → IsContained s t
  confined-IsContained t h = record { guarded = h.guarded; mode = inl (h.slave, h.key) }

  enter-Ends :
      (t : CpuState)
      → IsConfined s t
      → Ends
          (IsContained s)
          (enter_supervisor (t.mem (word_index (t.mem 6))) (t.mem (word_index (t.mem 6 + 2))) t)
  unfolding enter_supervisor ◌>>=◌ ◌>>◌ get pure set_ind ◌≔◌ set_reg clear_traps
  enter-Ends t h = record {
    guarded = IsGuarded-as _ h.guarded refl refl refl refl refl refl;
    mode = inr (record {
      master = refl;
      key = refl;
      masked = refl;
      program = omega arith;
      local = omega arith;
      acknowledged = refl;
    });
  }

  supervisor-Ends :
      (t : CpuState) → IsConfined s t → Ends (IsContained s) (call_supervisor (t.mem 6) t)
  unfolding call_supervisor pure
  supervisor-Ends t h = elim (Bool-cases (leb max_mem_words (t.mem 6))) [
    | inl far ↦ rw far (confined-IsContained t h)
    | inr near ↦ rw near (
        read_word-Ends (IsContained s) (t.mem 6) _ t
          (read_word-Ends (IsContained s) (t.mem 6 + 2) _ t (enter-Ends t h)))
  ]

  read_prts-Leads : Leads (IsConfined s) (IsContained s) (read_word 12 >>= call_supervisor)
  read_prts-Leads = record {
    lead = λ t h. read_word-Ends (IsContained s) 12 call_supervisor t (supervisor-Ends t h);
  }

  pub trap-Leads : (trap pc : ℕ) → Leads (IsConfined s) (IsContained s) (mitra_trap trap pc)
  unfolding mitra_trap
  trap-Leads trap pc =
      search
        (
          Leads->>=,
          Leads->>,
          Leads-get,
          read_prts-Leads,
          write-IsConfined,
          Keeps-read_word (IsConfined-IsStable s),
        )
        depth 12
