-- ===== src/Cpu/Privilege.antt =====
-- `one_inst` of Mitra/mitra_instr.c from slave mode: the refusal of privileged instructions, the
-- dispatch, and the trap after it.
pub mod Confined
pub mod Trap
use mitra_15_for_simh.Prelude.{ℕ, ◌≡◌, refl, inl, inr, false, Bool-cases, Option, none, some}
use mitra_15_for_simh.State.{CpuState}
use mitra_15_for_simh.Run.{◌>>=◌, get}
use mitra_15_for_simh.Run.Keeps.{
  Keeps, Ends, Leads, Leads->>=, Leads->>, Leads-get, Leads-if, Leads-pure,
}
use mitra_15_for_simh.Memory.{trap_vm}
use mitra_15_for_simh.Status.{Status}
use mitra_15_for_simh.Host.{Host}
use mitra_15_for_simh.Decode.{dispatch}
use mitra_15_for_simh.Cpu.{
  one_inst, take_trap, trap_or_clear, set_trap_cause, clear_trap_pending, is_privileged,
}
use mitra_15_for_simh.Cpu.Stable.Slave.{is_csv, Keeps-dispatch}
use mitra_15_for_simh.Cpu.Privilege.Confined.{IsConfined, IsGuarded-as, IsConfined-IsStable}
use mitra_15_for_simh.Cpu.Privilege.Trap.{IsContained, confined-IsContained, trap-Leads}

module _ (s : CpuState) where
  clear-IsConfined : Keeps (IsConfined s) clear_trap_pending
  unfolding clear_trap_pending
  clear-IsConfined = record {
    keep = λ t h. record {
      slave = h.slave;
      key = h.key;
      guarded = IsGuarded-as _ h.guarded refl refl refl refl refl refl;
    };
  }

  cause-IsConfined : (cause : ℕ) → Keeps (IsConfined s) (set_trap_cause cause)
  unfolding set_trap_cause
  cause-IsConfined cause = record {
    keep = λ t h. record {
      slave = h.slave;
      key = h.key;
      guarded = IsGuarded-as _ h.guarded refl refl refl refl refl refl;
    };
  }

  trap_or_clear-Leads :
      (pc : ℕ) (ret : Status) (cause : Option ℕ)
      → Leads (IsConfined s) (IsContained s) (trap_or_clear pc ret cause)
  unfolding trap_or_clear
  trap_or_clear-Leads pc ret none =
      Leads->> clear-IsConfined (Leads-pure _ (confined-IsContained s))
  trap_or_clear-Leads pc ret (some cause) =
      Leads->> (cause-IsConfined cause) (trap-Leads s cause pc)

  take_trap-Leads :
      (pc : ℕ) (ret : Status) → Leads (IsConfined s) (IsContained s) (take_trap pc ret)
  unfolding take_trap
  take_trap-Leads pc ret =
      Leads-get
        λ t h. Leads-if _ (trap_or_clear-Leads pc ret _) (Leads-pure _ (confined-IsContained s))

  start-IsConfined : s.ind.ms ≡ false → IsConfined s s
  start-IsConfined slave = record {
    slave = slave;
    key = refl;
    guarded = record {
      locks = λ i e. e;
      words = λ i p e. refl;
      blocks = refl;
      pending = refl;
      level = refl;
      stack = refl;
    };
  }

  executed-Leads :
      (host : Host) (inst pc : ℕ)
      → is_csv inst ≡ false
      → Leads (IsConfined s) (IsContained s) (dispatch host inst false >>= take_trap pc)
  executed-Leads host inst pc no_csv =
      Leads->>= (Keeps-dispatch (IsConfined-IsStable s) (λ t h. h.slave) host inst no_csv)
        (take_trap-Leads pc)

-- From slave mode, an instruction other than CSV that returns leaves every word whose lock is
-- set afterwards as it was, provided that PR was clear, sets no lock, and leaves the register
-- blocks, the pending interrupts, the interrupt level and the depth of the suspension stack
-- alone. The state is then either still slave with PR as before, or master at the P and L of
-- section 0 in the PRTS that word 6 of the memory points to, with PR and MA set.
pub one_inst-IsContained :
    (host : Host) (inst pc : ℕ) (s : CpuState)
    → s.ind.ms ≡ false
    → is_csv inst ≡ false
    → Ends (IsContained s) (one_inst host inst pc s)
unfolding one_inst ◌>>=◌ get
one_inst-IsContained host inst pc s slave no_csv = elim (Bool-cases (is_privileged inst)) [
  | inl refused ↦
      simp (slave, refused) ((trap-Leads s trap_vm pc).lead s (start-IsConfined s slave))
  | inr allowed ↦
      simp (slave, allowed)
        ((executed-Leads s host inst pc no_csv).lead s (start-IsConfined s slave))
]
