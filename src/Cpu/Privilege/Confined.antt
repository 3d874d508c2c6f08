-- ===== src/Cpu/Privilege/Confined.antt =====
-- Slave mode and memory behind its locks, against the writes of Mitra/mitra_cpu.c.
use mitra_15_for_simh.Prelude.{
  ℕ, ◌≡◌, refl, ◌∙◌, inl, inr, Bool, true, false, not, ◌&&◌, Bool-cases, arith,
}
use mitra_15_for_simh.State.{CpuState, Reg, set_reg}
use mitra_15_for_simh.Run.{◌≔◌, set_c_ov, ◌>>=◌, get}
use mitra_15_for_simh.Run.Keeps.{Keeps, Ends, Keeps-if, Keeps-undefined, Keeps-exit, Keeps->>}
use mitra_15_for_simh.Memory.{write_word, request_trap, store, checked_store, bad_address, trap_pm}
use mitra_15_for_simh.Deroute.{set_ind}
use mitra_15_for_simh.Deroute.Interrupt.{set_ma}
use mitra_15_for_simh.Instr.System.{put_lock, set_lock}
use mitra_15_for_simh.Cpu.Stable.{IsStable}

-- Memory as a program without the key PR sees it: no lock is set, and a word whose lock is still
-- set is the word that it was. The state of the interrupts and the other blocks is as before.
pub record IsGuarded (s t : CpuState) : Type 0 where
  pub locks : (i : ℕ) → t.mp i ≡ true → s.mp i ≡ true
  pub words : (i : ℕ) → s.ind.pr ≡ false → t.mp i ≡ true → t.mem i ≡ s.mem i
  pub blocks : t.reg_block ≡ s.reg_block
  pub pending : t.intrpt_pending ≡ s.intrpt_pending
  pub level : t.curr_int_lvl ≡ s.curr_int_lvl
  pub stack : t.susp_stack_ptr ≡ s.susp_stack_ptr

-- Still a slave, with the same key.
pub record IsConfined (s t : CpuState) : Type 0 where
  pub slave : t.ind.ms ≡ false
  pub key : t.ind.pr ≡ s.ind.pr
  pub guarded : IsGuarded s t

-- A change of other fields.
pub IsGuarded-as :
    {s t : CpuState} (t' : CpuState)
    → IsGuarded s t
    → t'.mp ≡ t.mp
    → t'.mem ≡ t.mem
    → t'.reg_block ≡ t.reg_block
    → t'.intrpt_pending ≡ t.intrpt_pending
    → t'.curr_int_lvl ≡ t.curr_int_lvl
    → t'.susp_stack_ptr ≡ t.susp_stack_ptr
    → IsGuarded s t'
IsGuarded-as t' h mp mem blocks pending level stack = record {
  locks = rw mp (h.locks);
  words = rw (mp, mem) (h.words);
  blocks = blocks ∙ h.blocks;
  pending = pending ∙ h.pending;
  level = level ∙ h.level;
  stack = stack ∙ h.stack;
}

module _ (s : CpuState) where
  assign-IsConfined : (r : Reg) (n : ℕ) → Keeps (IsConfined s) (r ≔ n)
  unfolding ◌≔◌ set_reg
  assign-IsConfined r n = record {
    keep = λ t h. record {
      slave = h.slave;
      key = h.key;
      guarded = IsGuarded-as _ h.guarded refl refl refl refl refl refl;
    };
  }

  codes-IsConfined : (n m : ℕ) → Keeps (IsConfined s) (set_c_ov n m)
  unfolding set_c_ov
  codes-IsConfined n m = record {
    keep = λ t h. record {
      slave = h.slave;
      key = h.key;
      guarded = IsGuarded-as _ h.guarded refl refl refl refl refl refl;
    };
  }

  request-IsConfined : (cause : ℕ) → Keeps (IsConfined s) (request_trap cause)
  unfolding request_trap
  request-IsConfined cause = record {
    keep = λ t h. record {
      slave = h.slave;
      key = h.key;
      guarded = IsGuarded-as _ h.guarded refl refl refl refl refl refl;
    };
  }

  mask-IsConfined : (b : Bool) → Keeps (IsConfined s) (set_ma b)
  unfolding set_ma set_ind ◌>>=◌ get
  mask-IsConfined b = record {
    keep = λ t h. record {
      slave = h.slave;
      key = h.key;
      guarded = IsGuarded-as _ h.guarded refl refl refl refl refl refl;
    };
  }

  put_lock-IsConfined : (index : ℕ) → Keeps (IsConfined s) (put_lock index false)
  unfolding put_lock
  put_lock-IsConfined index = record {
    keep = λ t h. record {
      slave = h.slave;
      key = h.key;
      guarded = record {
        locks = λ i e. ground (arith, h.guarded.locks i);
        words = λ i p e. ground (arith, h.guarded.words i p);
        blocks = h.guarded.blocks;
        pending = h.guarded.pending;
        level = h.guarded.level;
        stack = h.guarded.stack;
      };
    };
  }

  unlock-IsConfined : (index : ℕ) → Keeps (IsConfined s) (set_lock index false)
  unfolding set_lock
  unlock-IsConfined index = search (Keeps-if, Keeps-undefined, put_lock-IsConfined)

  store-IsConfined :
      (t : CpuState) (pa n : ℕ)
      → IsConfined s t
      → (not t.ind.pr && t.mp pa) ≡ false
      → Ends (IsConfined s) (store pa n t)
  unfolding store
  store-IsConfined t pa n h free = record {
    slave = h.slave;
    key = h.key;
    guarded = record {
      locks = h.guarded.locks;
      words = λ i p e. ground (arith, h.guarded.words i p e, h.key, p, free);
      blocks = h.guarded.blocks;
      pending = h.guarded.pending;
      level = h.guarded.level;
      stack = h.guarded.stack;
    };
  }

  checked_store-IsConfined : (pa n : ℕ) → Keeps (IsConfined s) (checked_store pa n)
  unfolding checked_store ◌>>=◌ get
  checked_store-IsConfined pa n = record {
    keep = λ t h. elim (Bool-cases (not t.ind.pr && t.mp pa)) [
      | inl e ↦ rw e ((request-IsConfined trap_pm).keep t h)
      | inr e ↦ rw e (store-IsConfined t pa n h e)
    ];
  }

  bad_address-IsConfined : Keeps (IsConfined s) (bad_address {A = Unit {0}})
  unfolding bad_address
  bad_address-IsConfined = search (Keeps->>, request-IsConfined, Keeps-exit)

  pub write-IsConfined : (va n : ℕ) → Keeps (IsConfined s) (write_word va n)
  unfolding write_word
  write-IsConfined va n = search (Keeps-if, bad_address-IsConfined, checked_store-IsConfined)

  pub IsConfined-IsStable : IsStable (IsConfined s)
  IsConfined-IsStable = record {
    assign = assign-IsConfined;
    codes = codes-IsConfined;
    write = write-IsConfined;
    request = request-IsConfined;
    mask = mask-IsConfined;
    unlock = unlock-IsConfined;
  }
