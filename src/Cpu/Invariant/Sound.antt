-- ===== src/Cpu/Invariant/Sound.antt =====
-- The widths and the bounds of the state of Mitra/mitra_cpu.h, and what the flags of pending traps
-- and suspensions mean, against every primitive step.
pub mod Suspension
pub mod Kept
use mitra_15_for_simh.Prelude.{
  ℕ, zero, suc, ◌<◌, ◌≤◌, ◌≡◌, ◌⊎◌, inl, inr, refl, Bool, Bool-cases, true, false, not, ◌&&◌, ◌||◌,
  ◌==◌, Option, none, some, leb, arith, if◌then◌else◌,
}
use mitra_15_for_simh.State.{CpuState, Reg, Indicators, update, set_reg}
use mitra_15_for_simh.Run.{◌≔◌, set_c_ov, ◌>>=◌, ◌>>◌, get, pure, modify}
use mitra_15_for_simh.Run.Keeps.{Keeps, Ends, Keeps-if, Keeps-undefined, Keeps-exit, Keeps->>}
use mitra_15_for_simh.Memory.{write_word, request_trap, store, checked_store, bad_address, trap_pm}
use mitra_15_for_simh.Deroute.{set_ind, clear_traps, mitra_resolve_trap_cause}
use mitra_15_for_simh.Deroute.Interrupt.{
  highest_below, set_ma, set_curr_int_lvl, clear_pending, set_j_reg, set_reg_block,
}
use mitra_15_for_simh.Deroute.Suspension.{
  mitra_suspension_process, pushed, popped, settled, io_suspension_dispatch, chosen_level,
  none_pending,
}
use mitra_15_for_simh.Instr.System.{put_lock, set_lock}
use mitra_15_for_simh.Cpu.{clear_trap_pending, set_trap_cause}
use mitra_15_for_simh.Cpu.Invariant.{IsInvariant}

-- Registers, blocks and memory hold 16-bit words, the interrupt level is one of 32, the stack of
-- suspensions is at most four deep, and a requested trap or suspension has its flag set.
pub record IsSound (s : CpuState) : Type 0 where
  pub words : (r : Reg) → s.reg r < 65536
  pub blocks : (b n : ℕ) → s.reg_block b n < 65536
  pub memory : (i : ℕ) → s.mem i < 65536
  pub level : s.curr_int_lvl < 32
  pub depth : s.susp_stack_ptr ≤ 4
  pub traps : (c : ℕ) → c < 6 → s.trp_req_bits c ≡ true → s.trap_pending ≡ true
  pub suspensions : (l : ℕ) → l < 32 → s.susp_req_bits l ≡ true → s.susp_pending ≡ true

pub assign-IsSound : (r : Reg) (n : ℕ) → Keeps IsSound (r ≔ n)
unfolding ◌≔◌ set_reg
assign-IsSound r n = record {
  keep = λ s h. record {
    words = λ q. ground (arith, h.words q);
    blocks = h.blocks;
    memory = h.memory;
    level = h.level;
    depth = h.depth;
    traps = h.traps;
    suspensions = h.suspensions;
  };
}

-- A change of fields that the predicate does not read.
pub as_before :
    {s : CpuState} (t : CpuState)
    → IsSound s
    → t.reg ≡ s.reg
    → t.reg_block ≡ s.reg_block
    → t.mem ≡ s.mem
    → t.curr_int_lvl ≡ s.curr_int_lvl
    → t.susp_stack_ptr ≡ s.susp_stack_ptr
    → t.trp_req_bits ≡ s.trp_req_bits
    → t.trap_pending ≡ s.trap_pending
    → t.susp_req_bits ≡ s.susp_req_bits
    → t.susp_pending ≡ s.susp_pending
    → IsSound t
as_before t h e1 e2 e3 e4 e5 e6 e7 e8 e9 = record {
  words = rw e1 (h.words);
  blocks = rw e2 (h.blocks);
  memory = rw e3 (h.memory);
  level = rw e4 (h.level);
  depth = rw e5 (h.depth);
  traps = rw (e6, e7) (h.traps);
  suspensions = rw (e8, e9) (h.suspensions);
}

pub codes-IsSound : (n m : ℕ) → Keeps IsSound (set_c_ov n m)
unfolding set_c_ov
codes-IsSound n m = record {
  keep = λ s h. as_before _ h refl refl refl refl refl refl refl refl refl;
}

pub ind-IsSound : (i : Indicators) → Keeps IsSound (set_ind i)
unfolding set_ind
ind-IsSound i = record { keep = λ s h. as_before _ h refl refl refl refl refl refl refl refl refl }

pub mask-IsSound : (b : Bool) → Keeps IsSound (set_ma b)
unfolding set_ma set_ind ◌>>=◌ get
mask-IsSound b = record { keep = λ s h. as_before _ h refl refl refl refl refl refl refl refl refl }

pub cause-IsSound : (n : ℕ) → Keeps IsSound (set_trap_cause n)
unfolding set_trap_cause
cause-IsSound n = record {
  keep = λ s h. as_before _ h refl refl refl refl refl refl refl refl refl;
}

pub clear-IsSound : (n : ℕ) → Keeps IsSound (clear_pending n)
unfolding clear_pending
clear-IsSound n = record {
  keep = λ s h. as_before _ h refl refl refl refl refl refl refl refl refl;
}

pub j_reg-IsSound : (n : ℕ) → Keeps IsSound (set_j_reg n)
unfolding set_j_reg
j_reg-IsSound n = record {
  keep = λ s h. as_before _ h refl refl refl refl refl refl refl refl refl;
}

pub put_lock-IsSound : (index : ℕ) (b : Bool) → Keeps IsSound (put_lock index b)
unfolding put_lock
put_lock-IsSound index b = record {
  keep = λ s h. as_before _ h refl refl refl refl refl refl refl refl refl;
}

pub lock-IsSound : (index : ℕ) (b : Bool) → Keeps IsSound (set_lock index b)
unfolding set_lock
lock-IsSound index b = search (Keeps-if, Keeps-undefined, put_lock-IsSound)

pub request-IsSound : (cause : ℕ) → Keeps IsSound (request_trap cause)
unfolding request_trap
request-IsSound cause = record {
  keep = λ s h. record {
    words = h.words;
    blocks = h.blocks;
    memory = h.memory;
    level = h.level;
    depth = h.depth;
    traps = λ c lt e. refl;
    suspensions = h.suspensions;
  };
}

pub store-IsSound : (pa n : ℕ) → Keeps IsSound (store pa n)
unfolding store
store-IsSound pa n = record {
  keep = λ s h. record {
    words = h.words;
    blocks = h.blocks;
    memory = λ i. ground (arith, h.memory i);
    level = h.level;
    depth = h.depth;
    traps = h.traps;
    suspensions = h.suspensions;
  };
}

pub checked_store-IsSound : (pa n : ℕ) → Keeps IsSound (checked_store pa n)
unfolding checked_store ◌>>=◌ get
checked_store-IsSound pa n = record {
  keep = λ s h.
      (Keeps-if (not s.ind.pr && s.mp pa) (request-IsSound trap_pm) (store-IsSound pa n)).keep s h;
}

pub write-IsSound : (va n : ℕ) → Keeps IsSound (write_word va n)
unfolding write_word bad_address
write-IsSound va n =
    search (Keeps-if, Keeps->>, Keeps-exit, request-IsSound, checked_store-IsSound) depth 8

pub acknowledge-IsSound : Keeps IsSound clear_traps
unfolding clear_traps
acknowledge-IsSound = record {
  keep = λ s h. record {
    words = h.words;
    blocks = h.blocks;
    memory = h.memory;
    level = h.level;
    depth = h.depth;
    traps = λ c lt e. cc;
    suspensions = h.suspensions;
  };
}

pub level-IsSound : (n : ℕ) → n < 32 → Keeps IsSound (set_curr_int_lvl n)
unfolding set_curr_int_lvl
level-IsSound n lt = record {
  keep = λ s h. record {
    words = h.words;
    blocks = h.blocks;
    memory = h.memory;
    level = lt;
    depth = h.depth;
    traps = h.traps;
    suspensions = h.suspensions;
  };
}

pub block-IsSound : (b n w : ℕ) → w < 65536 → Keeps IsSound (set_reg_block b n w)
unfolding set_reg_block
block-IsSound b n w lt = record {
  keep = λ s h. record {
    words = h.words;
    blocks = λ i j. ground (arith, h.blocks i j);
    memory = h.memory;
    level = h.level;
    depth = h.depth;
    traps = h.traps;
    suspensions = h.suspensions;
  };
}

no_cause_requested :
    (bits : ℕ → Bool) (c : ℕ) → mitra_resolve_trap_cause bits ≡ none → c < 6 → bits c ≡ true → ⊥
unfolding mitra_resolve_trap_cause
no_cause_requested bits zero e lt on = ground arith
no_cause_requested bits (suc zero) e lt on = ground arith
no_cause_requested bits (suc (suc zero)) e lt on = ground arith
no_cause_requested bits (suc (suc (suc zero))) e lt on = ground arith
no_cause_requested bits (suc (suc (suc (suc zero)))) e lt on = ground arith
no_cause_requested bits (suc (suc (suc (suc (suc zero))))) e lt on = ground arith
no_cause_requested bits (suc (suc (suc (suc (suc (suc c)))))) e lt on = omega arith

pub settle-IsSound :
    (s : CpuState)
    → IsSound s
    → (s.trap_pending ≡ false) ⊎ (mitra_resolve_trap_cause s.trp_req_bits ≡ none)
    → Ends IsSound (clear_trap_pending s)
unfolding clear_trap_pending
settle-IsSound s h why = record {
  words = h.words;
  blocks = h.blocks;
  memory = h.memory;
  level = h.level;
  depth = h.depth;
  traps = λ c lt e. elim why [
    | inl off ↦ let on = h.traps c lt e in cc
    | inr idle ↦ absurd (no_cause_requested s.trp_req_bits c idle lt e)
  ];
  suspensions = h.suspensions;
}
