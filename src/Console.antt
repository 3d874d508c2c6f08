-- ===== src/Console.antt =====
-- The entry points of Mitra/mitra_cpu.c that the console of SIMH calls: reset, examine, deposit and
-- the memory size.
pub mod Size
pub mod History
use mitra_15_for_simh.Prelude.{
  ℕ, suc, ◌/◌, ◌%◌, ◌<◌, ◌≡◌, ◌==◌, refl, Bool, true, false, List, Option, leb, arith,
  if◌then◌else◌, u16, ap, inl, inr, Bool-cases,
}
use mitra_15_for_simh.State.{
  CpuState, update, reg_p, reg_l, reg_g, reg_a, reg_e, reg_x, reg_v, reg_w,
}
use mitra_15_for_simh.Run.{M, done, ◌>>=◌, ◌>>◌, get, pure, undefined_behaviour, modify, ◌≔◌}
use mitra_15_for_simh.Run.Steps.{Returns}
use mitra_15_for_simh.Status.{Status, scpe_ok, scpe_nxm, scpe_rel, scpe_ierr}
use mitra_15_for_simh.Memory.{max_mem_words, store}
use mitra_15_for_simh.Deroute.Interrupt.{set_j_reg}
use mitra_15_for_simh.Deroute.Suspension.{susp_stack_depth}
use mitra_15_for_simh.Device.Table.{Dib, io_init}

-- The fields that reset puts back; `susp_pending` and `intrpt_pending` are not among them.
unfoldable pub put_back : CpuState → CpuState
put_back s = record s {
  u = 0;
  ind = record { c = 0; ov = 0; ms = true; ma = false; pr = false };
  curr_int_lvl = 0;
  susp_req_bits = λ _. false;
  susp_stack_ptr = 0;
  trp_req_bits = λ _. false;
  trap_pending = false;
}

unfoldable pub clear_j_reg : M (Unit {0})
clear_j_reg = do
  s ← get
  if leb susp_stack_depth s.susp_stack_ptr then undefined_behaviour else set_j_reg 0

-- The state of the front panel, which reset clears too, is not part of the processor's.
unfoldable pub cpu_reset : List (Option Dib) → M Status
unfolding modify put_back clear_j_reg
cpu_reset devices = do
  reg_p ≔ 0
  reg_g ≔ 0
  reg_l ≔ 0
  reg_x ≔ 0
  reg_e ≔ 0
  reg_a ≔ 0
  clear_j_reg
  reg_w ≔ 0
  reg_v ≔ 0
  modify put_back
  pure (if (io_init devices).0 then scpe_ierr else scpe_ok)

-- `uint16 pa = addr >> 1`.
abbrev pub word_of : ℕ → ℕ
word_of addr = addr / 2 % 65536

-- The status, and the word where there is one. The two tests of the source leave the first status,
-- SCPE_REL, to indices above MAX_MEM_WORDS.
pub data Examined : Type 0 where
  word : ℕ → Examined
  not_read : Status → Examined

unfoldable pub cpu_ex : (addr : ℕ) → M Examined
cpu_ex addr = do
  s ← get
  if leb (suc max_mem_words) (word_of addr)
      then pure (not_read scpe_rel)
      else if leb max_mem_words (word_of addr)
      then pure (not_read scpe_nxm)
      else pure (word (s.mem (word_of addr) % 65536))

-- A deposit does not test the locks.
unfoldable pub cpu_dep : (val addr : ℕ) → M Status
unfolding store
cpu_dep val addr =
    if leb max_mem_words (word_of addr)
    then pure scpe_nxm
    else (do store (word_of addr) (val % 65536); pure scpe_ok)

cut : (n : ℕ) → u16 (n % 65536) % 65536 ≡ n % 65536
cut n = omega arith

abbrev deposited : (val addr : ℕ) → CpuState → CpuState
deposited val addr s = record s { mem = update s.mem (word_of addr) (u16 (val % 65536)) }

-- A deposit below byte address 65536 is accepted, and an examine of such an address then returns
-- the low 16 bits of the value where it names the same word, and what it returned before where
-- it names another word.
pub cpu_ex-cpu_dep :
    (val addr addr' : ℕ) (s : CpuState)
    → addr < 65536
    → addr' < 65536
    → Returns (cpu_dep val addr s) scpe_ok λ t. cpu_ex addr' t ≡ (
        if word_of addr' == word_of addr
        then done (word (val % 65536)) t
        else done (word (s.mem (word_of addr') % 65536)) t)
unfolding cpu_dep cpu_ex store modify ◌>>=◌ ◌>>◌ get pure
cpu_ex-cpu_dep val addr addr' s small small' =
    let inside : leb 32768 (word_of addr) ≡ false = ground arith in
    let inside' : leb 32768 (word_of addr') ≡ false = ground arith in
    let below : leb 32769 (word_of addr') ≡ false = ground arith in
    record {
      final = deposited val addr s;
      returns = rw inside refl;
      holds = elim (Bool-cases (word_of addr' == word_of addr)) [
        | inl same ↦
            rw (below, inside', same) (ap (λ n. done (word n) (deposited val addr s)) (cut val))
        | inr other ↦ rw (below, inside', other) refl
      ];
    }
