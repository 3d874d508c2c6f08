-- ===== src/Instr/Section/Supervisor.antt =====
-- CSV and RSV of Mitra/mitra_instr_utils.c: a call of a section of the supervisor, and the return.
use mitra_15_for_simh.Prelude.{
  ℕ, ◌+◌, ◌-◌, ◌*◌, ◌%◌, ◌<◌, ◌≤◌, ◌≡◌, ◌∙◌, refl, ap, true, false, leb, arith, u16, Bool, bit,
}
use mitra_15_for_simh.State.{CpuState, Indicators, reg_num, set_reg, reg_p, reg_l, reg_g}
use mitra_15_for_simh.Run.{M, ◌>>=◌, ◌>>◌, modify}
use mitra_15_for_simh.Run.Steps.{
  Returns, get_returns, assign_returns, assign_last, pure_returns, weaken_returns,
}
use mitra_15_for_simh.Memory.{word_index, is_odd}
use mitra_15_for_simh.Memory.Laws.{is_refused, stored, read_returns, write_returns}
use mitra_15_for_simh.Status.{Status, scpe_ok}
use mitra_15_for_simh.Deroute.{
  sub_word, set_indicators, indicators_of, load_indicators_from_block, set_ind,
}
use mitra_15_for_simh.Deroute.IndicatorWord.{indicators_of-set_indicators}
use mitra_15_for_simh.Deroute.Context.{IsWide}
use mitra_15_for_simh.Instr.Registers.{rsv}
use mitra_15_for_simh.Instr.Section.{csv_instr, enter_service, table_entry}

-- The first three words at G hold the P of a state less the two bytes of the instruction, its L,
-- both relative to G, and its indicators; G is that of the state.
pub record HoldsCaller (s t : CpuState) : Type 0 where
  pub base : t.reg reg_g ≡ s.reg reg_g
  pub saved_p :
      t.mem (word_index (t.reg reg_g)) ≡ (s.reg reg_p + 2 * 65536 - s.reg reg_g - 2) % 65536
  pub saved_l : t.mem (word_index (t.reg reg_g + 2)) ≡ sub_word (s.reg reg_l) (s.reg reg_g)
  pub saved_ind : t.mem (word_index (t.reg reg_g + 4)) ≡ set_indicators (s.ind)

-- The supervisor's section starts with this, as a master with PR, at the L and the P of its entry
-- in the PRTS.
pub record IsServing (section : ℕ) (s t : CpuState) : Type 0 where
  pub caller : HoldsCaller s t
  pub master : t.ind.ms ≡ true
  pub key : t.ind.pr ≡ true
  pub local : t.reg reg_l ≡ u16 (t.mem (word_index (table_entry (t.mem 6) section)))
  pub program : t.reg reg_p ≡ u16 (t.mem (word_index (table_entry (t.mem 6) section + 2)))

after : (k base : ℕ) → is_odd base ≡ false → is_odd (base + 2 * k) ≡ false
after k base h = ground arith

entry_even : (base n : ℕ) → is_odd base ≡ false → is_odd (table_entry base n) ≡ false
entry_even base n h = ground arith

ind_cut : (i : Indicators) → u16 (set_indicators i) ≡ set_indicators i
unfolding set_indicators
ind_cut i =
    let lt : (b : Bool) → bit b < 2 = λ b. ground arith in
    let hp = lt (i.pr) in let hma = lt (i.ma) in let hms = lt (i.ms) in ground arith

set_ind_returns :
    (i : Indicators) (k : M (Unit {0})) (s : CpuState) {P : CpuState → Type 0}
    → Returns (k (record s { ind = i })) tt P
    → Returns ((set_ind i >> k) s) tt P
unfolding set_ind modify ◌>>◌ ◌>>=◌
set_ind_returns i k s h = h

load_returns :
    (word : ℕ) (k : M Status) (s : CpuState) {P : CpuState → Type 0}
    → Returns (k (record s { ind = indicators_of word })) scpe_ok P
    → Returns ((load_indicators_from_block word >> k) s) scpe_ok P
unfolding load_indicators_from_block set_ind modify ◌>>◌ ◌>>=◌
load_returns word k s h = h

-- The section is entered: memory and G are as before.
record IsEntered (section : ℕ) (s t : CpuState) : Type 0 where
  memory : t.mem ≡ s.mem
  base : t.reg reg_g ≡ s.reg reg_g
  master : t.ind.ms ≡ true
  key : t.ind.pr ≡ true
  local : t.reg reg_l ≡ u16 (s.mem (word_index (table_entry (s.mem 6) section)))
  program : t.reg reg_p ≡ u16 (s.mem (word_index (table_entry (s.mem 6) section + 2)))

enter_service-IsEntered :
    (section : ℕ) (s : CpuState)
    → is_odd (s.mem 6) ≡ false
    → Returns (enter_service section s) tt (IsEntered section s)
unfolding enter_service set_reg reg_num
enter_service-IsEntered section s prts =
    let entry = entry_even (s.mem 6) section prts in
    get_returns _ _ (
      set_ind_returns _ _ _ (
        read_returns 12 _ _ refl (
          read_returns (table_entry (s.mem 6) section) _ _ entry (
            assign_returns reg_l _ _ _ (
              read_returns (table_entry (s.mem 6) section + 2) _ _ (after 1 _ entry) (
                assign_last reg_p _ _ (record {
                  memory = refl;
                  base = refl;
                  master = refl;
                  key = refl;
                  local = refl;
                  program = refl;
                })))))))

-- The memory behind the caller's link.
linked : CpuState → CpuState
linked s = stored (word_index (s.reg reg_g + 4)) (set_indicators (s.ind)) (
    stored (word_index (s.reg reg_g + 2)) (sub_word (s.reg reg_l) (s.reg reg_g))
      (stored (word_index (s.reg reg_g)) ((s.reg reg_p + 2 * 65536 - s.reg reg_g - 2) % 65536) s))

linked-prts : (s : CpuState) → 16 ≤ s.reg reg_g → s.reg reg_g < 32764 → (linked s).mem 6 ≡ s.mem 6
unfolding linked
linked-prts s low high = ground arith

linked-HoldsCaller : (s : CpuState) → HoldsCaller s (linked s)
unfolding linked
linked-HoldsCaller s = record {
  base = refl;
  saved_p = ground arith;
  saved_l = ground arith;
  saved_ind = let cut = ind_cut (s.ind) in ground arith;
}

is_serving : (section : ℕ) (s t : CpuState) → IsEntered section (linked s) t → IsServing section s t
unfolding linked
is_serving section s t h =
    let link = linked-HoldsCaller s in
    let memory = h.memory in
    let base = h.base in
    record {
      caller = record {
        base = base;
        saved_p = rw (memory, base) (link.saved_p);
        saved_l = rw (memory, base) (link.saved_l);
        saved_ind = rw (memory, base) (link.saved_ind);
      };
      master = h.master;
      key = h.key;
      local = h.local ∙ rw memory refl;
      program = h.program ∙ rw memory refl;
    }

enter_service-IsServing :
    (section : ℕ) (s : CpuState)
    → is_odd ((linked s).mem 6) ≡ false
    → Returns (enter_service section (linked s)) tt (IsServing section s)
enter_service-IsServing section s prts =
    weaken_returns (enter_service-IsEntered section (linked s) prts) λ t h. is_serving section s t h

-- CSV of a section below the limit in word 7, with an even G from 16 to 32763, with three writes
-- at G that are not refused and with an even PRTS pointer, returns as a master with PR at the L
-- and the P of the entry of the section in the PRTS, with G as before, and the first three words
-- at G hold the P, the L and the indicators of the caller.
pub csv_instr-IsServing :
    (section : ℕ) (s : CpuState)
    → leb (s.mem 7) section ≡ false
    → is_odd (s.reg reg_g) ≡ false
    → 16 ≤ s.reg reg_g
    → s.reg reg_g < 32764
    → is_refused (s.reg reg_g) s ≡ false
    → is_refused (s.reg reg_g + 2) s ≡ false
    → is_refused (s.reg reg_g + 4) s ≡ false
    → is_odd (s.mem 6) ≡ false
    → Returns (csv_instr section s) tt (IsServing section s)
unfolding csv_instr linked
csv_instr-IsServing section s inside even low high free free' free'' prts_even =
    let prts : is_odd ((linked s).mem 6) ≡ false = rw (linked-prts s low high) prts_even in
    get_returns _ _ (
      read_returns 14 _ s refl (
        rw inside (
          write_returns (s.reg reg_g) _ _ _ even free (
            write_returns (s.reg reg_g + 2) _ _ _ (after 1 _ even) free' (
              write_returns (s.reg reg_g + 4) _ _ _ (after 2 _ even) free''
                (enter_service-IsServing section s prts))))))

is_back :
    (s t : CpuState)
    → IsWide s
    → s.reg reg_p < 32768
    → s.reg reg_l < 32768
    → HoldsCaller s t
    → (u16 ((t.reg reg_g + 2 + t.mem (word_index (t.reg reg_g))) % 32768) ≡ s.reg reg_p)
      × ((u16 ((t.reg reg_g + t.mem (word_index (t.reg reg_g + 2))) % 32768) ≡ s.reg reg_l)
          × (indicators_of (t.mem (word_index (t.reg reg_g + 4))) ≡ s.ind))
is_back s t wide hp hl h =
    let base = h.base in
    let e = h.saved_p in
    let e' = h.saved_l in
    let small = wide.words reg_g in
    (
      omega arith,
      (
        omega arith,
        ap indicators_of (h.saved_ind)
            ∙ (indicators_of-set_indicators (s.ind) (wide.carry) (wide.overflow)).0,
      ),
    )

-- RSV, in a state with the G of the caller, which is even, and whose words at G hold the return
-- link of the caller, restores the P, the L and the indicators of the caller, where its
-- registers are of 16 bits, its P and L are below 32768 and its C and OV are 0 or 1.
pub rsv-HoldsCaller :
    (s t : CpuState)
    → is_odd (s.reg reg_g) ≡ false
    → IsWide s
    → s.reg reg_p < 32768
    → s.reg reg_l < 32768
    → HoldsCaller s t
    → Returns
        (rsv t)
        scpe_ok
        λ u. (u.reg reg_p ≡ s.reg reg_p) × ((u.reg reg_l ≡ s.reg reg_l) × (u.ind ≡ s.ind))
unfolding rsv load_indicators_from_block set_reg reg_num
rsv-HoldsCaller s t even wide hp hl h =
    let even' : is_odd (t.reg reg_g) ≡ false = rw (h.base) even in
    get_returns _ _ (
      read_returns (t.reg reg_g + 4) _ t (after 2 _ even') (
        load_returns _ _ _ (
          read_returns (t.reg reg_g + 2) _ _ (after 1 _ even') (
            assign_returns reg_l _ _ _ (
              read_returns (t.reg reg_g) _ _ even'
                (assign_returns reg_p _ _ _ (pure_returns _ (is_back s t wide hp hl h))))))))
