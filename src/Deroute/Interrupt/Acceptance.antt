-- ===== src/Deroute/Interrupt/Acceptance.antt =====
-- `mitra_interrupt_accept` of Mitra/mitra_deroute.c on the path of the normal interrupt.
use mitra_15_for_simh.Prelude.{
  ℕ, ◌+◌, ◌*◌, ◌<◌, ◌≡◌, ◌≢◌, ◌∙◌, refl, true, false, leb, ◌==◌, arith, u16,
}
use mitra_15_for_simh.State.{CpuState, update, reg_p, reg_l, reg_g, reg_a, reg_e, reg_x}
use mitra_15_for_simh.Run.{M, done, ◌>>=◌, ◌>>◌, pure, modify}
use mitra_15_for_simh.Run.Steps.{
  Returns, get_returns, pure_returns, then_returns, returns_as, bind_done, then_done, bind_returns,
}
use mitra_15_for_simh.Memory.{word_index, is_odd, max_mem_words}
use mitra_15_for_simh.Memory.Laws.{read_returns, read_word_even}
use mitra_15_for_simh.Status.{Status, scpe_ok}
use mitra_15_for_simh.Deroute.{
  cpt_lookup, found, context_words, indicators_of, load_indicators_from_block, set_ind,
}
use mitra_15_for_simh.Deroute.Context.{
  HoldsContext, IsLoaded, AreWritable, stored_all, stored_all-HoldsContext, load_ctx-IsLoaded,
  save_context-returns,
}
use mitra_15_for_simh.Deroute.Interrupt.{
  mitra_interrupt_accept, accept_normal, then_clear, clear_pending, set_curr_int_lvl, load_level,
  with_context,
}

-- The CPT, whose address is in the word at byte 10, names an area for a level.
pub record IsLinked (level ptr : ℕ) (s : CpuState) : Type 0 where
  pub known : level < 32
  pub table : s.mem 5 < 32768
  pub table_even : is_odd (s.mem 5) ≡ false
  pub entry : s.mem (word_index (s.mem 5 + 2 * level)) ≡ ptr
  pub set : ptr ≢ 0
  pub inside : ptr < 32768

entry_even : (base level : ℕ) → is_odd base ≡ false → is_odd (base + 2 * level) ≡ false
entry_even base level h = ground arith

cpt_lookup-found :
    (level ptr : ℕ) (s : CpuState) → IsLinked level ptr s → cpt_lookup level s ≡ done (found ptr) s
unfolding cpt_lookup pure
cpt_lookup-found level ptr s h =
    let known : leb 32 level ≡ false = let lt = h.known in ground arith in
    let table : leb max_mem_words (s.mem 5) ≡ false = let lt = h.table in ground arith in
    let inside : leb max_mem_words ptr ≡ false = let lt = h.inside in ground arith in
    let set : (ptr == 0) ≡ false = let ne = h.set in ground arith in
    rw known (
      bind_done _ _ (read_word_even 10 s refl)
      ∙ rw table (
          bind_done _ _ (read_word_even _ s (entry_even (s.mem 5) level (h.table_even)))
          ∙ rw (h.entry, inside, set) refl))

with_context-returns :
    (level ptr : ℕ) (next : ℕ → M Status) (s : CpuState) {P : CpuState → Type 0}
    → IsLinked level ptr s
    → Returns (next ptr s) scpe_ok P
    → Returns (with_context level next s) scpe_ok P
unfolding with_context
with_context-returns level ptr next s link h =
    returns_as (bind_done _ _ (cpt_lookup-found level ptr s link)) h

-- The state in which the context of the current level has been saved, and the new level is current.
abbrev pub switched : (level old : ℕ) → CpuState → CpuState
switched level old s = record (stored_all (context_words old s) s) { curr_int_lvl = level }

-- What the acceptance of a level leaves: the context of the interrupted program in its area, and
-- the processor at the new level, with the indicators and registers of the new area and without
-- the request.
pub record IsAccepted (level old new : ℕ) (s t : CpuState) : Type 0 where
  pub saved : HoldsContext old s t
  pub current : t.curr_int_lvl ≡ level
  pub taken : t.intrpt_pending ≡ update s.intrpt_pending level false
  pub indicators : t.ind ≡ indicators_of (t.mem (word_index new))
  pub x : t.reg reg_x ≡ u16 (t.mem (word_index (new + 2)))
  pub e : t.reg reg_e ≡ u16 (t.mem (word_index (new + 4)))
  pub a : t.reg reg_a ≡ u16 (t.mem (word_index (new + 6)))
  pub g : t.reg reg_g ≡ u16 (t.mem (word_index (new + 8)))
  pub l : t.reg reg_l ≡ u16 (t.mem (word_index (new + 10)))
  pub p : t.reg reg_p ≡ u16 (t.mem (word_index (new + 12)))

-- The state with the indicators of an area.
abbrev flagged : ℕ → CpuState → CpuState
flagged new s = record s { ind = indicators_of (s.mem (word_index new)) }

load_returns :
    (word : ℕ) (k : M Status) (s : CpuState) {P : CpuState → Type 0}
    → Returns (k (record s { ind = indicators_of word })) scpe_ok P
    → Returns ((load_indicators_from_block word >> k) s) scpe_ok P
unfolding load_indicators_from_block set_ind modify ◌>>◌ ◌>>=◌
load_returns word k s h = h

load_level-IsLoaded :
    (new : ℕ) (s : CpuState)
    → is_odd new ≡ false
    → Returns (load_level new s) scpe_ok (IsLoaded new (flagged new s))
unfolding load_level
load_level-IsLoaded new s even = read_returns new _ s even (
    load_returns (s.mem (word_index new)) _ s
      (then_returns _ _ (load_ctx-IsLoaded new (flagged new s) even) λ v h. pure_returns v h))

level_returns :
    (level : ℕ) (k : M Status) (s : CpuState) {P : CpuState → Type 0}
    → Returns (k (record s { curr_int_lvl = level })) scpe_ok P
    → Returns ((set_curr_int_lvl level >> k) s) scpe_ok P
unfolding set_curr_int_lvl modify ◌>>◌ ◌>>=◌
level_returns level k s h = h

accept_normal-IsLoaded :
    (level old new : ℕ) (s : CpuState)
    → IsLinked (s.curr_int_lvl) old s
    → AreWritable s (context_words old s)
    → IsLinked level new (switched level old s)
    → is_odd new ≡ false
    → Returns (accept_normal level s) scpe_ok (IsLoaded new (flagged new (switched level old s)))
unfolding accept_normal
accept_normal-IsLoaded level old new s from free to even = get_returns _ _ (
    with_context-returns (s.curr_int_lvl) old _ s from (
      returns_as (then_done _ _ (save_context-returns old s free)) (
        level_returns level _ _ (
          with_context-returns level new load_level (switched level old s) to
            (load_level-IsLoaded new (switched level old s) even)))))

cleared : ℕ → CpuState → CpuState
cleared level t = record t { intrpt_pending = update t.intrpt_pending level false }

then_clear-returns :
    (level : ℕ) (t : CpuState) → then_clear level scpe_ok t ≡ done scpe_ok (cleared level t)
unfolding then_clear clear_pending cleared modify ◌>>◌ ◌>>=◌ pure
then_clear-returns level t = refl

same_requests :
    (old : ℕ) (s : CpuState)
    → (stored_all (context_words old s) s).intrpt_pending ≡ s.intrpt_pending
unfolding context_words
same_requests old s = refl

accepted :
    (level old new : ℕ) (s t : CpuState)
    → IsLoaded new (flagged new (switched level old s)) t
    → IsAccepted level old new s (cleared level t)
unfolding cleared
accepted level old new s t h =
    let held = stored_all-HoldsContext old s in
    let memory = h.memory in
    let requests = h.pending ∙ same_requests old s in
    record {
      saved = record {
        word_0 = rw memory (held.word_0);
        word_1 = rw memory (held.word_1);
        word_2 = rw memory (held.word_2);
        word_3 = rw memory (held.word_3);
        word_4 = rw memory (held.word_4);
        word_5 = rw memory (held.word_5);
        word_6 = rw memory (held.word_6);
      };
      current = h.level;
      taken = rw requests refl;
      indicators = rw memory (h.indicators);
      x = rw memory (h.x);
      e = rw memory (h.e);
      a = rw memory (h.a);
      g = rw memory (h.g);
      l = rw memory (h.l);
      p = rw memory (h.p);
    }

-- A pending interrupt of a level above the current one, with MA clear and no high-speed
-- interrupt, is accepted, where the CPT names an area below 32768 other than 0 for the current
-- level whose seven words may be written and, once these are written, an even one for the new
-- level: the area of the current level then holds the context of the interrupted program, and
-- the processor is at the new level, with the indicators and X, E, A, G, L and P of its area,
-- and without the request.
pub mitra_interrupt_accept-IsAccepted :
    (level old new : ℕ) (s : CpuState)
    → s.ind.ma ≡ false
    → s.intrpt_pending level ≡ true
    → s.curr_int_lvl < level
    → s.high_speed ≡ false
    → IsLinked (s.curr_int_lvl) old s
    → AreWritable s (context_words old s)
    → IsLinked level new (switched level old s)
    → is_odd new ≡ false
    → Returns (mitra_interrupt_accept level s) scpe_ok (IsAccepted level old new s)
unfolding mitra_interrupt_accept
mitra_interrupt_accept-IsAccepted level old new s open_ pending higher slow from free to even =
    let known : leb 32 level ≡ false = let lt = to.known in ground arith in
    let above : leb level (s.curr_int_lvl) ≡ false = ground arith in
    get_returns _ _ (
      simp (known, open_, pending, above, slow)
        (bind_returns _ _ (accept_normal-IsLoaded level old new s from free to even) λ t h.
          returns_as (then_clear-returns level t) (record {
            final = cleared level t;
            returns = refl;
            holds = accepted level old new s t h;
          })))
