-- ===== src/Deroute/Context.antt =====
-- The context area of an interrupt level: what `mitra_interrupt_accept` saves in it and what is
-- loaded from it.
use mitra_15_for_simh.Prelude.{
  ℕ, ◌+◌, ◌*◌, ◌<◌, ◌≡◌, ◌∙◌, refl, ap, false, u16, arith, Bool, bit, List, [], ◌∷◌,
}
use mitra_15_for_simh.Deroute.IndicatorWord.{indicators_of-indicator_word}
use mitra_15_for_simh.State.{
  Indicators, CpuState, Reg, set_reg, reg_p, reg_l, reg_g, reg_a, reg_e, reg_x,
}
use mitra_15_for_simh.Run.{done, ◌>>=◌, get, pure, modify, ◌≔◌}
use mitra_15_for_simh.Run.Steps.{then_done, Returns}
use mitra_15_for_simh.Memory.{word_index, is_odd}
use mitra_15_for_simh.Memory.Laws.{is_refused, stored, write_word_free, read_returns}
use mitra_15_for_simh.Status.{scpe_ok}
use mitra_15_for_simh.Deroute.Interrupt.{load_level}
use mitra_15_for_simh.Run.Steps.{assign_returns, pure_returns, then_returns}
use mitra_15_for_simh.Deroute.{
  save_context, write_all, context_words, load_ctx_from_mem, indicator_word, indicators_of, set_ind,
  load_indicators_from_block,
}

-- Every write of a list is to an even address whose word is not refused.
abbrev pub AreWritable : CpuState → List (ℕ × ℕ) → Type 0
AreWritable s [] = Unit
AreWritable s ((va, val) ∷ writes) =
    ((is_odd va ≡ false) × (is_refused va s ≡ false)) × AreWritable s writes

-- The state after the writes of a list.
abbrev pub stored_all : List (ℕ × ℕ) → CpuState → CpuState
stored_all [] s = s
stored_all ((va, val) ∷ writes) s = stored_all writes (stored (word_index va) val s)

later :
    (va val : ℕ) (s : CpuState) (writes : List (ℕ × ℕ))
    → AreWritable s writes
    → AreWritable (stored (word_index va) val s) writes
later va val s [] h = tt
later va val s ((va', val') ∷ writes) h = (h.0, later va val s writes (h.1))

pub write_all-returns :
    (writes : List (ℕ × ℕ)) (s : CpuState)
    → AreWritable s writes
    → write_all writes s ≡ done tt (stored_all writes s)
unfolding write_all pure
write_all-returns [] s h = refl
write_all-returns ((va, val) ∷ writes) s h =
    then_done _ (write_all writes) (write_word_free va val s (h.0.0) (h.0.1))
    ∙ write_all-returns writes (stored (word_index va) val s) (later va val s writes (h.1))

-- The memory holds the context of a state in the area at an address.
pub record HoldsContext (ptr : ℕ) (s t : CpuState) : Type 0 where
  pub word_0 : t.mem (word_index ptr) ≡ u16 (indicator_word (s.ind))
  pub word_1 : t.mem (word_index (ptr + 2)) ≡ u16 (s.reg reg_x)
  pub word_2 : t.mem (word_index (ptr + 4)) ≡ u16 (s.reg reg_e)
  pub word_3 : t.mem (word_index (ptr + 6)) ≡ u16 (s.reg reg_a)
  pub word_4 : t.mem (word_index (ptr + 8)) ≡ u16 (s.reg reg_g)
  pub word_5 : t.mem (word_index (ptr + 10)) ≡ u16 (s.reg reg_l)
  pub word_6 : t.mem (word_index (ptr + 12)) ≡ u16 (s.reg reg_p)

pub stored_all-HoldsContext :
    (ptr : ℕ) (s : CpuState) → HoldsContext ptr s (stored_all (context_words ptr s) s)
unfolding context_words
stored_all-HoldsContext ptr s = record {
  word_0 = ground arith;
  word_1 = ground arith;
  word_2 = ground arith;
  word_3 = ground arith;
  word_4 = ground arith;
  word_5 = ground arith;
  word_6 = ground arith;
}

pub save_context-returns :
    (ptr : ℕ) (s : CpuState)
    → AreWritable s (context_words ptr s)
    → save_context ptr s ≡ done tt (stored_all (context_words ptr s) s)
unfolding save_context ◌>>=◌ get
save_context-returns ptr s h = write_all-returns (context_words ptr s) s h

-- Saving the context of a level in an area at an even address whose words are not refused
-- returns, and the seven words of the area then hold the indicators and X, E, A, G, L and P,
-- wherever in the memory the area lies.
pub save_context-HoldsContext :
    (ptr : ℕ) (s : CpuState)
    → AreWritable s (context_words ptr s)
    → Returns (save_context ptr s) tt (HoldsContext ptr s)
unfolding save_context ◌>>=◌ get
save_context-HoldsContext ptr s h = record {
  final = stored_all (context_words ptr s) s;
  returns = write_all-returns (context_words ptr s) s h;
  holds = stored_all-HoldsContext ptr s;
}

-- The indicators and the six saved registers of a state are those of another.
pub record IsRestored (s t : CpuState) : Type 0 where
  pub indicators : t.ind ≡ s.ind
  pub x : t.reg reg_x ≡ s.reg reg_x
  pub e : t.reg reg_e ≡ s.reg reg_e
  pub a : t.reg reg_a ≡ s.reg reg_a
  pub g : t.reg reg_g ≡ s.reg reg_g
  pub l : t.reg reg_l ≡ s.reg reg_l
  pub p : t.reg reg_p ≡ s.reg reg_p

still_even : (ptr k : ℕ) → is_odd ptr ≡ false → is_odd (ptr + 2 * k) ≡ false
still_even ptr k h = ground arith

-- The six registers are words of the area, and nothing else has changed that the restored state
-- is about.
pub record IsLoaded (ptr : ℕ) (s t : CpuState) : Type 0 where
  pub memory : t.mem ≡ s.mem
  pub level : t.curr_int_lvl ≡ s.curr_int_lvl
  pub pending : t.intrpt_pending ≡ s.intrpt_pending
  pub indicators : t.ind ≡ s.ind
  pub x : t.reg reg_x ≡ u16 (s.mem (word_index (ptr + 2)))
  pub e : t.reg reg_e ≡ u16 (s.mem (word_index (ptr + 4)))
  pub a : t.reg reg_a ≡ u16 (s.mem (word_index (ptr + 6)))
  pub g : t.reg reg_g ≡ u16 (s.mem (word_index (ptr + 8)))
  pub l : t.reg reg_l ≡ u16 (s.mem (word_index (ptr + 10)))
  pub p : t.reg reg_p ≡ u16 (s.mem (word_index (ptr + 12)))

pub load_ctx-IsLoaded :
    (ptr : ℕ) (s : CpuState)
    → is_odd ptr ≡ false
    → Returns (load_ctx_from_mem ptr s) tt (IsLoaded ptr s)
unfolding load_ctx_from_mem set_reg ◌≔◌
load_ctx-IsLoaded ptr s even = read_returns (ptr + 2) _ _ (still_even ptr 1 even) (
    assign_returns reg_x _ _ _ (
      read_returns (ptr + 4) _ _ (still_even ptr 2 even) (
        assign_returns reg_e _ _ _ (
          read_returns (ptr + 6) _ _ (still_even ptr 3 even) (
            assign_returns reg_a _ _ _ (
              read_returns (ptr + 8) _ _ (still_even ptr 4 even) (
                assign_returns reg_g _ _ _ (
                  read_returns (ptr + 10) _ _ (still_even ptr 5 even) (
                    assign_returns reg_l _ _ _ (
                      read_returns (ptr + 12) _ _ (still_even ptr 6 even) (record {
                        final = _;
                        returns = refl;
                        holds = record {
                          memory = refl;
                          level = refl;
                          pending = refl;
                          indicators = refl;
                          x = refl;
                          e = refl;
                          a = refl;
                          g = refl;
                          l = refl;
                          p = refl;
                        };
                      })))))))))))

-- The registers are of 16 bits, and C and OV are bits.
pub record IsWide (s : CpuState) : Type 0 where
  pub words : (r : Reg) → s.reg r < 65536
  pub carry : s.ind.c < 2
  pub overflow : s.ind.ov < 2

word_lt : (i : Indicators) → u16 (indicator_word i) ≡ indicator_word i
unfolding indicator_word
word_lt i =
    let lt : (b : Bool) → bit b < 2 = λ b. ground arith in
    let hp = lt (i.pr) in let hma = lt (i.ma) in let hms = lt (i.ms) in omega arith

indicators_returns :
    (word : ℕ) (s : CpuState)
    → Returns
        (load_indicators_from_block word s)
        tt
        (λ t. (t.ind ≡ indicators_of word) × (t.mem ≡ s.mem))
unfolding load_indicators_from_block set_ind modify
indicators_returns word s = record { final = _; returns = refl; holds = (refl, refl) }

word_of :
    (n : ℕ) (m m' : ℕ → ℕ) (i k : ℕ) → n ≡ u16 (m' i) → m' ≡ m → m i ≡ u16 k → k < 65536 → n ≡ k
word_of n m m' i k e same held lt = let e' : m' i ≡ m i = ap (λ f. f i) same in omega arith

restored :
    (ptr : ℕ) (s t u v : CpuState)
    → IsWide s
    → HoldsContext ptr s t
    → (u.ind ≡ indicators_of (t.mem (word_index ptr))) × (u.mem ≡ t.mem)
    → IsLoaded ptr u v
    → IsRestored s v
restored ptr s t u v wide h hu hv = record {
  indicators =
      hv.indicators
      ∙ hu.0
      ∙ ap indicators_of (h.word_0 ∙ word_lt (s.ind))
      ∙ indicators_of-indicator_word (s.ind) (wide.carry) (wide.overflow);
  x = word_of _ (t.mem) (u.mem) _ _ (hv.x) (hu.1) (h.word_1) (wide.words reg_x);
  e = word_of _ (t.mem) (u.mem) _ _ (hv.e) (hu.1) (h.word_2) (wide.words reg_e);
  a = word_of _ (t.mem) (u.mem) _ _ (hv.a) (hu.1) (h.word_3) (wide.words reg_a);
  g = word_of _ (t.mem) (u.mem) _ _ (hv.g) (hu.1) (h.word_4) (wide.words reg_g);
  l = word_of _ (t.mem) (u.mem) _ _ (hv.l) (hu.1) (h.word_5) (wide.words reg_l);
  p = word_of _ (t.mem) (u.mem) _ _ (hv.p) (hu.1) (h.word_6) (wide.words reg_p);
}

-- Loading a level from an area at an even address that holds the context of a state returns, and
-- restores the indicators and X, E, A, G, L and P of that state, where its registers are of 16
-- bits and its C and OV are 0 or 1.
pub load_level-IsRestored :
    (ptr : ℕ) (s t : CpuState)
    → is_odd ptr ≡ false
    → IsWide s
    → HoldsContext ptr s t
    → Returns (load_level ptr t) scpe_ok (IsRestored s)
unfolding load_level
load_level-IsRestored ptr s t even wide h = read_returns ptr _ _ even (
    then_returns _ _ (indicators_returns (t.mem (word_index ptr)) t) λ u hu.
      then_returns _ _ (load_ctx-IsLoaded ptr u even)
        λ v hv. pure_returns v (restored ptr s t u v wide h hu hv))
