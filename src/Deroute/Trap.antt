-- ===== src/Deroute/Trap.antt =====
-- `mitra_trap` of Mitra/mitra_deroute.c: what a trap saves and where it goes.
use mitra_15_for_simh.Prelude.{
  ℕ, ◌+◌, ◌%◌, ◌<◌, ◌≡◌, ◌∙◌, refl, ap, sym, true, false, u16, leb, arith,
}
use mitra_15_for_simh.State.{CpuState, set_reg, reg_p, reg_l, reg_g}
use mitra_15_for_simh.Run.{done, ◌>>=◌, ◌>>◌, get, pure, modify, ◌≔◌}
use mitra_15_for_simh.Run.Steps.{Returns, get_returns, weaken_returns}
use mitra_15_for_simh.Memory.{word_index, is_odd, max_mem_words}
use mitra_15_for_simh.Memory.Laws.{is_refused, stored, read_returns, write_returns}
use mitra_15_for_simh.Status.{scpe_ok}
use mitra_15_for_simh.Deroute.{
  mitra_trap, call_supervisor, enter_supervisor, set_ind, clear_traps, with_cause, sub_word,
  g_prime, indicator_word,
}

-- What a trap with P at `pc` leaves: the cause, P and L relative to G' and the indicators in words
-- 1 to 4, and the state of the supervisor's section 0, which the PRTS names.
pub record IsTrapped (trap pc : ℕ) (s t : CpuState) : Type 0 where
  pub cause : t.mem 1 ≡ u16 (with_cause trap (s.mem 1))
  pub saved_p : t.mem 2 ≡ sub_word pc (g_prime s) % 32768
  pub saved_l : t.mem 3 ≡ sub_word (s.reg reg_l) (g_prime s) % 32768
  pub saved_ind : t.mem 4 ≡ u16 (indicator_word (s.ind))
  pub others : (i : ℕ) → 4 < i → t.mem i ≡ s.mem i
  pub program : t.reg reg_p ≡ (t.mem (word_index (t.mem 6)) + s.reg reg_g) % 32768
  pub local : t.reg reg_l ≡ (t.mem (word_index (t.mem 6 + 2)) + s.reg reg_g) % 32768
  pub master : t.ind.ms ≡ true
  pub key : t.ind.pr ≡ true
  pub masked : t.ind.ma ≡ true
  pub carry : t.ind.c ≡ s.ind.c
  pub overflow : t.ind.ov ≡ s.ind.ov
  pub acknowledged : t.trap_pending ≡ false

-- The call of section 0 through the PRTS at an address.
record IsCalled (ptr : ℕ) (s t : CpuState) : Type 0 where
  memory : t.mem ≡ s.mem
  program : t.reg reg_p ≡ (s.mem (word_index ptr) + s.reg reg_g) % 32768
  local : t.reg reg_l ≡ (s.mem (word_index (ptr + 2)) + s.reg reg_g) % 32768
  master : t.ind.ms ≡ true
  key : t.ind.pr ≡ true
  masked : t.ind.ma ≡ true
  carry : t.ind.c ≡ s.ind.c
  overflow : t.ind.ov ≡ s.ind.ov
  acknowledged : t.trap_pending ≡ false

cut : (m n : ℕ) → (m + n) % 32768 % 65536 ≡ (m + n) % 32768
cut m n = omega arith

entered : (p_base l_base : ℕ) → CpuState → CpuState
unfolding set_reg
entered p_base l_base s =
    let t = record s { ind = record (s.ind) { ms = true; pr = true; ma = true } } in
    let u = set_reg reg_l ((l_base + s.reg reg_g) % 32768) t in
    let v = set_reg reg_p ((p_base + s.reg reg_g) % 32768) u in
    record v { trap_pending = false; trp_req_bits = λ _. false }

enter-returns :
    (p_base l_base : ℕ) (s : CpuState)
    → enter_supervisor p_base l_base s ≡ done scpe_ok (entered p_base l_base s)
unfolding enter_supervisor set_ind clear_traps ◌≔◌ set_reg modify pure ◌>>=◌ ◌>>◌ get entered
enter-returns p_base l_base s = refl

call_supervisor-IsCalled :
    (ptr : ℕ) (s : CpuState)
    → is_odd ptr ≡ false
    → ptr < 32768
    → Returns (call_supervisor ptr s) scpe_ok (IsCalled ptr s)
unfolding call_supervisor entered set_reg
call_supervisor-IsCalled ptr s even small =
    let inside : leb max_mem_words ptr ≡ false = ground arith in
    let next : is_odd (ptr + 2) ≡ false = ground arith in
    rw inside (
      read_returns ptr _ _ even (
        read_returns (ptr + 2) _ _ next (record {
          final = entered (s.mem (word_index ptr)) (s.mem (word_index (ptr + 2))) s;
          returns = enter-returns _ _ s;
          holds = record {
            memory = refl;
            program = cut (s.mem (word_index ptr)) (s.reg reg_g);
            local = cut (s.mem (word_index (ptr + 2))) (s.reg reg_g);
            master = refl;
            key = refl;
            masked = refl;
            carry = refl;
            overflow = refl;
            acknowledged = refl;
          };
        })))

-- The state in which the supervisor is called.
abbrev trap_saved : (trap pc : ℕ) → CpuState → CpuState
trap_saved trap pc s = stored 4 (indicator_word (s.ind)) (
    stored 3 (sub_word (s.reg reg_l) (g_prime s) % 32768)
      (stored 2 (sub_word pc (g_prime s) % 32768) (stored 1 (with_cause trap (s.mem 1)) s)))

above_4 : (trap pc : ℕ) (s : CpuState) (i : ℕ) → 4 < i → (trap_saved trap pc s).mem i ≡ s.mem i
above_4 trap pc s i above = ground arith

trapped :
    (trap pc : ℕ) (s t : CpuState)
    → IsCalled (s.mem 6) (trap_saved trap pc s) t
    → IsTrapped trap pc s t
trapped trap pc s t h = record {
  cause = at 1;
  saved_p = at 2 ∙ small (sub_word pc (g_prime s));
  saved_l = at 3 ∙ small (sub_word (s.reg reg_l) (g_prime s));
  saved_ind = at 4;
  others = λ i above. at i ∙ above_4 trap pc s i above;
  program = h.program ∙ sym (moved λ n. n);
  local = h.local ∙ sym (moved λ n. n + 2);
  master = h.master;
  key = h.key;
  masked = h.masked;
  carry = h.carry;
  overflow = h.overflow;
  acknowledged = h.acknowledged;
}
  where
    at : (i : ℕ) → t.mem i ≡ (trap_saved trap pc s).mem i
    at i = ap (λ m. m i) (h.memory)

    small : (n : ℕ) → u16 (n % 32768) ≡ n % 32768
    small n = omega arith

    moved :
        (entry : ℕ → ℕ)
        → (t.mem (word_index (entry (t.mem 6))) + s.reg reg_g) % 32768
          ≡ ((trap_saved trap pc s).mem (word_index (entry (s.mem 6))) + s.reg reg_g) % 32768
    moved entry = rw (h.memory) refl

-- A trap whose four writes are not refused, with a PRTS pointer that is even and below 32768,
-- returns: words 1 to 4 hold the cause, P and L relative to G' and the indicators, words above 4
-- are as before, and the processor is master with PR and MA set, C and OV as before, at the P
-- and L of section 0 of the PRTS, with no trap pending.
pub mitra_trap-IsTrapped :
    (trap pc : ℕ) (s : CpuState)
    → is_refused 2 s ≡ false
    → is_refused 4 s ≡ false
    → is_refused 6 s ≡ false
    → is_refused 8 s ≡ false
    → is_odd (s.mem 6) ≡ false
    → s.mem 6 < 32768
    → Returns (mitra_trap trap pc s) scpe_ok (IsTrapped trap pc s)
unfolding mitra_trap
mitra_trap-IsTrapped trap pc s free_1 free_2 free_3 free_4 even small = read_returns 2 _ _ refl (
    write_returns 2 _ _ _ refl free_1 (
      get_returns _ _ (
        write_returns 4 _ _ _ refl free_2 (
          write_returns 6 _ _ _ refl free_3 (
            write_returns 8 _ _ _ refl free_4 (
              read_returns 12 _ _ refl (
                weaken_returns (call_supervisor-IsCalled (s.mem 6) _ even small)
                  (trapped trap pc s))))))))
