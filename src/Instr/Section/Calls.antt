-- ===== src/Instr/Section/Calls.antt =====
-- CLS and RTS of Mitra/mitra_instr_utils.c.
use mitra_15_for_simh.Prelude.{ℕ, ◌+◌, ◌-◌, ◌*◌, ◌%◌, ◌<◌, ◌≡◌, refl, false, arith}
use mitra_15_for_simh.State.{CpuState, reg_num, set_reg, reg_p, reg_l, reg_g}
use mitra_15_for_simh.Run.Steps.{Returns, get_returns, assign_returns, assign_last, pure_returns}
use mitra_15_for_simh.Memory.{word_index, is_odd}
use mitra_15_for_simh.Memory.Laws.{is_refused, stored, read_returns, write_returns}
use mitra_15_for_simh.Status.{scpe_ok}
use mitra_15_for_simh.Deroute.{sub_word, g_prime}
use mitra_15_for_simh.Instr.Registers.{rts}
use mitra_15_for_simh.Instr.Section.{call_section, table_entry}

-- The entry of a section in the table below G, and the LDS that it names.
abbrev pub entry_of : ℕ → CpuState → ℕ
entry_of section s = table_entry (s.reg reg_g) (section % 65536)

abbrev pub lds_of : ℕ → CpuState → ℕ
lds_of section s = (s.mem (word_index (entry_of section s)) + s.reg reg_g) % 65536

-- The first two words of the LDS in L hold the P of a state, less the two bytes of the instruction,
-- and its L, both relative to G', and G and MS are those of that state.
pub record HoldsReturn (s t : CpuState) : Type 0 where
  pub even : is_odd (t.reg reg_l) ≡ false
  pub saved_p : t.mem (word_index (t.reg reg_l)) ≡ (s.reg reg_p + 2 * 65536 - 2 - g_prime s) % 65536
  pub saved_l : t.mem (word_index (t.reg reg_l + 2)) ≡ sub_word (s.reg reg_l) (g_prime s)
  pub base : t.reg reg_g ≡ s.reg reg_g
  pub mode : t.ind.ms ≡ s.ind.ms

-- A called section starts with this in its LDS, at the P of its entry in the table.
pub record IsEntered (section : ℕ) (s t : CpuState) : Type 0 where
  pub link : HoldsReturn s t
  pub local : t.reg reg_l ≡ lds_of section s
  pub program :
      t.reg reg_p ≡ (s.mem (word_index ((entry_of section s + 2) % 65536)) + s.reg reg_g) % 65536

entered-even : (n : ℕ) → is_odd n ≡ false → is_odd (n + 2) ≡ false
entered-even n h = ground arith

entered-next : (n : ℕ) → is_odd n ≡ false → is_odd ((n + 2) % 65536) ≡ false
entered-next n h = ground arith

-- The state in which a called section starts.
entered : ℕ → CpuState → CpuState
entered section s =
    let saved_p =
      stored (word_index (lds_of section s)) ((s.reg reg_p + 2 * 65536 - 2 - g_prime s) % 65536)
        s in
    let saved_l =
      stored (word_index (lds_of section s + 2)) (sub_word (s.reg reg_l) (g_prime s)) saved_p in
    set_reg reg_p (s.mem (word_index ((entry_of section s + 2) % 65536)) + s.reg reg_g)
      (set_reg reg_l (lds_of section s) saved_l)

is_entered :
    (section : ℕ) (s : CpuState)
    → is_odd (lds_of section s) ≡ false
    → IsEntered section s (entered section s)
unfolding entered set_reg reg_num
is_entered section s even =
    let same : lds_of section s % 65536 ≡ lds_of section s = omega arith in
    record {
      link = record {
        even = rw same even;
        saved_p = rw same (ground arith);
        saved_l = rw same (ground arith);
        base = refl;
        mode = refl;
      };
      local = same;
      program = refl;
    }

relative_back :
    (n base k : ℕ)
    → n < 65536
    → base < 65536
    → k < 3
    → ((n + 2 * 65536 - k - base) % 65536 + base + k) % 65536 ≡ n
relative_back n base k hn hb hk = omega arith

g_prime-lt : (s : CpuState) → s.reg reg_g < 65536 → g_prime s < 65536
g_prime-lt s h = ground arith

is_back :
    (s t : CpuState)
    → s.reg reg_p < 65536
    → s.reg reg_l < 65536
    → s.reg reg_g < 65536
    → HoldsReturn s t
    → let saved_p = t.mem (word_index (t.reg reg_l)) in
      let saved_l = t.mem (word_index (t.reg reg_l + 2)) in
      ((saved_p + g_prime t + 2) % 65536 ≡ s.reg reg_p)
      × ((saved_l + g_prime t) % 65536 ≡ s.reg reg_l)
is_back s t hp hl hg h =
    let base : g_prime t ≡ g_prime s = rw (h.mode, h.base) refl in
    let small = g_prime-lt s hg in
    let e = h.saved_p in let e' = h.saved_l in (omega arith, omega arith)

-- CLS, where the entry of the section and its LDS are at even addresses and the two writes are
-- not refused, returns in the called section: at the P of its entry, with L at its LDS, whose
-- first two words hold the return link, and with G and MS as before.
pub call_section-IsEntered :
    (section : ℕ) (s : CpuState)
    → is_odd (entry_of section s) ≡ false
    → is_odd (lds_of section s) ≡ false
    → is_refused (lds_of section s) s ≡ false
    → is_refused (lds_of section s + 2) s ≡ false
    → Returns (call_section section s) tt (IsEntered section s)
unfolding call_section entered
call_section-IsEntered section s even lds_even free free' = get_returns _ _ (
    read_returns (entry_of section s) _ s even (
      read_returns ((entry_of section s + 2) % 65536) _ s (entered-next _ even) (
        write_returns (lds_of section s) _ _ _ lds_even free (
          write_returns (lds_of section s + 2) _ _ _ (entered-even _ lds_even) free'
            (assign_returns reg_l _ _ _ (assign_last reg_p _ _ (is_entered section s lds_even)))))))

-- RTS, in a state with the G and MS of the call and whose LDS holds the return link of the call,
-- returns to the P and the L of the call, where these and G are 16-bit words.
pub rts-HoldsReturn :
    (s t : CpuState)
    → s.reg reg_p < 65536
    → s.reg reg_l < 65536
    → s.reg reg_g < 65536
    → HoldsReturn s t
    → Returns (rts t) scpe_ok λ u. (u.reg reg_p ≡ s.reg reg_p) × (u.reg reg_l ≡ s.reg reg_l)
unfolding rts set_reg reg_num
rts-HoldsReturn s t hp hl hg h = get_returns _ _ (
    read_returns (t.reg reg_l) _ t (h.even) (
      read_returns (t.reg reg_l + 2) _ t (entered-even _ (h.even)) (
        assign_returns reg_p _ _ _
          (assign_returns reg_l _ _ _ (pure_returns _ (is_back s t hp hl hg h))))))
