-- ===== src/Deroute/IndicatorWord.antt =====
-- The indicator word of Mitra/mitra_deroute.c: `set_indicators`, the word that traps and interrupts
-- save, and `load_indicators_from_block`.
use mitra_15_for_simh.Prelude.{
  ℕ, ◌+◌, ◌*◌, ◌/◌, ◌%◌, ◌<◌, ◌≡◌, ◌==◌, refl, Bool, true, false, bit, not, arith,
}
use mitra_15_for_simh.State.{Indicators}
use mitra_15_for_simh.Deroute.{set_indicators, indicator_word, indicators_of}

flag : (b : Bool) (n : ℕ) → n ≡ bit b → (n == 1) ≡ b
flag true n e = rw e refl
flag false n e = rw e refl

-- A word in which the five indicators have these bits.
fields :
    (pr ma ms : Bool) (c ov : ℕ)
    → c < 2
    → ov < 2
    → (n : ℕ) → n ≡ bit pr * 32768 + bit ma * 16384 + bit ms * 8192 + ov * 4096 + c * 2048
    → indicators_of n ≡ record { c = c; ov = ov; ms = ms; ma = ma; pr = pr }
unfolding indicators_of
fields pr ma ms c ov hc ho n e =
    let lt : (b : Bool) → bit b < 2 = λ b. ground arith in
    let hp = lt pr in
    let hma = lt ma in
    let hms = lt ms in
    let e_pr = flag pr (n / 32768 % 2) (omega arith) in
    let e_ma = flag ma (n / 16384 % 2) (omega arith) in
    let e_ms = flag ms (n / 8192 % 2) (omega arith) in
    let e_ov : n / 4096 % 2 ≡ ov = omega arith in
    let e_c : n / 2048 % 2 ≡ c = omega arith in
    λ i. record { c = e_c i; ov = e_ov i; ms = e_ms i; ma = e_ma i; pr = e_pr i }

-- Indicators whose C and OV are 0 or 1 are saved and loaded without loss, both in the word that
-- `set_indicators` builds and in the one that traps and interrupts save, since these are equal.
pub indicators_of-set_indicators :
    (i : Indicators)
    → i.c < 2
    → i.ov < 2
    → (indicators_of (set_indicators i) ≡ i) × (set_indicators i ≡ indicator_word i)
unfolding set_indicators indicator_word
indicators_of-set_indicators i hc ho =
    let e_ov : bit (not (i.ov == 0)) ≡ i.ov = ground arith in
    let e_c : bit (not (i.c == 0)) ≡ i.c = ground arith in
    (
      fields (i.pr) (i.ma) (i.ms) (i.c) (i.ov) hc ho _ (rw (e_ov, e_c) refl),
      rw (e_ov, e_c) (omega arith),
    )

-- The word that traps and interrupts save is loaded without loss too.
pub indicators_of-indicator_word :
    (i : Indicators) → i.c < 2 → i.ov < 2 → indicators_of (indicator_word i) ≡ i
indicators_of-indicator_word i hc ho =
    let both = indicators_of-set_indicators i hc ho in rw both.1 at both.0

pub indicator_word-lt : (i : Indicators) → indicator_word i < 65536
unfolding indicator_word
indicator_word-lt i =
    let lt : (b : Bool) → bit b < 2 = λ b. ground arith in
    let hp = lt (i.pr) in let hma = lt (i.ma) in let hms = lt (i.ms) in omega arith
