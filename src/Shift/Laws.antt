-- ===== src/Shift/Laws.antt =====
-- The shifts of Mitra/mitra_instr_utils.c against multiplication and division by a power of two.
use mitra_15_for_simh.Prelude.{
  ℕ, zero, suc, ◌+◌, ◌-◌, ◌*◌, ◌/◌, ◌%◌, ◌^◌, ◌<◌, ◌≡◌, refl, sym, inl, inr, ltb, Bool-cases,
  if◌then◌else◌, arith,
}
use native.Mathlib.Nat.{mul_assoc, div-div-eq-div-mul, mul-one, div-one, pow-suc}
use mitra_15_for_simh.Shift.{
  repeat, Single, Double, lls_step, rls_step, sas_step, lld_step, rld_step, shift_lls, shift_rls,
  shift_sas, shift_lld, shift_rld,
}

-- The last round of a counted loop.
pub repeat-suc {ℓ} :
    {S : Type ℓ} (n : ℕ) (step : S → S) (s : S) → repeat (suc n) step s ≡ step (repeat n step s)
unfolding repeat
repeat-suc zero step s = refl
repeat-suc (suc n) step s = repeat-suc n step (step s)

pub doubled : (v n : ℕ) → v * 2 ^ suc n ≡ v * 2 ^ n * 2
doubled v n = rw pow-suc (sym (mul_assoc v (2 ^ n) 2))

halved : (v n : ℕ) → v / 2 ^ suc n ≡ v / 2 ^ n / 2
halved v n = rw pow-suc (sym (div-div-eq-div-mul v (2 ^ n) 2))

lls-val : (n : ℕ) (s : Single) → s.val < 65536 → (repeat n lls_step s).val ≡ s.val * 2 ^ n % 65536
unfolding repeat lls_step
lls-val zero s h = rw mul-one (omega arith)
lls-val (suc n) s h =
    let last = lls-val n s h in rw (repeat-suc n lls_step s, last, doubled) (omega arith)

-- A left shift of a 16-bit word by one or more positions multiplies it by the power of two, and
-- C is the last bit that leaves: C and the word are the low 17 bits of the product.
pub shift_lls-product :
    (n : ℕ) (s : Single)
    → s.val < 65536
    → (shift_lls (suc n) s).c * 65536 + (shift_lls (suc n) s).val ≡ s.val * 2 ^ suc n % 131072
unfolding shift_lls lls_step
shift_lls-product n s h =
    let last = lls-val n s h in rw (repeat-suc n lls_step s, last, doubled) (omega arith)

rls-val : (n : ℕ) (s : Single) → (repeat n rls_step s).val ≡ s.val / 2 ^ n
unfolding repeat rls_step
rls-val zero s = sym (div-one (s.val))
rls-val (suc n) s =
    let last = rls-val n s in rw (repeat-suc n rls_step s, last, halved) (omega arith)

-- A right shift by one or more positions divides the word by the power of two, and C is the last
-- bit that leaves: with C as its last bit, the word is the quotient of one position less.
pub shift_rls-quotient :
    (n : ℕ) (s : Single) → (shift_rls (suc n) s).val * 2 + (shift_rls (suc n) s).c ≡ s.val / 2 ^ n
unfolding shift_rls rls_step
shift_rls-quotient n s = let last = rls-val n s in rw (repeat-suc n rls_step s, last) (omega arith)

sas_plus :
    (n : ℕ) (s : Single)
    → s.val < 32768
    → ((repeat n sas_step s).val ≡ s.val / 2 ^ n) × ((repeat n sas_step s).val < 32768)
unfolding repeat sas_step
sas_plus zero s h = (sym (div-one (s.val)), h)
sas_plus (suc n) s h =
    let last = sas_plus n s h in
    (rw (repeat-suc n sas_step s, halved) (omega arith), rw (repeat-suc n sas_step s) (omega arith))

sas_minus :
    (n : ℕ) (s : Single)
    → 32767 < s.val
    → s.val < 65536
    → ((repeat n sas_step s).val + (65535 - s.val) / 2 ^ n ≡ 65535)
      × (32767 < (repeat n sas_step s).val)
unfolding repeat sas_step
sas_minus zero s h lt = (rw div-one (omega arith), h)
sas_minus (suc n) s h lt =
    let last = sas_minus n s h lt in
    (rw (repeat-suc n sas_step s, halved) (omega arith), rw (repeat-suc n sas_step s) (omega arith))

-- The signed value of a word divided by a power of two, rounded down, as a word.
abbrev pub floor_div : (v n : ℕ) → ℕ
floor_div v n = if ltb v 32768 then v / 2 ^ n else 65535 - (65535 - v) / 2 ^ n

-- The arithmetic right shift of a 16-bit word divides its signed value by the power of two and
-- rounds down.
pub shift_sas-floor_div :
    (n : ℕ) (s : Single) → s.val < 65536 → (shift_sas n s).val ≡ floor_div (s.val) n
unfolding shift_sas
shift_sas-floor_div n s h = elim (Bool-cases (ltb (s.val) 32768)) [
  | inl plus ↦ let last = sas_plus n s (ground arith) in rw plus (last.0)
  | inr minus ↦ let last = sas_minus n s (ground arith) h in rw minus (omega arith)
]

-- The pair of registers (E, A) as a number of 32 bits.
abbrev pub double : Double → ℕ
double d = d.e * 65536 + d.a

lld-val :
    (n : ℕ) (d : Double)
    → d.e < 65536
    → d.a < 65536
    → (double (repeat n lld_step d) ≡ double d * 2 ^ n % 4294967296)
      × ((repeat n lld_step d).a < 65536)
unfolding repeat lld_step
lld-val zero d he ha = (rw mul-one (omega arith), ha)
lld-val (suc n) d he ha =
    let last = lld-val n d he ha in
    (
      rw (repeat-suc n lld_step d, doubled) (omega arith),
      rw (repeat-suc n lld_step d) (omega arith),
    )

-- The double left shift by one or more positions multiplies (E, A), both of 16 bits, by the
-- power of two: C, E and A are the low 33 bits.
pub shift_lld-product :
    (n : ℕ) (d : Double)
    → d.e < 65536
    → d.a < 65536
    → (shift_lld (suc n) d).c * 4294967296 + double (shift_lld (suc n) d)
      ≡ double d * 2 ^ suc n % 8589934592
unfolding shift_lld lld_step
shift_lld-product n d he ha =
    let last = lld-val n d he ha in rw (repeat-suc n lld_step d, doubled) (omega arith)

rld-val :
    (n : ℕ) (d : Double)
    → d.a < 65536
    → (double (repeat n rld_step d) ≡ double d / 2 ^ n) × ((repeat n rld_step d).a < 65536)
unfolding repeat rld_step
rld-val zero d ha = (sym (div-one (double d)), ha)
rld-val (suc n) d ha =
    let last = rld-val n d ha in
    (rw (repeat-suc n rld_step d, halved) (omega arith), rw (repeat-suc n rld_step d) (omega arith))

-- The double right shift by one or more positions divides (E, A), with A of 16 bits, by the
-- power of two, and C is the last bit that leaves.
pub shift_rld-quotient :
    (n : ℕ) (d : Double)
    → d.a < 65536
    → double (shift_rld (suc n) d) * 2 + (shift_rld (suc n) d).c ≡ double d / 2 ^ n
unfolding shift_rld rld_step
shift_rld-quotient n d ha = let last = rld-val n d ha in rw (repeat-suc n rld_step d) (omega arith)
