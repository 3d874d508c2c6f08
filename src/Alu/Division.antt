-- ===== src/Alu/Division.antt =====
-- `div32` of Mitra/mitra_instr_utils.c on two's complement patterns: what it returns for operands
-- of equal and of different signs.
use mitra_15_for_simh.Prelude.{
  ℕ, ◌+◌, ◌-◌, ◌*◌, ◌/◌, ◌%◌, ◌<◌, ◌≤◌, ◌≡◌, ◌≢◌, not, refl, Bool, inl, inr, true, false, ltb, leb,
  ◌==◌, arith, Bool-cases, ◌&&◌, if◌then◌else◌,
}
use mitra_15_for_simh.Alu.{div32, quot16, rem16, signed_as, magnitude, divided, div_overflow}

-- The quotient of the magnitudes of a 32-bit dividend and a 16-bit divisor.
abbrev pub magnitude_quotient : (dividend divisor : ℕ) → ℕ
magnitude_quotient dividend divisor = magnitude 0x80000000 dividend / magnitude 32768 divisor

abbrev pub is_negative32 : ℕ → Bool
is_negative32 n = leb 0x80000000 n

abbrev pub is_negative16 : ℕ → Bool
is_negative16 n = leb 32768 n

-- The one pair of operands that the host cannot divide has a quotient of 2^31.
defined :
    (dividend divisor : ℕ)
    → magnitude_quotient dividend divisor < 65536
    → (dividend == 0x80000000 && divisor == 65535) ≡ false
defined dividend divisor small = elim (Bool-cases (dividend == 0x80000000)) [
  | inr other ↦ rw other refl
  | inl least ↦ elim (Bool-cases (divisor == 65535)) [
    | inr other ↦ rw (least, other) refl
    | inl minus_one ↦
        let e : dividend ≡ 0x80000000 = ground arith in
        let e' : divisor ≡ 65535 = ground arith in
        let large : 0x80000000 < 65536 = rw (e, e') at small in
        let absurd : ⊥ = omega arith in elim absurd [ ]
  ]
]

div32-by :
    (high low divisor q : ℕ) (b : Bool)
    → divisor ≢ 0
    → magnitude_quotient (high * 65536 + low) divisor < 65536
    → quot16 (high * 65536 + low) divisor ≡ q
    → ltb 32767 q ≡ b
    → div32 high low divisor
      ≡ (if b then div_overflow q else divided q (rem16 (high * 65536 + low) divisor))
unfolding div32
div32-by high low divisor q b nonzero small quotient test =
    let e : (divisor == 0) ≡ false = ground arith in
    rw (e, defined (high * 65536 + low) divisor small, quotient, test) refl

xor_same : (b c : Bool) → b ≡ c → (if b then not c else c) ≡ false
xor_same true true e = refl
xor_same false false e = refl
xor_same true false e = ground arith
xor_same false true e = ground arith

xor_other : (b c : Bool) → b ≢ c → (if b then not c else c) ≡ true
xor_other true true e = ground arith
xor_other false false e = ground arith
xor_other true false e = refl
xor_other false true e = refl

-- Operands of equal signs, with a divisor other than 0 and a quotient of at most 32767, are
-- divided exactly: the quotient is that of the magnitudes, and the remainder is that of the
-- magnitudes with the sign of the dividend.
pub div32-same_sign :
    (high low divisor : ℕ)
    → divisor ≢ 0
    → is_negative32 (high * 65536 + low) ≡ is_negative16 divisor
    → magnitude_quotient (high * 65536 + low) divisor < 32768
    → div32 high low divisor
      ≡ divided (magnitude_quotient (high * 65536 + low) divisor) (
          signed_as
            (is_negative32 (high * 65536 + low))
            (magnitude 0x80000000 (high * 65536 + low) % magnitude 32768 divisor))
unfolding quot16 rem16
div32-same_sign high low divisor nonzero same small =
    let sign = xor_same _ _ same in
    div32-by high low divisor _ false nonzero (omega arith) (rw sign (omega arith)) (ground arith)

-- Operands of different signs, with a divisor other than 0 and a quotient from -32768 to -1, are
-- always reported as an overflow, with the right quotient as a 16-bit pattern.
pub div32-other_sign :
    (high low divisor : ℕ)
    → divisor ≢ 0
    → is_negative32 (high * 65536 + low) ≢ is_negative16 divisor
    → 0 < magnitude_quotient (high * 65536 + low) divisor
    → magnitude_quotient (high * 65536 + low) divisor ≤ 32768
    → div32 high low divisor
      ≡ div_overflow (65536 - magnitude_quotient (high * 65536 + low) divisor)
unfolding quot16 rem16
div32-other_sign high low divisor nonzero other pos small =
    let sign = xor_other _ _ other in
    div32-by high low divisor _ true nonzero (omega arith) (rw sign (omega arith)) (ground arith)
