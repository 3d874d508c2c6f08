-- ===== src/Alu.antt =====
-- Mitra/mitra_instr_utils.c, the condition codes and the arithmetic of the 16-bit words. Where the
-- source writes its carry, overflow, quotient or remainder through a pointer, the model returns
-- it. A bit mask of one bit or of low bits is written with `/` and `%`.
pub mod Laws
pub mod Division
use mitra_15_for_simh.Prelude.{
  ℕ, ◌+◌, ◌-◌, ◌*◌, ◌/◌, ◌%◌, ◌^◌, Bool, true, false, not, ◌&&◌, ◌==◌, ltb, leb, if◌then◌else◌, u16,
  bit,
}
use mitra_15_for_simh.Run.{M, set_c_ov}

-- The bit `0x8000`.
abbrev pub sign : ℕ → ℕ
sign n = n / 32768 % 2

unfoldable pub set_condition_codes_load : ℕ → M (Unit {0})
set_condition_codes_load result = set_c_ov (bit (result == 0)) (sign result)

-- `(int16_t) a < (int16_t) b`.
unfoldable pub signed_lt : ℕ → ℕ → Bool
signed_lt m n = if sign m == sign n then ltb m n else sign m == 1

-- `(int16_t) acc == (int16_t) mem` compares the 16-bit patterns.
unfoldable pub set_condition_codes_compare : ℕ → ℕ → M (Unit {0})
set_condition_codes_compare acc mem =
    if acc == mem then set_c_ov 1 0 else if signed_lt acc mem then set_c_ov 0 1 else set_c_ov 0 0

unfoldable pub set_condition_codes_arithmetic : (result carry overflow : ℕ) → M (Unit {0})
set_condition_codes_arithmetic result carry overflow = set_c_ov carry overflow

pub data FpStatus : Type 0 where
  fp_ok fp_zero fp_overflow fp_underflow : FpStatus

unfoldable pub set_condition_codes_float : FpStatus → M (Unit {0})
set_condition_codes_float fp_overflow = set_c_ov 0 1
set_condition_codes_float fp_zero = set_c_ov 1 0
set_condition_codes_float fp_underflow = set_c_ov 1 1
set_condition_codes_float fp_ok = set_c_ov 0 0

pub record AluResult : Type 0 where
  pub result : ℕ
  pub carry : ℕ
  pub overflow : ℕ

-- The third argument is the carry that comes in.
unfoldable pub add16 : ℕ → ℕ → ℕ → AluResult
add16 m n carry =
    let sum = m + n + carry in
    let result = sum % 65536 in
    record {
      result = result;
      carry = sum / 65536 % 2;
      overflow = bit (sign m == sign n && not (sign m == sign result));
    }

-- The carry that comes in is not read: it only returns the borrow.
unfoldable pub sub16 : ℕ → ℕ → AluResult
sub16 m n =
    let result = (m + 65536 - n) % 65536 in
    record {
      result = result;
      carry = bit (ltb m n);
      overflow = bit (not (sign m == sign n) && not (sign m == sign result));
    }

unfoldable pub mul32 : ℕ → ℕ → record { high : ℕ; low : ℕ }
mul32 m n =
    let product = m * n % 2 ^ 32 in record { high = product / 65536 % 65536; low = product % 65536 }

-- What `div32` returns: -1; -2 after writing the quotient; 0 after writing both. The host traps
-- where the quotient does not fit int32_t.
pub data Quotient : Type 0 where
  div_by_zero : Quotient
  div_overflow : (quot : ℕ) → Quotient
  divided : (quot rem : ℕ) → Quotient
  div_undefined : Quotient

-- The absolute value of a two's complement pattern below `2 * half`, and its negation.
abbrev pub magnitude : ℕ → ℕ → ℕ
magnitude half n = if ltb n half then n else 2 * half - n

abbrev pub negate16 : ℕ → ℕ
negate16 n = (65536 - n % 65536) % 65536

-- `(uint16_t)(dividend / dvsr)` and `(uint16_t)(dividend % dvsr)`: the quotient is cut towards 0
-- and the remainder has the sign of the dividend.
abbrev pub signed_as : Bool → ℕ → ℕ
signed_as true n = negate16 n
signed_as false n = n % 65536

unfoldable pub quot16 : (dividend divisor : ℕ) → ℕ
quot16 dividend divisor =
    signed_as (if leb 0x80000000 dividend then not (leb 32768 divisor) else leb 32768 divisor)
      (magnitude 0x80000000 dividend / magnitude 32768 divisor)

unfoldable pub rem16 : (dividend divisor : ℕ) → ℕ
rem16 dividend divisor =
    signed_as (leb 0x80000000 dividend) (magnitude 0x80000000 dividend % magnitude 32768 divisor)

-- `*quot` is a uint16, so of the two tests for overflow only `*quot > INT16_MAX` can hold.
unfoldable pub div32 : (high low divisor : ℕ) → Quotient
unfolding quot16 rem16
div32 high low divisor =
    let dividend = high * 65536 + low in
    if divisor == 0
    then div_by_zero
    else if dividend == 0x80000000 && divisor == 65535
    then div_undefined
    else if ltb 32767 (quot16 dividend divisor)
    then div_overflow (quot16 dividend divisor)
    else divided (quot16 dividend divisor) (rem16 dividend divisor)
