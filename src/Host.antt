-- ===== src/Host.antt =====
-- What the instructions use and the repository does not implement, or implements device by device:
-- the C library's floating point, and the table of handlers for direct input and output.
use mitra_15_for_simh.Prelude.{ℕ, Bool, Option}
use mitra_15_for_simh.Run.{M}
use mitra_15_for_simh.Status.{Status}

-- An exponent of 16: a difference of numbers, since it may be negative.
pub record Exponent : Type 0 where
  pub plus : ℕ
  pub minus : ℕ

pub record Host : Type 1 where
  -- `double`, its arithmetic and its tests against 0.0.
  pub Double : Type 0
  pub of_nat : ℕ → Double
  pub d_add : Double → Double → Double
  pub d_sub : Double → Double → Double
  pub d_mul : Double → Double → Double
  pub d_div : Double → Double → Double
  pub d_neg : Double → Double
  pub d_is_zero : Double → Bool
  pub d_is_negative : Double → Bool
  -- `fabs`, `pow(16.0, n)`, `(int)floor(log(x) / log(16.0))` and `(uint64_t)llround`.
  pub fabs : Double → Double
  pub pow16 : Exponent → Double
  pub floor_log16 : Double → Exponent
  pub llround : Double → ℕ
  -- `dio_disp`: the handler of a mode, where a device has claimed the mode.
  pub dio_disp : ℕ → Option ((inst : ℕ) (is_write : Bool) → M Status)
