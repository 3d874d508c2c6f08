-- ===== src/Shift.antt =====
-- Mitra/mitra_instr_utils.c, the shifts. Each is a counted loop over one step; the carry
-- indicator, which the source writes into `cpu_state`, is part of what the loop carries.
pub mod Laws
pub mod Rotation
pub mod Normalize
use mitra_15_for_simh.Prelude.{ℕ, zero, suc, ◌+◌, ◌*◌, ◌/◌, ◌%◌, ◌&&◌, ◌==◌, ltb, if◌then◌else◌}
use mitra_15_for_simh.Alu.{sign}

-- `for (i = 0; i < count; i++) s = step(s);`
unfoldable pub repeat {ℓ} : {S : Type ℓ} → ℕ → (S → S) → S → S
repeat zero step s = s
repeat (suc n) step s = repeat n step (step s)

pub record Single : Type 0 where
  pub c : ℕ
  pub val : ℕ

pub record Double : Type 0 where
  pub c : ℕ
  pub e : ℕ
  pub a : ℕ

unfoldable pub lls_step : Single → Single
lls_step s = record { c = sign (s.val); val = s.val * 2 % 65536 }

unfoldable pub rls_step : Single → Single
rls_step s = record { c = s.val % 2; val = s.val / 2 }

unfoldable pub sas_step : Single → Single
sas_step s = record { c = s.val % 2; val = s.val / 2 + sign (s.val) * 32768 }

unfoldable pub srcs_step : Single → Single
srcs_step s = record { c = s.val % 2; val = s.val / 2 + s.val % 2 * 32768 }

unfoldable pub slcs_step : Single → Single
slcs_step s = record { c = sign (s.val); val = s.val * 2 % 65536 + sign (s.val) }

unfoldable pub shift_lls : ℕ → Single → Single
unfolding repeat lls_step
shift_lls count s = repeat count lls_step s

unfoldable pub shift_rls : ℕ → Single → Single
unfolding repeat rls_step
shift_rls count s = repeat count rls_step s

unfoldable pub shift_sas : ℕ → Single → Single
unfolding repeat sas_step
shift_sas count s = repeat count sas_step s

unfoldable pub shift_srcs : ℕ → Single → Single
unfolding repeat srcs_step
shift_srcs count s = repeat count srcs_step s

unfoldable pub shift_slcs : ℕ → Single → Single
unfolding repeat slcs_step
shift_slcs count s = repeat count slcs_step s

unfoldable pub lld_step : Double → Double
lld_step d = record { c = sign (d.e); e = d.e * 2 % 65536 + sign (d.a); a = d.a * 2 % 65536 }

unfoldable pub rld_step : Double → Double
rld_step d = record { c = d.a % 2; e = d.e / 2; a = d.a / 2 + d.e % 2 * 32768 }

unfoldable pub sad_step : Double → Double
sad_step d = record { c = d.a % 2; e = d.e / 2 + sign (d.e) * 32768; a = d.a / 2 + d.e % 2 * 32768 }

unfoldable pub lcd_step : Double → Double
lcd_step d = record {
  c = sign (d.e);
  e = d.e * 2 % 65536 + sign (d.a);
  a = d.a * 2 % 65536 + sign (d.e);
}

unfoldable pub rcd_step : Double → Double
rcd_step d = record { c = d.a % 2; e = d.e / 2 + d.a % 2 * 32768; a = d.a / 2 + d.e % 2 * 32768 }

unfoldable pub shift_lld : ℕ → Double → Double
unfolding repeat lld_step
shift_lld count d = repeat count lld_step d

unfoldable pub shift_rld : ℕ → Double → Double
unfolding repeat rld_step
shift_rld count d = repeat count rld_step d

unfoldable pub shift_sad : ℕ → Double → Double
unfolding repeat sad_step
shift_sad count d = repeat count sad_step d

unfoldable pub shift_lcd : ℕ → Double → Double
unfolding repeat lcd_step
shift_lcd count d = repeat count lcd_step d

unfoldable pub shift_rcd : ℕ → Double → Double
unfolding repeat rcd_step
shift_rcd count d = repeat count rcd_step d

-- The loop of `normalize` with the rounds that `steps < 31` leaves: the double word and the steps.
unfoldable pub normalize_loop : ℕ → (max_steps word steps : ℕ) → record { word : ℕ; steps : ℕ }
normalize_loop zero max_steps word steps = record { word = word; steps = steps }
normalize_loop (suc rounds) max_steps word steps =
    let rest = normalize_loop rounds max_steps (word * 2 % 0x100000000) (steps + 1) in
    if ltb steps max_steps && word / 0x80000000 % 2 == word / 0x40000000 % 2
    then rest
    else record { word = word; steps = steps }

pub record Parity : Type 0 where
  pub val : ℕ
  pub count : ℕ
  pub shifted_out : ℕ

unfoldable pub parity_step : Parity → Parity
parity_step s = record {
  val = s.val * 2 % 65536 + sign (s.val);
  count = s.count + sign (s.val);
  shifted_out = sign (s.val);
}
