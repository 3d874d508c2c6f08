-- ===== src/Tests/Numbers.antt =====
-- The arithmetic and the shifts on concrete words.
use mitra_15_for_simh.Prelude.{◌+◌, ◌*◌, ◌≡◌, refl, arith}
use mitra_15_for_simh.Alu.{add16, div32, div_overflow, divided}
use mitra_15_for_simh.Alu.Laws.{add16-carry}
use mitra_15_for_simh.Alu.Division.{div32-same_sign, div32-other_sign}
use mitra_15_for_simh.Shift.{shift_sas, shift_lcd, shift_rcd, normalize_loop, Single, Double}
use mitra_15_for_simh.Shift.Laws.{floor_div, shift_sas-floor_div}
use mitra_15_for_simh.Shift.Rotation.{shift_rcd-lcd}
use mitra_15_for_simh.Shift.Normalize.{IsNormalized, normalize_loop-IsNormalized}

-- -7 by -2 is 3, and the remainder is -1.
div32-same_sign_example : div32 65535 65529 65534 ≡ divided 3 65535
div32-same_sign_example = div32-same_sign 65535 65529 65534 (omega arith) refl (omega arith)

-- 7 by -2 is -3, and an overflow.
div32-other_sign_example : div32 0 7 65534 ≡ div_overflow 65533
div32-other_sign_example =
    div32-other_sign 0 7 65534 (omega arith) (ground arith) (omega arith) (omega arith)

abbrev word : Single
word = record { c = 0; val = 0x8421 }

abbrev pair : Double
pair = record { c = 0; e = 0x8001; a = 0x8003 }

shift_rcd-lcd_example :
    ((shift_rcd 5 (shift_lcd 5 pair)).e ≡ 0x8001) × ((shift_rcd 5 (shift_lcd 5 pair)).a ≡ 0x8003)
shift_rcd-lcd_example = shift_rcd-lcd 5 pair (omega arith) (omega arith)

normalize_loop-IsNormalized_example :
    IsNormalized 20 0x1234
      (normalize_loop 31 20 0x1234 0).word
      (normalize_loop 31 20 0x1234 0).steps
normalize_loop-IsNormalized_example =
    normalize_loop-IsNormalized 20 0x1234 (omega arith) (omega arith)

add16-carry_example :
    (add16 0xffff 0x8001 1).carry * 65536 + (add16 0xffff 0x8001 1).result ≡ 0xffff + 0x8001 + 1
add16-carry_example = add16-carry 0xffff 0x8001 1 (omega arith) (omega arith) (omega arith)

shift_sas-floor_div_example : (shift_sas 3 word).val ≡ floor_div 0x8421 3
shift_sas-floor_div_example = shift_sas-floor_div 3 word (omega arith)
