-- ===== src/Alu/Laws.antt =====
-- The 16-bit arithmetic of Mitra/mitra_instr_utils.c against the numbers that the words stand for.
use mitra_15_for_simh.Prelude.{ℕ, ◌+◌, ◌*◌, ◌%◌, ◌≤◌, ◌<◌, ◌≡◌, ◌↔◌, ltb, arith}
use native.Mathlib.Nat.{mul-le-mul}
use mitra_15_for_simh.Alu.{signed_lt, add16, sub16, mul32}

-- A two's complement word plus 32768: the order of the signed values as an order of numbers.
abbrev pub biased : ℕ → ℕ
biased n = (n + 32768) % 65536

-- For 16-bit operands and a carry of 0 or 1, `add16` is exact: the carry and the result are the
-- two digits of the sum in base 65536.
pub add16-carry :
    (m n carry : ℕ)
    → m < 65536
    → n < 65536
    → carry < 2
    → (add16 m n carry).carry * 65536 + (add16 m n carry).result ≡ m + n + carry
unfolding add16
add16-carry m n carry hm hn hc = omega arith

-- For 16-bit operands and a carry of 0 or 1, the overflow of `add16` is 0 exactly when the
-- signed sum fits 16 bits: with both operands biased by 32768, the sum is then from 32768 to
-- 98303.
pub add16-overflow :
    (m n carry : ℕ)
    → m < 65536
    → n < 65536
    → carry < 2
    → ((add16 m n carry).overflow ≡ 0)
      ↔ ((32767 < biased m + biased n + carry) × (biased m + biased n + carry < 98304))
unfolding add16
add16-overflow m n carry hm hn hc = (λ h. ground arith, λ h. ground arith)

-- For 16-bit operands, `sub16` is exact with its borrow: the result plus the subtrahend is the
-- minuend plus 65536 for a borrow.
pub sub16-borrow :
    (m n : ℕ) → m < 65536 → n < 65536 → (sub16 m n).result + n ≡ (sub16 m n).carry * 65536 + m
unfolding sub16
sub16-borrow m n hm hn = ground arith

-- For 16-bit operands, the overflow of `sub16` is 0 exactly when the signed difference is from
-- -32768 to 32767.
pub sub16-overflow :
    (m n : ℕ)
    → m < 65536
    → n < 65536
    → ((sub16 m n).overflow ≡ 0) ↔ ((biased n < biased m + 32769) × (biased m < biased n + 32768))
unfolding sub16
sub16-overflow m n hm hn = (λ h. ground arith, λ h. ground arith)

below_product : (m n : ℕ) → m < 65536 → n < 65536 → m * n < 4294967296
below_product m n hm hn =
    let left : m ≤ 65535 = omega arith in
    let right : n ≤ 65535 = omega arith in
    let le : m * n ≤ 65535 * 65535 = mul-le-mul left right in omega arith

-- The two words of `mul32` are the unsigned product of two 16-bit words.
pub mul32-product :
    (m n : ℕ) → m < 65536 → n < 65536 → (mul32 m n).high * 65536 + (mul32 m n).low ≡ m * n
unfolding mul32
mul32-product m n hm hn = let lt = below_product m n hm hn in omega arith

-- `signed_lt`, which decides the comparison of two 16-bit words, is the order of the signed
-- values.
pub signed_lt-biased : (m n : ℕ) → m < 65536 → n < 65536 → signed_lt m n ≡ ltb (biased m) (biased n)
unfolding signed_lt
signed_lt-biased m n hm hn = ground arith
