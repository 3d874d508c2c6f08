-- ===== src/Instr/Float.antt =====
-- The floating-point instructions FAD, FSU, FMU and FDV, over the double arithmetic of the host.
use mitra_15_for_simh.Prelude.{
  ℕ, ◌+◌, ◌-◌, ◌*◌, ◌/◌, ◌%◌, ◌&&◌, [], ◌∷◌, ◌==◌, leb, if◌then◌else◌, switch,
}
use mitra_15_for_simh.State.{reg_a, reg_e}
use mitra_15_for_simh.Run.{M, ◌>>=◌, ◌>>◌, pure, get, ◌≔◌}
use mitra_15_for_simh.Memory.{read_word, trap_ii}
use mitra_15_for_simh.Alu.{
  FpStatus, fp_ok, fp_zero, fp_overflow, fp_underflow, set_condition_codes_float,
}
use mitra_15_for_simh.Status.{Status, scpe_ok, mm_invins, code}
use mitra_15_for_simh.Host.{Host}

pub record Converted : Type 0 where
  pub status : FpStatus
  pub e : ℕ
  pub a : ℕ

-- The 32-bit pattern of a conversion that succeeds, or its two's complement.
abbrev pub negate32 : ℕ → ℕ
negate32 n = (0x100000000 - n % 0x100000000) % 0x100000000

module _ (host : Host) where
  open host use {Double}

  unfoldable pub mitra_to_double : (a e : ℕ) → Double
  mitra_to_double a e =
      let raw = e * 65536 + a in
      let negative = raw / 0x80000000 % 2 == 1 in
      let positive = if negative then negate32 raw else raw in
      let characteristic = positive / 0x1000000 % 128 in
      let m = host.d_div (host.of_nat (positive % 0x1000000)) (host.of_nat 16777216) in
      let value = host.d_mul m (host.pow16 (record { plus = characteristic; minus = 64 })) in
      if raw == 0 then host.of_nat 0 else if negative then host.d_neg value else value

  -- `e + 64 <= 0` and `e + 64 >= 127`, where `e` is one more than the floor of the logarithm.
  unfoldable pub double_to_mitra : Double → Converted
  double_to_mitra v =
      let x = host.fabs v in
      let n = host.floor_log16 x in
      let plus = n.plus + 1 in
      let minus = n.minus in
      let m = host.d_div x (host.pow16 (record { plus = plus; minus = minus })) in
      let mant = host.llround (host.d_mul m (host.of_nat 16777216)) in
      let rounds_up = leb 16777216 mant in
      let plus' = if rounds_up then plus + 1 else plus in
      let mant' = if rounds_up then 1048576 else mant in
      let magnitude = (plus' + 64 - minus) * 0x1000000 + mant' % 0x1000000 in
      let raw = if host.d_is_negative v then negate32 magnitude else magnitude in
      if host.d_is_zero v
      then record { status = fp_zero; e = 0; a = 0 }
      else if leb (plus + 64) minus
      then record { status = fp_underflow; e = 0; a = 0 }
      else if leb (minus + 127) (plus + 64)
      then record { status = fp_overflow; e = 0; a = 0 }
      else if rounds_up && leb (minus + 127) (plus' + 64)
      then record { status = fp_overflow; e = 0; a = 0 }
      else record { status = fp_ok; e = raw / 65536 % 65536; a = raw % 65536 }

  -- The result goes to E and A, and its status to the condition codes.
  unfoldable pub store_double : Double → M Status
  unfolding double_to_mitra
  store_double r = do
    let st = double_to_mitra r
    reg_e ≔ st.e
    reg_a ≔ st.a
    set_condition_codes_float st.status
    pure scpe_ok

  unfoldable pub with_operands : ℕ → (Double → Double → M Status) → M Status
  unfolding mitra_to_double
  with_operands target_address next = do
    s ← get
    op_a ← read_word ((target_address + 2) % 65536)
    op_e ← read_word target_address
    next (mitra_to_double (s.reg reg_a) (s.reg reg_e)) (mitra_to_double op_a op_e)

  -- A divisor of 0.0 is refused before the division.
  unfoldable pub divide_unless_zero : Double → Double → M Status
  divide_unless_zero m n =
      if host.d_is_zero n then pure (code trap_ii) else store_double (host.d_div m n)

  unfoldable pub floating_inst : (inst target_address : ℕ) → M Status
  unfolding with_operands store_double divide_unless_zero
  floating_inst inst target_address = do
    s ← get
    switch (inst / 256 % 16)
        ((
          0x0a,
          (if s.flags.fp
              then with_operands target_address (λ m n. store_double (host.d_add m n))
              else pure mm_invins),
        )
          ∷ (
            0x0b,
            (if s.flags.fp
                then with_operands target_address (λ m n. store_double (host.d_sub m n))
                else pure mm_invins),
          )
          ∷ (
            0x0c,
            (if s.flags.fp
                then with_operands target_address (λ m n. store_double (host.d_mul m n))
                else pure mm_invins),
          )
          ∷ (
            0x0d,
            (if s.flags.fp
                then with_operands target_address divide_unless_zero
                else pure (code trap_ii)),
          )
          ∷ [])
        (pure (code trap_ii))
