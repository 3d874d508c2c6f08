-- ===== src/Device/CardReader/Binary.antt =====
-- A card read in binary mode, poll after poll, against the bytes that its columns are packed from.
use mitra_15_for_simh.Prelude.{
  ℕ, zero, suc, ◌+◌, ◌*◌, ◌/◌, ◌%◌, ◌<◌, ◌≡◌, ◌∙◌, ap, refl, true, false, not, ◌==◌, arith, bit,
  switch, leb,
}
use mitra_15_for_simh.State.{CpuState}
use mitra_15_for_simh.Run.{done, pure}
use mitra_15_for_simh.Run.Steps.{bind_done}
use mitra_15_for_simh.Device.CardReader.{Cdr, column, column_at, binary_byte}

-- The number of the column that byte `i` of a card is in, or starts with.
unfoldable pub column_of : ℕ → ℕ
column_of i = i / 3 * 2 + bit (i % 3 == 2)

-- The reader holds the columns of a card, and byte `i` is next.
pub record IsAt (bytes : ℕ → ℕ) (i : ℕ) (d : Cdr) : Type 0 where
  pub columns : (j : ℕ) → j < 80 → d.buffer j ≡ column bytes j
  pub narrow : (k : ℕ) → bytes k < 256
  pub col : d.col ≡ i
  pub bptr : d.bptr ≡ column_of i

abbrev pub after_byte : ℕ → Cdr → Cdr
after_byte i d = record d { col = i + 1; bptr = column_of (i + 1) }

first :
    (bytes : ℕ → ℕ) (q : ℕ)
    → bytes (q * 3) < 256
    → bytes (q * 3 + 1) < 256
    → column bytes (q * 2) / 16 % 256 ≡ bytes (q * 3)
unfolding column
first bytes q h h' =
    let even : (q * 2 % 2 == 0) ≡ true = ground arith in
    let half : q * 2 / 2 ≡ q = omega arith in rw (even, half) (omega arith)

second :
    (bytes : ℕ → ℕ) (q : ℕ)
    → bytes (q * 3 + 1) < 256
    → bytes (q * 3 + 2) < 256
    → column bytes (q * 2) % 16 * 16 + column bytes (q * 2 + 1) / 256 % 16 ≡ bytes (q * 3 + 1)
unfolding column
second bytes q h h' =
    let even : (q * 2 % 2 == 0) ≡ true = ground arith in
    let odd : ((q * 2 + 1) % 2 == 0) ≡ false = ground arith in
    let half : q * 2 / 2 ≡ q = omega arith in
    let half' : (q * 2 + 1) / 2 ≡ q = omega arith in rw (even, odd, half, half') (omega arith)

third :
    (bytes : ℕ → ℕ) (q : ℕ)
    → bytes (q * 3 + 2) < 256
    → column bytes (q * 2 + 1) % 256 ≡ bytes (q * 3 + 2)
unfolding column
third bytes q h =
    let odd : ((q * 2 + 1) % 2 == 0) ≡ false = ground arith in
    let half' : (q * 2 + 1) / 2 ≡ q = omega arith in rw (odd, half') (omega arith)

column_of-0 : (i : ℕ) → i % 3 ≡ 0 → column_of i ≡ i / 3 * 2
unfolding column_of
column_of-0 i e = ground arith

column_of-1 : (i : ℕ) → i % 3 ≡ 1 → column_of i ≡ i / 3 * 2
unfolding column_of
column_of-1 i e = ground arith

column_of-2 : (i : ℕ) → i % 3 ≡ 2 → column_of i ≡ i / 3 * 2 + 1
unfolding column_of
column_of-2 i e = ground arith

column_of-lt : (i : ℕ) → i < 120 → column_of i < 80
unfolding column_of
column_of-lt i lt = ground arith

column_of-next : (i : ℕ) → column_of (i + 1) ≡ column_of i + bit (not (i % 3 == 0))
unfolding column_of
column_of-next i = ground arith

module _ (bytes : ℕ → ℕ) (i : ℕ) (d : Cdr) (s : CpuState) (h : IsAt bytes i d)
    (small : i < 120) where
  open h use {narrow}

  at_hand : column_at d.bptr d s ≡ done (column bytes (column_of i)) s
  unfolding column_at pure
  at_hand =
      let lt = column_of-lt i small in
      let inside : leb 80 (column_of i) ≡ false = ground arith in
      rw (h.bptr, inside) (ap (λ n. done n s) (h.columns (column_of i) lt))

  value_0 : i % 3 ≡ 0 → column bytes (column_of i) / 16 % 256 ≡ bytes i
  value_0 e =
      let b : i / 3 * 3 ≡ i = omega arith in
      rw (column_of-0 i e) (first bytes (i / 3) (narrow _) (narrow _) ∙ ap bytes b)

  value_1 :
      i % 3 ≡ 1
      → column bytes (column_of i) % 16 * 16 + column bytes (column_of i + 1) / 256 % 16 ≡ bytes i
  value_1 e =
      let b : i / 3 * 3 + 1 ≡ i = omega arith in
      rw (column_of-1 i e) (second bytes (i / 3) (narrow _) (narrow _) ∙ ap bytes b)

  value_2 : i % 3 ≡ 2 → column bytes (column_of i) % 256 ≡ bytes i
  value_2 e =
      let b : i / 3 * 3 + 2 ≡ i = omega arith in
      rw (column_of-2 i e) (third bytes (i / 3) (narrow _) ∙ ap bytes b)

  binary_0 : i % 3 ≡ 0 → binary_byte d s ≡ done (bytes i, after_byte i d) s
  unfolding binary_byte switch pure
  binary_0 e =
      let stays : d.bptr ≡ column_of (i + 1) =
        h.bptr ∙ (let next = column_of-next i in ground arith) in
      let test : (i % 3 == 0) ≡ true = ground arith in
      bind_done (column_at d.bptr d) _ at_hand ∙ rw (h.col, test, value_0 e, stays) refl

  next_hand : i % 3 ≡ 1 → column_at (d.bptr + 1) d s ≡ done (column bytes (column_of i + 1)) s
  unfolding column_at pure
  next_hand e =
      let lt : column_of i + 1 < 80 = let place = column_of-1 i e in omega arith in
      let inside : leb 80 (column_of i + 1) ≡ false = ground arith in
      rw (h.bptr, inside) (ap (λ n. done n s) (h.columns (column_of i + 1) lt))

  binary_1 : i % 3 ≡ 1 → binary_byte d s ≡ done (bytes i, after_byte i d) s
  unfolding binary_byte switch pure
  binary_1 e =
      let moves : d.bptr + 1 ≡ column_of (i + 1) =
        let next = column_of-next i in let here = h.bptr in ground arith in
      let here = h.col in
      let test : (d.col % 3 == 0) ≡ false = ground arith in
      let test' : (d.col % 3 == 1) ≡ true = ground arith in
      bind_done (column_at d.bptr d) _ at_hand
      ∙ rw (test, test')
          (bind_done (column_at (d.bptr + 1) d) _ (next_hand e) ∙ rw (value_1 e, moves, h.col) refl)

  binary_2 : i % 3 ≡ 2 → binary_byte d s ≡ done (bytes i, after_byte i d) s
  unfolding binary_byte switch pure
  binary_2 e =
      let moves : d.bptr + 1 ≡ column_of (i + 1) =
        let next = column_of-next i in let here = h.bptr in ground arith in
      let test : (i % 3 == 0) ≡ false = ground arith in
      let test' : (i % 3 == 1) ≡ false = ground arith in
      bind_done (column_at d.bptr d) _ at_hand ∙ rw (h.col, test, test', value_2 e, moves) refl

-- Byte i of a card, where the reader in binary mode holds the columns of the card and byte i is next,
-- is emitted as it was, without a change of the processor, and byte i + 1 is next.
pub binary_byte-IsAt :
    (bytes : ℕ → ℕ) (i : ℕ) (d : Cdr) (s : CpuState)
    → IsAt bytes i d
    → i < 120
    → (binary_byte d s ≡ done (bytes i, after_byte i d) s) × IsAt bytes (i + 1) (after_byte i d)
binary_byte-IsAt bytes i d s h small = (
  by_rest (i % 3) refl (omega arith),
  record { columns = h.columns; narrow = h.narrow; col = refl; bptr = refl },
)
  where
    by_rest : (k : ℕ) → i % 3 ≡ k → k < 3 → binary_byte d s ≡ done (bytes i, after_byte i d) s
    by_rest zero e lt = binary_0 bytes i d s h small e
    by_rest (suc zero) e lt = binary_1 bytes i d s h small e
    by_rest (suc (suc zero)) e lt = binary_2 bytes i d s h small e
    by_rest (suc (suc (suc k))) e lt = absurd (omega arith)
