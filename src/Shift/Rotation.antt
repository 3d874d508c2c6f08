-- ===== src/Shift/Rotation.antt =====
-- The circular shifts of Mitra/mitra_instr_utils.c, single and double.
use mitra_15_for_simh.Prelude.{ℕ, zero, suc, ◌<◌, ◌≡◌, refl, ◌∙◌, arith}
use mitra_15_for_simh.Shift.{
  repeat, Single, Double, srcs_step, slcs_step, lcd_step, rcd_step, shift_srcs, shift_slcs,
  shift_lcd, shift_rcd,
}
use mitra_15_for_simh.Shift.Laws.{repeat-suc}

-- A step and its inverse, up to a relation that both respect and on states that the step keeps.
module _ {S : Type 0} (Same : S → S → Type 0) (IsWord : S → Type 0) (step back : S → S)
    (keeps : (s : S) → IsWord s → IsWord (step s))
    (undoes : (s : S) → IsWord s → Same (back (step s)) s)
    (respects : (s t : S) → Same s t → Same (back s) (back t))
    (trans : (s t q : S) → Same s t → Same t q → Same s q) (same : (s : S) → Same s s) where
  repeat_keeps : (n : ℕ) (s : S) → IsWord s → IsWord (repeat n step s)
  unfolding repeat
  repeat_keeps zero s h = h
  repeat_keeps (suc n) s h = repeat_keeps n (step s) (keeps s h)

  repeat_respects : (n : ℕ) (s t : S) → Same s t → Same (repeat n back s) (repeat n back t)
  unfolding repeat
  repeat_respects zero s t h = h
  repeat_respects (suc n) s t h = repeat_respects n (back s) (back t) (respects s t h)

  repeat_undoes : (n : ℕ) (s : S) → IsWord s → Same (repeat n back (repeat n step s)) s
  unfolding repeat
  repeat_undoes zero s h = same s
  repeat_undoes (suc n) s h =
      trans _ _ _
        (repeat_respects n _ _
          (rw (repeat-suc n step s) (undoes (repeat n step s) (repeat_keeps n s h))))
        (repeat_undoes n s h)

-- A circular right shift of a 16-bit word undoes a circular left shift by as many positions.
pub shift_srcs-slcs :
    (n : ℕ) (s : Single) → s.val < 65536 → (shift_srcs n (shift_slcs n s)).val ≡ s.val
unfolding shift_srcs shift_slcs srcs_step slcs_step
shift_srcs-slcs n s h =
    repeat_undoes (λ s t. s.val ≡ t.val) (λ s. s.val < 65536) slcs_step srcs_step
      (λ s h. omega arith) (λ s h. omega arith) (λ s t e. omega arith) (λ s t q e e'. e ∙ e')
      (λ s. refl) n s h

-- A circular right shift of the double word (E, A), both of 16 bits, undoes a circular left
-- shift by as many positions.
pub shift_rcd-lcd :
    (n : ℕ) (d : Double)
    → d.e < 65536
    → d.a < 65536
    → ((shift_rcd n (shift_lcd n d)).e ≡ d.e) × ((shift_rcd n (shift_lcd n d)).a ≡ d.a)
unfolding shift_rcd shift_lcd rcd_step lcd_step
shift_rcd-lcd n d he ha =
    repeat_undoes (λ s t. (s.e ≡ t.e) × (s.a ≡ t.a)) (λ d. (d.e < 65536) × (d.a < 65536)) lcd_step
      rcd_step (λ s h. (omega arith, omega arith)) (λ s h. (omega arith, omega arith))
      (λ s t e. (omega arith, omega arith)) (λ s t q e e'. (e.0 ∙ e'.0, e.1 ∙ e'.1))
      (λ s. (refl, refl)) n d (he, ha)
