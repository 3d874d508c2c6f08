-- ===== src/Console/Size.antt =====
-- The memory size of Mitra/mitra_cpu.c: `MEMsize` and the question that SIMH asks are arguments.
use mitra_15_for_simh.Prelude.{
  ℕ, zero, suc, ◌+◌, ◌-◌, ◌*◌, ◌/◌, ◌%◌, ◌<◌, ◌≡◌, ◌≢◌, ◌⊎◌, ◌∙◌, refl, inl, inr, Bool-cases,
  ==_iff, Bool, true, false, not, ◌&&◌, ◌||◌, ◌==◌, ltb, arith, if◌then◌else◌,
}
use mitra_15_for_simh.Status.{Status, scpe_ok, scpe_arg}
use mitra_15_for_simh.Memory.{max_mem_words}

-- Whether one of `left` words from `i` on is not zero.
unfoldable pub any_word : (left i : ℕ) (mem : ℕ → ℕ) → Bool
any_word zero i mem = false
any_word (suc left) i mem = not (mem i == 0) || any_word left (suc i) mem

-- `for (i = MEMsize; i < MAX_MEM_WORDS;) { M[i] = 0; i = i + 2; }`, with the rounds left.
unfoldable pub clear_loop : (left i : ℕ) (mem : ℕ → ℕ) → ℕ → ℕ
clear_loop zero i mem = mem
clear_loop (suc left) i mem = clear_loop left (i + 2) (λ k. if k == i then 0 else mem k)

-- The status, the new size and the memory. An int32 `val` that is negative is refused as 0 is.
unfoldable pub cpu_set_size :
    (mem_size val : ℕ) (truncate : Bool) (mem : ℕ → ℕ) → Status × ℕ × (ℕ → ℕ)
unfolding any_word clear_loop
cpu_set_size mem_size val truncate mem =
    if val == 0 || ltb max_mem_words val || not (val % 16384 == 0)
    then (scpe_arg, mem_size, mem)
    else if any_word (mem_size - val) val mem && not truncate
    then (scpe_ok, mem_size, mem)
    else (scpe_ok, val, clear_loop ((max_mem_words - val) / 2) val mem)

-- A word that the loop does not meet.
clear_loop_other :
    (left i : ℕ) (mem : ℕ → ℕ) (k : ℕ) → ((j : ℕ) → k ≢ i + 2 * j) → clear_loop left i mem k ≡ mem k
unfolding clear_loop
clear_loop_other zero i mem k away = refl
clear_loop_other (suc left) i mem k away =
    let here : (k == i) ≡ false = other_word k i (away 0) in
    clear_loop_other left (i + 2) (λ j. if j == i then 0 else mem j) k
      (λ j e. away (suc j) (omega arith))
    ∙ rw here refl
  where
    other_word : (k i : ℕ) → k ≢ i + 0 → (k == i) ≡ false
    other_word k i ne = elim (Bool-cases (k == i)) [
      | inl e ↦ absurd (ne (omega (arith, (==_iff k i).0 e)))
      | inr e ↦ e
    ]

clear_loop_met :
    (left i : ℕ) (mem : ℕ → ℕ) (j : ℕ) → j < left → clear_loop left i mem (i + 2 * j) ≡ 0
unfolding clear_loop
clear_loop_met zero i mem j lt = absurd (omega arith)
clear_loop_met (suc left) i mem zero lt =
    clear_loop_other left (i + 2) (λ k. if k == i then 0 else mem k) (i + 0) (λ j e. omega arith)
    ∙ ground arith
clear_loop_met (suc left) i mem (suc j) lt =
    let e : i + 2 * suc j ≡ i + 2 + 2 * j = omega arith in
    rw e (clear_loop_met left (i + 2) (λ k. if k == i then 0 else mem k) j (omega arith))

-- After a change of the size: the words below it stay, and of those above only the ones at an even
-- distance are cleared.
pub record IsResized (size : ℕ) (mem mem' : ℕ → ℕ) : Type 0 where
  pub below : (k : ℕ) → k < size → mem' k ≡ mem k
  pub cleared : (j : ℕ) → size + 2 * j < 32768 → mem' (size + 2 * j) ≡ 0
  pub left_over : (j : ℕ) → mem' (size + 2 * j + 1) ≡ mem (size + 2 * j + 1)

-- A size of 16384 or 32768 words, with the truncation confirmed, is accepted and becomes the
-- size; the words below it stay, the words from it on at an even distance are cleared, and those
-- at an odd distance stay.
pub cpu_set_size-IsResized :
    (mem_size val : ℕ) (mem : ℕ → ℕ)
    → (val ≡ 16384) ⊎ (val ≡ 32768)
    → ((cpu_set_size mem_size val true mem).0 ≡ scpe_ok)
      × ((cpu_set_size mem_size val true mem).1 ≡ val)
      × IsResized val mem (cpu_set_size mem_size val true mem).2
unfolding cpu_set_size
cpu_set_size-IsResized mem_size val mem fits =
    let plain : (val == 0 || ltb max_mem_words val || not (val % 16384 == 0)) ≡ false =
      ground arith in
    let sure : (any_word (mem_size - val) val mem && not true) ≡ false = confirmed _ in
    rw (plain, sure)
      (
        refl,
        refl,
        record {
          below = λ k lt. clear_loop_other ((max_mem_words - val) / 2) val mem k λ j e. omega arith;
          cleared = λ j lt. clear_loop_met ((max_mem_words - val) / 2) val mem j (ground arith);
          left_over = λ j.
              clear_loop_other ((max_mem_words - val) / 2) val mem (val + 2 * j + 1)
                λ k e. omega arith;
        },
      )
  where
    confirmed : (b : Bool) → (b && not true) ≡ false
    confirmed true = refl
    confirmed false = refl

-- Every other size, those of 4096 and 8192 words included, is refused and changes nothing.
pub cpu_set_size-refused :
    (mem_size val : ℕ) (truncate : Bool) (mem : ℕ → ℕ)
    → val ≢ 16384
    → val ≢ 32768
    → cpu_set_size mem_size val truncate mem ≡ (scpe_arg, mem_size, mem)
unfolding cpu_set_size
cpu_set_size-refused mem_size val truncate mem ne ne' =
    let refused : (val == 0 || ltb max_mem_words val || not (val % 16384 == 0)) ≡ true =
      ground arith in
    rw refused refl
