-- ===== src/Deroute/Suspension/Drain.antt =====
-- Processing suspensions as often as one is requested.
use mitra_15_for_simh.Prelude.{
  ℕ, zero, suc, ◌+◌, ◌<◌, ◌≡◌, ◌≢◌, ◌∙◌, refl, inl, inr, Bool, Bool-cases, true, false, Option,
  none, some, ◌==◌, bit, arith,
}
use mitra_15_for_simh.State.{CpuState, update}
use mitra_15_for_simh.Run.{M, ◌>>◌, pure}
use mitra_15_for_simh.Run.Steps.{Returns, then_returns, pure_returns, weaken_returns}
use mitra_15_for_simh.Deroute.Interrupt.{highest_below}
use mitra_15_for_simh.Deroute.Suspension.{mitra_suspension_process, chosen_level, none_pending}
use mitra_15_for_simh.Deroute.Suspension.Laws.{IsServed, mitra_suspension_process-IsServed}

-- The loop processes suspensions a number of times.
unfoldable pub processed : ℕ → M (Unit {0})
processed zero = pure tt
processed (suc n) = do mitra_suspension_process; processed n

-- How many of the levels below a bound are requested.
unfoldable pub requests : ℕ → (ℕ → Bool) → ℕ
requests zero bits = 0
requests (suc n) bits = requests n bits + bit (bits n)

requests-above :
    (n l : ℕ) (bits : ℕ → Bool) → n < l + 1 → requests n (update bits l false) ≡ requests n bits
unfolding requests
requests-above zero l bits lt = refl
requests-above (suc n) l bits lt =
    let rest = requests-above n l bits (omega arith) in
    let other : (n == l) ≡ false = ground arith in rw (rest, other) refl

requests-highest :
    (n l : ℕ) (bits : ℕ → Bool)
    → highest_below n bits ≡ some l
    → requests n (update bits l false) + 1 ≡ requests n bits
unfolding requests highest_below
requests-highest zero l bits e = cc
requests-highest (suc n) l bits e = elim (Bool-cases (bits n)) [
  | inl on ↦
      let same : n ≡ l = ground arith in
      let here : update bits l false n ≡ false = ground arith in
      let below = requests-above n l bits (omega arith) in rw (here, below, on) (omega arith)
  | inr off ↦
      let rest : highest_below n bits ≡ some l = rw off at e in
      let there : update bits l false n ≡ false = ground arith in
      let below = requests-highest n l bits rest in rw (there, off) (omega arith)
]

none-requests : (n : ℕ) (bits : ℕ → Bool) → highest_below n bits ≡ none → requests n bits ≡ 0
unfolding requests highest_below
none-requests zero bits e = refl
none-requests (suc n) bits e = elim (Bool-cases (bits n)) [
  | inl on ↦ ground arith
  | inr off ↦
      let rest : highest_below n bits ≡ none = rw off at e in
      let h = none-requests n bits rest in rw (h, off) refl
]

requests-none : (n : ℕ) (bits : ℕ → Bool) → requests n bits ≡ 0 → highest_below n bits ≡ none
unfolding requests highest_below
requests-none zero bits e = refl
requests-none (suc n) bits e = elim (Bool-cases (bits n)) [
  | inl on ↦ absurd (let e' : requests n bits + bit true ≡ 0 = rw on at e in omega arith)
  | inr off ↦
      let e' : requests n bits + bit false ≡ 0 = rw off at e in
      rw (off, requests-none n bits (omega arith)) refl
]

level_of :
    (o : Option ℕ) (other l : ℕ)
    → o ≡ some l
    → (elim o as (λ _. ℕ) [ none ↦ other | some level ↦ level ]) ≡ l
level_of (some level) other l e = cc
level_of none other l e = cc

pub chosen : (s : CpuState) (l : ℕ) → highest_below 32 s.susp_req_bits ≡ some l → chosen_level s ≡ l
unfolding chosen_level
chosen s l e = level_of (highest_below 32 s.susp_req_bits) s.susp_active_level l e

is_idle :
    (o : Option ℕ) → o ≡ none → (elim o as (λ _. Bool) [ none ↦ true | some _ ↦ false ]) ≡ true
is_idle none e = refl
is_idle (some l) e = cc

is_busy :
    (o : Option ℕ) → o ≢ none → (elim o as (λ _. Bool) [ none ↦ true | some _ ↦ false ]) ≡ false
is_busy none e = absurd (e refl)
is_busy (some l) e = refl

idle : (bits : ℕ → Bool) → requests 32 bits ≡ 0 → none_pending bits ≡ true
unfolding none_pending
idle bits e = is_idle (highest_below 32 bits) (requests-none 32 bits e)

busy : (bits : ℕ → Bool) (n : ℕ) → requests 32 bits ≡ suc n → none_pending bits ≡ false
unfolding none_pending
busy bits n e =
    is_busy (highest_below 32 bits)
      λ none. let zero_left = none-requests 32 bits none in omega arith

some_level : (o : Option ℕ) → o ≢ none → (l : ℕ) × (o ≡ some l)
some_level none e = absurd (e refl)
some_level (some l) e = (l, refl)

-- One request less.
one_less :
    (s : CpuState) (n : ℕ)
    → requests 32 s.susp_req_bits ≡ suc n
    → requests 32 (update s.susp_req_bits (chosen_level s) false) ≡ n
one_less s n e =
    let (l, found) =
      some_level (highest_below 32 s.susp_req_bits)
        λ none. let zero_left = none-requests 32 s.susp_req_bits none in omega arith in
    let level = chosen s l found in
    let less = requests-highest 32 l s.susp_req_bits found in rw level (omega arith)

-- No suspension is pending, and the registers and the memory are as before.
pub record IsDrained (s t : CpuState) : Type 0 where
  pub none_requested : requests 32 t.susp_req_bits ≡ 0
  pub settled : t.susp_pending ≡ false
  pub registers : t.reg ≡ s.reg
  pub memory : t.mem ≡ s.mem

served_last : (s t : CpuState) → IsServed s t → requests 32 t.susp_req_bits ≡ 0 → IsDrained s t
served_last s t h e = record {
  none_requested = e;
  settled = h.pending ∙ rw (idle t.susp_req_bits e) refl;
  registers = h.registers;
  memory = h.memory;
}

-- Where suspensions are requested, at levels below 32, and the flag of pending suspensions is
-- set, with room on the stack, processing suspensions as often as levels are requested returns:
-- none is requested, the flag is clear, and the registers and the memory are as before.
pub processed-IsDrained :
    (n : ℕ) (s : CpuState)
    → s.susp_pending ≡ true
    → s.susp_stack_ptr < 4
    → requests 32 s.susp_req_bits ≡ suc n
    → Returns (processed (suc n) s) tt (IsDrained s)
unfolding processed
processed-IsDrained zero s pending room e =
    then_returns _ _ (mitra_suspension_process-IsServed s pending room)
      λ t h. pure_returns t (served_last s t h (rw h.taken (one_less s 0 e)))
processed-IsDrained (suc n) s pending room e =
    then_returns _ _ (mitra_suspension_process-IsServed s pending room) λ t h.
      let left : requests 32 t.susp_req_bits ≡ suc n = rw h.taken (one_less s (suc n) e) in
      weaken_returns
        (processed-IsDrained n t (h.pending ∙ rw (busy t.susp_req_bits n left) refl)
          (rw h.depth room) left)
        λ u g. record {
          none_requested = g.none_requested;
          settled = g.settled;
          registers = g.registers ∙ h.registers;
          memory = g.memory ∙ h.memory;
        }
