-- ===== src/Cpu/Invariant/Sound/Suspension.antt =====
-- Processing a suspension, Mitra/mitra_deroute.c, in states with the widths and the bounds of their fields.
use mitra_15_for_simh.Prelude.{
  ℕ, zero, suc, ◌<◌, ◌≡◌, inl, inr, refl, Bool, Bool-cases, true, false, not, ◌||◌, ◌==◌, Option,
  none, some, leb, arith, if◌then◌else◌,
}
use mitra_15_for_simh.State.{CpuState, update}
use mitra_15_for_simh.Run.{◌>>=◌, ◌>>◌, get, pure, modify}
use mitra_15_for_simh.Run.Keeps.{Keeps}
use mitra_15_for_simh.Deroute.Interrupt.{highest_below}
use mitra_15_for_simh.Deroute.Suspension.{
  mitra_suspension_process, pushed, popped, settled, io_suspension_dispatch, chosen_level,
  none_pending,
}
use mitra_15_for_simh.Cpu.Invariant.Sound.{IsSound}

pub none_requested :
    (n : ℕ) (bits : ℕ → Bool) (l : ℕ) → highest_below n bits ≡ none → l < n → bits l ≡ true → ⊥
unfolding highest_below
none_requested zero bits l e lt on = omega arith
none_requested (suc n) bits l e lt on = elim (Bool-cases (bits n)) [
  | inl here ↦ ground arith
  | inr other ↦
      let rest : highest_below n bits ≡ none = rw other at e in
      elim (Bool-cases (l == n)) [
        | inl same ↦ let e' : l ≡ n = ground arith in ground arith
        | inr less ↦ none_requested n bits l rest (ground arith) on
      ]
]

was_none : (o : Option ℕ) → (elim o [ none ↦ true | some _ ↦ false ]) ≡ true → o ≡ none
was_none none e = refl
was_none (some n) e = cc

pub idle_none : (bits : ℕ → Bool) → none_pending bits ≡ true → highest_below 32 bits ≡ none
unfolding none_pending
idle_none bits e = was_none (highest_below 32 bits) e

taken-was : (bits : ℕ → Bool) (level l : ℕ) → update bits level false l ≡ true → bits l ≡ true
taken-was bits level l on = ground arith

pub served-pending :
    (bits : ℕ → Bool) (flag : Bool) (level l : ℕ)
    → ((k : ℕ) → k < 32 → bits k ≡ true → flag ≡ true)
    → l < 32
    → update bits level false l ≡ true
    → (if none_pending (update bits level false) then false else flag) ≡ true
served-pending bits flag level l sound lt on =
    let was : bits l ≡ true = taken-was bits level l on in
    elim (Bool-cases (none_pending (update bits level false))) [
      | inl idle ↦ absurd (none_requested 32 _ l (idle_none _ idle) lt on)
      | inr busy ↦ rw busy (sound l lt was)
    ]

pub served-IsSound : (s : CpuState) → IsSound s → IsSound (settled (popped (pushed s)))
unfolding pushed popped settled
served-IsSound s h = record {
  words = h.words;
  blocks = h.blocks;
  memory = h.memory;
  level = h.level;
  depth = h.depth;
  traps = h.traps;
  suspensions = λ l lt on.
      served-pending s.susp_req_bits s.susp_pending (chosen_level s) l h.suspensions lt on;
}

pub suspend-IsSound : Keeps IsSound mitra_suspension_process
unfolding mitra_suspension_process io_suspension_dispatch ◌>>=◌ ◌>>◌ get pure modify
suspend-IsSound = record {
  keep = λ s h. elim (Bool-cases (not s.susp_pending || leb 4 s.susp_stack_ptr)) [
    | inl idle ↦ rw idle h
    | inr busy ↦ rw busy (served-IsSound s h)
  ];
}
