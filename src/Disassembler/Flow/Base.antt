-- ===== src/Disassembler/Flow/Base.antt =====
-- The words and tables that the trace of Disassembler/disassembler_v7.c leaves alone, and its counts.
use mitra_15_for_simh.Prelude.{
  ℕ, zero, suc, ◌<◌, ◌≤◌, ◌≡◌, refl, Bool, true, false, List, [], ◌∷◌, arith,
}
use mitra_15_for_simh.Disassembler.Image.{Image, max_mem_words}
use mitra_15_for_simh.Disassembler.Flow.{Edge, set_flag, count_flags}

abbrev pub length {ℓ} : {A : Type ℓ} → List A → ℕ
length [] = 0
length (_ ∷ xs) = suc (length xs)

-- The same words, structures and tables: only the flags of the trace may differ.
pub record SameBase (a b : Image) : Type 0 where
  pub word : a.word ≡ b.word
  pub loaded : a.loaded ≡ b.loaded
  pub is_struct : a.is_struct ≡ b.is_struct
  pub entry_points : a.entry_points ≡ b.entry_points
  pub prt_valid : a.prt_valid ≡ b.prt_valid
  pub prt_p : a.prt_p ≡ b.prt_p
  pub mon_valid : a.mon_valid ≡ b.mon_valid
  pub mon_p : a.mon_p ≡ b.mon_p

-- Edges to words of memory.
pub data AllInside : List Edge → Type 0 where
  no_edge : AllInside []
  an_edge : {e : Edge} {es : List Edge} → e.to < max_mem_words → AllInside es → AllInside (e ∷ es)

-- Words of memory.
abbrev pub AreInside : List ℕ → Type 0
AreInside [] = Unit
AreInside (w ∷ ws) = (w < max_mem_words) × AreInside ws

-- Every word that is loaded is in memory.
abbrev pub IsBounded : Image → Type 0
IsBounded img = (w : ℕ) → img.loaded w ≡ true → w < max_mem_words

pub count_flags-le : (n : ℕ) (f : ℕ → Bool) → count_flags n f ≤ n
unfolding count_flags
count_flags-le zero f = omega arith
count_flags-le (suc n) f = ground (arith, count_flags-le n f)

count_flags-set_above :
    (n i : ℕ) (f : ℕ → Bool) → n ≤ i → count_flags n (set_flag f i true) ≡ count_flags n f
unfolding count_flags
count_flags-set_above zero i f h = refl
count_flags-set_above (suc n) i f h = ground (arith, count_flags-set_above n i f)

pub count_flags-set :
    (n i : ℕ) (f : ℕ → Bool)
    → i < n
    → f i ≡ false
    → count_flags n (set_flag f i true) ≡ suc (count_flags n f)
unfolding count_flags
count_flags-set zero i f h off = absurd (omega arith)
count_flags-set (suc n) i f h off =
    ground (arith, count_flags-set n i f, count_flags-set_above n i f)

pub count_flags-none : (n : ℕ) → count_flags n (λ _. false) ≡ 0
unfolding count_flags
count_flags-none zero = refl
count_flags-none (suc n) = omega (arith, count_flags-none n)
