-- ===== src/Disassembler/Tables/Consistent.antt =====
-- What the passes of Disassembler/disassembler_v7.c before the trace keep: structures and entries.
use mitra_15_for_simh.Prelude.{
  ℕ, zero, suc, ◌+◌, ◌<◌, ◌≤◌, ◌≡◌, ◌≢◌, inl, inr, ◌||◌, ==_iff, ltb, refl, ap, ◌∙◌, true, false,
  List, [], ◌∷◌, ◌++◌, ◌==◌, leb, arith, Bool-cases, not,
}
use mitra_15_for_simh.Disassembler.Image.{Image, max_mem_words, idx}
use mitra_15_for_simh.Disassembler.Flow.{set_flag}
use mitra_15_for_simh.Disassembler.Flow.Base.{AreInside}
use mitra_15_for_simh.Disassembler.Tables.{
  max_entry_points, struct_word, struct_words, is_entry, count, add_entry, addr_ok,
}

-- A word of a structure is loaded, and neither text nor code.
pub record IsStructure (img : Image) (w : ℕ) : Type 0 where
  pub is_loaded : img.loaded w ≡ true
  pub no_text : img.is_text w ≡ false
  pub no_code : img.is_code w ≡ false

-- Every loaded word is in memory, and the entries, words of memory, are in their array; the pointer
-- to the PRTS in word 6 is not to the last word, and no array was accessed out of its bounds.
pub record IsConsistent (img : Image) : Type 0 where
  pub bounded : (w : ℕ) → img.loaded w ≡ true → w < max_mem_words
  pub structures : (w : ℕ) → img.is_struct w ≡ true → IsStructure img w
  pub entries_fit : count img.entry_points ≤ max_entry_points
  pub entries_inside : AreInside img.entry_points
  pub in_bounds : img.escaped ≡ false
  pub prts : img.word 6 ≢ 0xfffe

concat-AreInside :
    (es : List ℕ) (e : ℕ) → AreInside es → e < max_mem_words → AreInside (es ++ e ∷ [])
concat-AreInside [] e h b = (b, tt)
concat-AreInside (_ ∷ es) e (first, rest) b = (first, concat-AreInside es e rest b)

count-concat : (es : List ℕ) (e : ℕ) → count (es ++ e ∷ []) ≡ suc (count es)
unfolding count
count-concat [] e = refl
count-concat (_ ∷ es) e = ap suc (count-concat es e)

-- No word is code before the trace.
pub record IsUntraced (img : Image) : Type 0 where
  pub consistent : IsConsistent img
  pub no_code : (w : ℕ) → img.is_code w ≡ false

mark-IsStructure :
    (i : ℕ) (img : Image) (w : ℕ)
    → IsConsistent img
    → img.loaded i ≡ true
    → img.is_code i ≡ false
    → set_flag img.is_struct i true w ≡ true
    → IsStructure
        (record img {
          is_struct = set_flag img.is_struct i true;
          is_text = set_flag img.is_text i false;
        })
        w
mark-IsStructure i img w h on plain s = elim (Bool-cases (w == i)) [
  | inl here ↦
      let same = (==_iff w i).0 here in
      record { is_loaded = rw same on; no_text = rw here refl; no_code = rw same plain }
  | inr off ↦
      let old = h.structures w (rw off at s) in
      record { is_loaded = old.is_loaded; no_text = rw off old.no_text; no_code = old.no_code }
]

pub struct_word-IsConsistent :
    (i : ℕ) (img : Image)
    → IsConsistent img
    → img.is_code i ≡ false
    → IsConsistent (struct_word i img)
unfolding struct_word
struct_word-IsConsistent i img h plain =
    elim (Bool-cases (leb max_mem_words i || not (img.loaded i))) [
      | inl skip ↦ rw skip h
      | inr on ↦ rw on (record {
        bounded = h.bounded;
        structures = λ w s. mark-IsStructure i img w h (ground (arith, on)) plain s;
        entries_fit = h.entries_fit;
        entries_inside = h.entries_inside;
        in_bounds = h.in_bounds;
        prts = h.prts;
      })
    ]

pub struct_word-is_code : (i : ℕ) (img : Image) → (struct_word i img).is_code ≡ img.is_code
unfolding struct_word
struct_word-is_code i img = elim (Bool-cases (leb max_mem_words i || not (img.loaded i))) [
  | inl skip ↦ rw skip refl
  | inr on ↦ rw on refl
]

pub struct_word-IsUntraced : (i : ℕ) (img : Image) → IsUntraced img → IsUntraced (struct_word i img)
struct_word-IsUntraced i img h = record {
  consistent = struct_word-IsConsistent i img h.consistent (h.no_code i);
  no_code = λ w. ap (λ f. f w) (struct_word-is_code i img) ∙ h.no_code w;
}

pub struct_words-IsUntraced :
    (n i : ℕ) (img : Image) → IsUntraced img → IsUntraced (struct_words n i img)
unfolding struct_words
struct_words-IsUntraced zero i img h = h
struct_words-IsUntraced (suc n) i img h =
    struct_words-IsUntraced n (i + 1) (struct_word i img) (struct_word-IsUntraced i img h)

-- Fields that the tables do not use may change.
pub same_tables :
    (a b : Image)
    → IsUntraced a
    → b.loaded ≡ a.loaded
    → b.is_struct ≡ a.is_struct
    → b.is_text ≡ a.is_text
    → b.is_code ≡ a.is_code
    → b.word ≡ a.word
    → b.escaped ≡ false
    → AreInside b.entry_points
    → count b.entry_points ≤ max_entry_points
    → IsUntraced b
same_tables a b h l s t c m f i e = record {
  consistent = record {
    bounded = λ w on. h.consistent.bounded w (rw l at on);
    structures = λ w on.
        let old = h.consistent.structures w (rw s at on) in
        record {
          is_loaded = rw l old.is_loaded;
          no_text = rw t old.no_text;
          no_code = rw c old.no_code;
        };
    entries_fit = e;
    entries_inside = i;
    in_bounds = f;
    prts = rw m h.consistent.prts;
  };
  no_code = λ w. rw c (h.no_code w);
}

pub add_entry-IsUntraced : (a : ℕ) (img : Image) → IsUntraced img → IsUntraced (add_entry a img)
unfolding add_entry
add_entry-IsUntraced a img h = elim (Bool-cases (addr_ok img a)) [
  | inr bad ↦ rw bad h
  | inl ok ↦ elim (Bool-cases (is_entry (idx a) img.entry_points)) [
    | inl old ↦
        rw (ok, old)
          (same_tables img _ h refl refl refl refl refl h.consistent.in_bounds
            h.consistent.entries_inside h.consistent.entries_fit)
    | inr new ↦ elim (Bool-cases (ltb (count img.entry_points) max_entry_points)) [
      | inl room ↦
          rw (ok, new, room)
            (same_tables img _ h refl refl refl refl refl h.consistent.in_bounds
              (concat-AreInside img.entry_points (idx a) h.consistent.entries_inside (omega arith))
              (ground (arith, count-concat img.entry_points (idx a), room)))
      | inr full ↦
          rw (ok, new, full)
            (same_tables img _ h refl refl refl refl refl h.consistent.in_bounds
              h.consistent.entries_inside h.consistent.entries_fit)
    ]
  ]
]
