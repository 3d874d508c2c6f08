-- ===== src/Disassembler/Annotations.antt =====
-- The annotations of Disassembler/disassembler_v7.c that change the analysis, as they are read from their
-- file. Names, notes, headers and regions of the listing are left out.
pub mod Consistent
use mitra_15_for_simh.Prelude.{
  ℕ, zero, suc, ◌+◌, ◌-◌, ◌/◌, ◌%◌, Bool, true, false, not, ◌&&◌, ◌||◌, List, [], ◌∷◌, ◌==◌, leb,
  ltb, if◌then◌else◌,
}
use mitra_15_for_simh.Disassembler.Image.{Image, idx}
use mitra_15_for_simh.Disassembler.Tables.{struct_word, struct_words, addr_ok, add_entry}

pub record AnnWords : Type 0 where
  pub addr : ℕ
  pub count : ℕ

pub record AnnVec : Type 0 where
  pub start : ℕ
  pub end : ℕ
  pub lo : ℕ
  pub hi : ℕ

-- `entries` are the addresses of the names that are entries.
pub record Annotations : Type 0 where
  pub words : List AnnWords
  pub vectors : List AnnVec
  pub entries : List ℕ

abbrev pub no_annotations : Annotations
no_annotations = record { words = []; vectors = []; entries = [] }

unfoldable pub apply_words : List AnnWords → Image → Image
apply_words [] img = img
apply_words (aw ∷ aws) img = apply_words aws (struct_words aw.count (idx aw.addr) img)

-- A word of a table of routines.
unfoldable pub is_vector : AnnVec → Image → (a : ℕ) → Bool
is_vector v img a =
    let val : ℕ = img.word (idx a) in
    not (not (img.loaded (idx a)) || img.is_struct (idx a))
    && not (val % 2 == 1 || (ltb val v.lo || (ltb v.hi val || not (addr_ok img val))))

unfoldable pub vector_loop : AnnVec → (left a : ℕ) → Image → Image
vector_loop v zero a img = img
vector_loop v (suc left) a img = elim (is_vector v img a) [
  | false ↦ vector_loop v left (a + 2) img
  | true ↦ vector_loop v left (a + 2) (struct_word (idx a) (add_entry (img.word (idx a)) img))
]

unfoldable pub apply_vectors : List AnnVec → Image → Image
apply_vectors [] img = img
apply_vectors (v ∷ vs) img =
    apply_vectors vs
      (if leb v.start v.end then vector_loop v ((v.end - v.start) / 2 + 1) v.start img else img)

unfoldable pub apply_entries : List ℕ → Image → Image
apply_entries [] img = img
apply_entries (a ∷ addresses) img = apply_entries addresses (add_entry a img)

unfoldable pub apply_annotations : Annotations → Image → Image
apply_annotations notes img =
    apply_entries notes.entries (apply_vectors notes.vectors (apply_words notes.words img))
