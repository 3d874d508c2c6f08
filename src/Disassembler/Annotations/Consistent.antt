-- ===== src/Disassembler/Annotations/Consistent.antt =====
-- The annotations of Disassembler/disassembler_v7.c keep structures and entries consistent.
use mitra_15_for_simh.Prelude.{
  ℕ, zero, suc, ◌+◌, ◌-◌, ◌/◌, inl, inr, List, [], ◌∷◌, Bool-cases, leb,
}
use mitra_15_for_simh.Disassembler.Image.{Image, idx}
use mitra_15_for_simh.Disassembler.Tables.Consistent.{
  IsUntraced, struct_word-IsUntraced, struct_words-IsUntraced, add_entry-IsUntraced,
}
use mitra_15_for_simh.Disassembler.Tables.Discovered.{if-IsUntraced}
use mitra_15_for_simh.Disassembler.Annotations.{
  AnnWords, AnnVec, Annotations, apply_words, is_vector, vector_loop, apply_vectors, apply_entries,
  apply_annotations,
}

apply_words-IsUntraced :
    (aws : List AnnWords) (img : Image) → IsUntraced img → IsUntraced (apply_words aws img)
unfolding apply_words
apply_words-IsUntraced [] img h = h
apply_words-IsUntraced (aw ∷ aws) img h =
    apply_words-IsUntraced aws _ (struct_words-IsUntraced aw.count (idx aw.addr) img h)

vector_loop-IsUntraced :
    (v : AnnVec) (left a : ℕ) (img : Image) → IsUntraced img → IsUntraced (vector_loop v left a img)
unfolding vector_loop
vector_loop-IsUntraced v zero a img h = h
vector_loop-IsUntraced v (suc left) a img h = elim (Bool-cases (is_vector v img a)) [
  | inr e ↦ rw (e, vector_loop) (vector_loop-IsUntraced v left (a + 2) img h)
  | inl e ↦
      rw (e, vector_loop)
        (vector_loop-IsUntraced v left (a + 2) _
          (struct_word-IsUntraced (idx a) _ (add_entry-IsUntraced (img.word (idx a)) img h)))
]

apply_vectors-IsUntraced :
    (vs : List AnnVec) (img : Image) → IsUntraced img → IsUntraced (apply_vectors vs img)
unfolding apply_vectors
apply_vectors-IsUntraced [] img h = h
apply_vectors-IsUntraced (v ∷ vs) img h = apply_vectors-IsUntraced vs _ (
    if-IsUntraced (leb v.start v.end) _ _
      (vector_loop-IsUntraced v ((v.end - v.start) / 2 + 1) v.start img h) h)

apply_entries-IsUntraced :
    (addresses : List ℕ) (img : Image) → IsUntraced img → IsUntraced (apply_entries addresses img)
unfolding apply_entries
apply_entries-IsUntraced [] img h = h
apply_entries-IsUntraced (a ∷ addresses) img h =
    apply_entries-IsUntraced addresses _ (add_entry-IsUntraced a img h)

pub apply_annotations-IsUntraced :
    (notes : Annotations) (img : Image) → IsUntraced img → IsUntraced (apply_annotations notes img)
unfolding apply_annotations
apply_annotations-IsUntraced notes img h =
    apply_entries-IsUntraced notes.entries _
      (apply_vectors-IsUntraced notes.vectors _ (apply_words-IsUntraced notes.words img h))
