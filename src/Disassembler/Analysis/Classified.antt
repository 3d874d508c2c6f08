-- ===== src/Disassembler/Analysis/Classified.antt =====
-- The analysis of a raw file by Disassembler/disassembler_v7.c, from the loading of the file to the
-- classification of its words.
use mitra_15_for_simh.Prelude.{
  ℕ, zero, suc, ◌≤◌, ◌≡◌, ◌≢◌, false, inl, inr, refl, ◌∙◌, some, List, [], ◌∷◌, Bool-cases, ltb,
  leb, ◌-◌, ◌/◌,
}
use mitra_15_for_simh.Disassembler.Image.{Options, Image, max_mem_words}
use mitra_15_for_simh.Disassembler.Text.{
  run_end, flag_run, text_round, text_loop, find_text_candidates,
}
use mitra_15_for_simh.Disassembler.Tables.{max_entry_points, count}
use mitra_15_for_simh.Disassembler.Tables.Consistent.{IsUntraced, add_entry-IsUntraced}
use mitra_15_for_simh.Disassembler.Tables.Discovered.{
  if-IsUntraced, discover_prt-IsUntraced, discover_system-IsUntraced,
  find_module_entries-IsUntraced,
}
use mitra_15_for_simh.Disassembler.Annotations.{Annotations}
use mitra_15_for_simh.Disassembler.Annotations.Consistent.{apply_annotations-IsUntraced}
use mitra_15_for_simh.Disassembler.Flow.{flow_trace}
use mitra_15_for_simh.Disassembler.Flow.Base.{AreInside}
use mitra_15_for_simh.Disassembler.Flow.Ends.{List-cases, flow_trace-ends}
use mitra_15_for_simh.Disassembler.Flow.Exclusive.{flow_trace-IsConsistent}
use mitra_15_for_simh.Disassembler.Load.{store_word, load_raw}
use mitra_15_for_simh.Disassembler.Load.Raw.{IsBlank, load_raw-IsBlank}
use mitra_15_for_simh.Disassembler.Refs.{collect_refs, classify_roots}
use mitra_15_for_simh.Disassembler.Refs.Classified.{
  IsClassified, collect_refs-IsClassified, classify_roots-IsClassified,
}
use mitra_15_for_simh.Disassembler.Analysis.{default_entry, prepare, analyze}

-- Text may be flagged as long as there is no structure.
record IsEmpty (img : Image) : Type 0 where
  is_blank : IsBlank img
  entries_fit : count img.entry_points ≤ max_entry_points
  entries_inside : AreInside img.entry_points
  in_bounds : img.escaped ≡ false
  prts : img.word 6 ≢ 0xfffe

flag_run-IsEmpty : (start i : ℕ) (img : Image) → IsEmpty img → IsEmpty (flag_run start i img)
unfolding flag_run
flag_run-IsEmpty start i img h = record {
  is_blank = record {
    bounded = h.is_blank.bounded;
    no_struct = h.is_blank.no_struct;
    no_code = h.is_blank.no_code;
  };
  entries_fit = h.entries_fit;
  entries_inside = h.entries_inside;
  in_bounds = h.in_bounds;
  prts = h.prts;
}

text_round-IsEmpty :
    (opts : Options) (i hi : ℕ) (img : Image) → IsEmpty img → IsEmpty (text_round opts i hi img).1
unfolding text_round
text_round-IsEmpty opts i hi img h = elim (Bool-cases (img.loaded i)) [
  | inr off ↦ rw off h
  | inl on ↦ elim (Bool-cases (leb opts.min_text_words (run_end img (hi - i) i - i))) [
    | inl long ↦ rw (on, long) (flag_run-IsEmpty i (run_end img (hi - i) i) img h)
    | inr short ↦ rw (on, short) h
  ]
]

text_loop-IsEmpty :
    (opts : Options) (fuel i hi : ℕ) (img : Image)
    → IsEmpty img
    → IsEmpty (text_loop opts fuel i hi img)
unfolding text_loop
text_loop-IsEmpty opts zero i hi img h = h
text_loop-IsEmpty opts (suc fuel) i hi img h = elim (Bool-cases (ltb i hi)) [
  | inl e ↦ rw e (text_loop-IsEmpty opts fuel _ hi _ (text_round-IsEmpty opts i hi img h))
  | inr e ↦ rw e h
]

empty-IsUntraced : (img : Image) → IsEmpty img → IsUntraced img
empty-IsUntraced img h = record {
  consistent = record {
    bounded = h.is_blank.bounded;
    structures = λ w on. let off = h.is_blank.no_struct w in absurd (cc);
    entries_fit = h.entries_fit;
    entries_inside = h.entries_inside;
    in_bounds = h.in_bounds;
    prts = h.prts;
  };
  no_code = h.is_blank.no_code;
}

default_entry-IsUntraced : (img : Image) → IsUntraced img → IsUntraced (default_entry img)
unfolding default_entry
default_entry-IsUntraced img h = elim (List-cases img.entry_points) [
  | inl e ↦ rw (e, default_entry) (add_entry-IsUntraced 0 img h)
  | inr (x, rest, e) ↦ rw (e, default_entry) h
]

prepare-IsUntraced :
    (opts : Options) (notes : Annotations) (img : Image)
    → IsEmpty img
    → IsUntraced (prepare opts notes img)
unfolding prepare find_text_candidates
prepare-IsUntraced opts notes img h =
    let marked =
      empty-IsUntraced _ (text_loop-IsEmpty opts (max_mem_words - 0) 0 max_mem_words img h) in
    let tables =
      if-IsUntraced opts.structures _ _
        (discover_system-IsUntraced _ (discover_prt-IsUntraced opts _ marked)) marked in
    default_entry-IsUntraced _
      (apply_annotations-IsUntraced notes _ (find_module_entries-IsUntraced _ tables))

analyze-traced :
    (opts : Options) (notes : Annotations) (img traced : Image)
    → flow_trace opts (prepare opts notes img) ≡ some traced
    → analyze opts notes img ≡ some (classify_roots (collect_refs opts traced))
unfolding analyze
analyze-traced opts notes img traced h = rw (h, analyze) refl

store_word-kept :
    (a val : ℕ) (img : Image)
    → ((store_word a val img).entry_points ≡ img.entry_points)
      × ((store_word a val img).escaped ≡ img.escaped)
unfolding store_word
store_word-kept a val img = elim (Bool-cases (leb max_mem_words (a / 2))) [
  | inl out ↦ rw out (refl, refl)
  | inr fits ↦ rw fits (refl, refl)
]

load_raw-kept :
    (bytes : List ℕ) (addr : ℕ) (img : Image)
    → ((load_raw bytes addr img).entry_points ≡ img.entry_points)
      × ((load_raw bytes addr img).escaped ≡ img.escaped)
unfolding load_raw
load_raw-kept [] addr img = (refl, refl)
load_raw-kept (byte1 ∷ []) addr img = (refl, refl)
load_raw-kept (byte1 ∷ byte2 ∷ bytes) addr img =
    let (entries, escaped) = load_raw-kept bytes _ _ in
    let (entries', escaped') = store_word-kept addr _ img in
    (entries ∙ entries', escaped ∙ escaped')

-- The disassembler, from an image without loaded words outside of memory, structures or code,
-- and with at most 1024 entries, all of them below 32768, loads a raw file of any length and,
-- with any annotations and unless word 6 is then 0xFFFE, analyses it to an end without an access
-- out of the bounds of its arrays in the search for tables, the trace and the marking of
-- entries; afterwards the loaded words and the entries are in memory, the entries are at most
-- 1024, a word of a structure is loaded and neither text nor code, and a word that is data is
-- loaded and neither text nor code.
pub analyze-IsClassified :
    (opts : Options) (notes : Annotations) (bytes : List ℕ) (img : Image)
    → IsBlank img
    → count img.entry_points ≤ max_entry_points
    → AreInside img.entry_points
    → img.escaped ≡ false
    → (load_raw bytes 0 img).word 6 ≢ 0xfffe
    → (out : Image) × (analyze opts notes (load_raw bytes 0 img) ≡ some out) × IsClassified out
analyze-IsClassified opts notes bytes img is_blank fit inside safe prts =
    let (same_entries, same_escaped) = load_raw-kept bytes 0 img in
    let empty : IsEmpty (load_raw bytes 0 img) = record {
      is_blank = load_raw-IsBlank bytes 0 img is_blank;
      entries_fit = rw same_entries fit;
      entries_inside = rw same_entries inside;
      in_bounds = same_escaped ∙ safe;
      prts = prts;
    } in
    let ready = prepare-IsUntraced opts notes (load_raw bytes 0 img) empty in
    let (traced, ends) = flow_trace-ends opts _ ready.consistent.bounded in
    let kept = flow_trace-IsConsistent opts _ traced ready.consistent ends in
    (
      classify_roots (collect_refs opts traced),
      analyze-traced opts notes _ traced ends,
      classify_roots-IsClassified _ (collect_refs-IsClassified opts traced kept),
    )
