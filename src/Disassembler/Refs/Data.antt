-- ===== src/Disassembler/Refs/Data.antt =====
-- The references of Disassembler/disassembler_v7.c change no classification.
use mitra_15_for_simh.Prelude.{
  ℕ, zero, suc, ◌+◌, ◌≡◌, refl, ◌∙◌, Bool, true, false, List, [], ◌∷◌, ◌&&◌, ◌||◌, not,
  if◌then◌else◌, bit_or,
}
use mitra_15_for_simh.Disassembler.Insn.{Insn, is_branch}
use mitra_15_for_simh.Disassembler.Decode.{is_valid, decode_insn}
use mitra_15_for_simh.Disassembler.Image.{Options, Image, max_mem_words}
use mitra_15_for_simh.Disassembler.Operand.{Operand, brx_table, compute_operand}
use mitra_15_for_simh.Disassembler.Refs.{
  rf_call, rf_ptr, rf_rd, is_memory, access_flags, is_readable, add_ref, ref_if, add_table_refs,
  branch_refs, memory_refs, note_operand_refs, gather_word, gather_loop, entry_refs, gather_refs,
}

-- The fields that references do not touch.
pub record SameMarks (a b : Image) : Type 0 where
  pub word : a.word ≡ b.word
  pub escaped : a.escaped ≡ b.escaped
  pub loaded : a.loaded ≡ b.loaded
  pub is_text : a.is_text ≡ b.is_text
  pub is_code : a.is_code ≡ b.is_code
  pub is_data : a.is_data ≡ b.is_data
  pub is_struct : a.is_struct ≡ b.is_struct
  pub entry_points : a.entry_points ≡ b.entry_points

pub refs-SameMarks :
    (a : Image) (ref_s ref_w refcnt : ℕ → ℕ) (seen_csv : Bool)
    → SameMarks a (record a { ref_s = ref_s; ref_w = ref_w; refcnt = refcnt; seen_csv = seen_csv })
refs-SameMarks a _ _ _ _ = record {
  word = refl;
  escaped = refl;
  loaded = refl;
  is_text = refl;
  is_code = refl;
  is_data = refl;
  is_struct = refl;
  entry_points = refl;
}

then-SameMarks : {a b c : Image} → SameMarks a b → SameMarks b c → SameMarks a c
then-SameMarks s t = record {
  word = s.word ∙ t.word;
  escaped = s.escaped ∙ t.escaped;
  loaded = s.loaded ∙ t.loaded;
  is_text = s.is_text ∙ t.is_text;
  is_code = s.is_code ∙ t.is_code;
  is_data = s.is_data ∙ t.is_data;
  is_struct = s.is_struct ∙ t.is_struct;
  entry_points = s.entry_points ∙ t.entry_points;
}

if-SameMarks :
    (b : Bool) (a x y : Image) → SameMarks a x → SameMarks a y → SameMarks a (if b then x else y)
if-SameMarks true a x y s t = s
if-SameMarks false a x y s t = t

same-SameMarks : (a : Image) → SameMarks a a
same-SameMarks a = refs-SameMarks a a.ref_s a.ref_w a.refcnt a.seen_csv

add_ref-SameMarks :
    (a flags : ℕ) (strong : Bool) (img : Image) → SameMarks img (add_ref a flags strong img)
unfolding add_ref
add_ref-SameMarks a flags true img = refs-SameMarks img _ _ _ _
add_ref-SameMarks a flags false img = refs-SameMarks img _ _ _ _

ref_if-SameMarks :
    (b : Bool) (a flags : ℕ) (strong : Bool) (img : Image)
    → SameMarks img (ref_if b a flags strong img)
unfolding ref_if
ref_if-SameMarks true a flags strong img = add_ref-SameMarks a flags strong img
ref_if-SameMarks false a flags strong img = same-SameMarks img

add_table_refs-SameMarks :
    (table : List ℕ) (strong : Bool) (img : Image) → SameMarks img (add_table_refs table strong img)
unfolding add_table_refs
add_table_refs-SameMarks [] strong img = same-SameMarks img
add_table_refs-SameMarks (j ∷ table) strong img =
    then-SameMarks (add_ref-SameMarks _ _ strong img) (add_table_refs-SameMarks table strong _)

branch_refs-SameMarks :
    (w : ℕ) (o : Operand) (strong : Bool) (img : Image) → SameMarks img (branch_refs w o strong img)
unfolding branch_refs
branch_refs-SameMarks w o strong img =
    then-SameMarks
      (then-SameMarks (ref_if-SameMarks _ _ _ strong img) (ref_if-SameMarks _ _ _ strong _))
      (ref_if-SameMarks _ _ _ strong _)

memory_refs-SameMarks :
    (d : Insn) (o : Operand) (strong : Bool) (img : Image)
    → SameMarks img (memory_refs d o strong img)
unfolding memory_refs
memory_refs-SameMarks d o strong img =
    let callee =
      ref_if-SameMarks ((d.is_cls || d.is_csv) && o.callee_known) o.callee rf_call strong img in
    let pointer =
      then-SameMarks callee
        (ref_if-SameMarks (o.indirect && not o.ptr_gsym) o.ptr (bit_or rf_ptr rf_rd) strong _) in
    if-SameMarks (not (is_memory o.kind)) img _ _ callee (
      if-SameMarks (not o.ea_known) img _ _ pointer (
        then-SameMarks (then-SameMarks pointer (add_ref-SameMarks o.ea (access_flags d o) strong _))
          (ref_if-SameMarks d.acc.is_double _ _ strong _)))

note_operand_refs-SameMarks :
    (w : ℕ) (d : Insn) (o : Operand) (strong : Bool) (img : Image)
    → SameMarks img (note_operand_refs w d o strong img)
unfolding note_operand_refs
note_operand_refs-SameMarks w d o strong img =
    let seen : Image = if d.is_csv && strong then record img { seen_csv = true } else img in
    let first : SameMarks img seen =
      if-SameMarks (d.is_csv && strong) img _ _ (refs-SameMarks img _ _ _ _) (same-SameMarks img) in
    if-SameMarks (is_branch d.cls) img _ _
      (if-SameMarks d.is_brx img _ _
        (then-SameMarks first (add_table_refs-SameMarks (brx_table img w 64) strong seen))
        (then-SameMarks first (branch_refs-SameMarks w o strong seen)))
      (then-SameMarks first (memory_refs-SameMarks d o strong seen))

gather_loop-SameMarks :
    (opts : Options) (left w : ℕ) (img : Image) → SameMarks img (gather_loop opts left w img)
unfolding gather_loop gather_word
gather_loop-SameMarks opts zero w img = same-SameMarks img
gather_loop-SameMarks opts (suc left) w img =
    let d = decode_insn (img.word w) in
    then-SameMarks
      (if-SameMarks (is_readable img w && is_valid d) img _ _
        (note_operand_refs-SameMarks w d (compute_operand opts img w d) (img.is_code w) img)
        (same-SameMarks img))
      (gather_loop-SameMarks opts left (w + 1) _)

entry_refs-SameMarks : (es : List ℕ) (img : Image) → SameMarks img (entry_refs es img)
unfolding entry_refs
entry_refs-SameMarks [] img = same-SameMarks img
entry_refs-SameMarks (e ∷ es) img =
    then-SameMarks (add_ref-SameMarks _ _ _ img) (entry_refs-SameMarks es _)

pub gather_refs-SameMarks : (opts : Options) (img : Image) → SameMarks img (gather_refs opts img)
unfolding gather_refs
gather_refs-SameMarks opts img =
    then-SameMarks
      (then-SameMarks (refs-SameMarks img _ _ _ _) (entry_refs-SameMarks img.entry_points _))
      (gather_loop-SameMarks opts max_mem_words 0 _)
