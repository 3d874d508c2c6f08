-- ===== src/Disassembler/Refs.antt =====
-- Pass 3 of Disassembler/disassembler_v7.c: the references between words, the words that are data, and
-- the roots of routines. The profiles of `scan_routine` are left out.
pub mod Data
pub mod Classified
use mitra_15_for_simh.Prelude.{
  ℕ, zero, suc, ◌+◌, ◌%◌, Bool, true, false, not, ◌&&◌, ◌||◌, List, [], ◌∷◌, ◌==◌, leb, ltb,
  if◌then◌else◌, bit_and, bit_or,
}
use mitra_15_for_simh.Disassembler.Insn.{Access, Insn, is_branch}
use mitra_15_for_simh.Disassembler.Decode.{is_valid, decode_insn}
use mitra_15_for_simh.Disassembler.Image.{Options, Image, max_mem_words, idx, baddr}
use mitra_15_for_simh.Disassembler.Operand.{
  Operand, OpKind, ok_mem, prev_is_spa, brx_table, compute_operand,
}
use mitra_15_for_simh.Disassembler.Tables.{set_value, struct_word, is_entry}

abbrev pub rf_br : ℕ
rf_br = 0x1

abbrev pub rf_call : ℕ
rf_call = 0x2

abbrev pub rf_rd : ℕ
rf_rd = 0x4

abbrev pub rf_wr : ℕ
rf_wr = 0x8

abbrev pub rf_idx : ℕ
rf_idx = 0x10

abbrev pub rf_ptr : ℕ
rf_ptr = 0x20

abbrev pub rf_addr : ℕ
rf_addr = 0x40

abbrev pub rf_secnum : ℕ
rf_secnum = 0x80

abbrev pub rf_entry : ℕ
rf_entry = 0x100

abbrev pub rf_opnd : ℕ
rf_opnd = 0x200

abbrev pub rf_dbl : ℕ
rf_dbl = 0x400

abbrev pub rf_byte : ℕ
rf_byte = 0x800

abbrev pub rf_retcell : ℕ
rf_retcell = 0x1000

-- References from traced code are strong. The count stops at FFFF.
unfoldable pub add_ref : (a flags : ℕ) (strong : Bool) → Image → Image
add_ref a flags strong img =
    let i : ℕ = idx a in
    let counts : ℕ → ℕ =
      if ltb (img.refcnt i) 0xffff then set_value img.refcnt i (img.refcnt i + 1) else img.refcnt in
    if strong
    then record img { ref_s = set_value img.ref_s i (bit_or (img.ref_s i) flags); refcnt = counts }
    else record img { ref_w = set_value img.ref_w i (bit_or (img.ref_w i) flags); refcnt = counts }

-- The words of a jump table.
unfoldable pub add_table_refs : (table : List ℕ) (strong : Bool) → Image → Image
add_table_refs [] strong img = img
add_table_refs (j ∷ table) strong img =
    add_table_refs table strong (add_ref (baddr j) rf_br strong img)

-- A reference that is made on a condition.
unfoldable pub ref_if : Bool → (a flags : ℕ) (strong : Bool) → Image → Image
unfolding add_ref
ref_if b a flags strong img = if b then add_ref a flags strong img else img

abbrev pub flag : Bool → ℕ → ℕ
flag b n = if b then n else 0

-- The flags of the access of an instruction to its operand.
unfoldable pub access_flags : Insn → Operand → ℕ
access_flags d o =
    let f : ℕ = bit_or (flag d.acc.reads rf_rd) (
      bit_or (flag d.acc.writes rf_wr) (
        bit_or (flag d.acc.takes_address rf_addr) (
          bit_or (flag d.acc.is_byte rf_byte) (
            bit_or (flag d.acc.is_retcell rf_retcell) (
              bit_or (flag (d.is_cls || d.is_csv) (bit_or rf_secnum rf_rd))
                (flag o.indexed rf_idx)))))) in
    if f == 0 then rf_opnd else f

-- The pointer of a branch, its target, and the return point of a call.
unfoldable pub branch_refs : (w : ℕ) → Operand → (strong : Bool) → Image → Image
branch_refs w o strong img =
    let call : Bool = prev_is_spa img w in
    let pointer : Image =
      ref_if (o.indirect && not o.ptr_gsym) o.ptr
        (bit_or (bit_or rf_ptr rf_rd) (flag o.ptr_is_slot rf_retcell)) strong img in
    let target : Image = ref_if o.ea_known o.ea (if call then rf_call else rf_br) strong pointer in
    ref_if call (baddr (w + 1)) rf_br strong target

abbrev pub is_memory : OpKind → Bool
is_memory ok_mem = true
is_memory _ = false

unfoldable pub memory_refs : Insn → Operand → (strong : Bool) → Image → Image
memory_refs d o strong img =
    let callee : Image =
      ref_if ((d.is_cls || d.is_csv) && o.callee_known) o.callee rf_call strong img in
    let pointer : Image =
      ref_if (o.indirect && not o.ptr_gsym) o.ptr (bit_or rf_ptr rf_rd) strong callee in
    let f : ℕ = access_flags d o in
    if not (is_memory o.kind)
    then callee
    else if not o.ea_known
    then pointer
    else ref_if d.acc.is_double ((o.ea + 2) % 65536) (bit_or f rf_dbl) strong
        (add_ref o.ea f strong pointer)

unfoldable pub note_operand_refs : (w : ℕ) → Insn → Operand → (strong : Bool) → Image → Image
note_operand_refs w d o strong img =
    let seen : Image = if d.is_csv && strong then record img { seen_csv = true } else img in
    if is_branch d.cls
    then if d.is_brx
      then add_table_refs (brx_table img w 64) strong seen
      else branch_refs w o strong seen
    else memory_refs d o strong seen

-- A word that may be an instruction.
abbrev pub is_readable : Image → ℕ → Bool
is_readable img w =
    img.loaded w && not (img.is_text w || (img.call_slot w || (img.is_data w || img.is_struct w)))

unfoldable pub gather_word : Options → (w : ℕ) → Image → Image
gather_word opts w img =
    let d : Insn = decode_insn (img.word w) in
    if is_readable img w && is_valid d
    then note_operand_refs w d (compute_operand opts img w d) (img.is_code w) img
    else img

unfoldable pub gather_loop : Options → (left w : ℕ) → Image → Image
gather_loop opts zero w img = img
gather_loop opts (suc left) w img = gather_loop opts left (w + 1) (gather_word opts w img)

unfoldable pub entry_refs : List ℕ → Image → Image
entry_refs [] img = img
entry_refs (e ∷ es) img = entry_refs es (add_ref (baddr e) rf_entry true img)

unfoldable pub gather_refs : Options → Image → Image
gather_refs opts img =
    gather_loop opts max_mem_words 0
      (entry_refs img.entry_points (record img { ref_s = λ _. 0; ref_w = λ _. 0; refcnt = λ _. 0 }))

unfoldable pub twb_loop : (left i : ℕ) → Image → Image
twb_loop zero i img = img
twb_loop (suc left) i img = twb_loop left (i + 1) (
    if leb max_mem_words i || (not (img.loaded i) || img.is_code i) then img else struct_word i img)

-- The first 16 words of the CDS, when the program calls the monitor.
unfoldable pub apply_twb : Options → Image → Image
apply_twb opts img = if opts.g_given && img.seen_csv then twb_loop 16 (idx opts.g) img else img

-- `s & flags` is not 0.
abbrev pub has_any : (s flags : ℕ) → Bool
has_any s flags = not (bit_and s flags == 0)

abbrev pub data_flags : ℕ
data_flags = 0x1eac

abbrev pub code_flags : ℕ
code_flags = 0x103

-- A loaded word that is neither code nor text.
abbrev pub is_untraced : Image → ℕ → Bool
is_untraced img w = ltb w max_mem_words && (img.loaded w && not (img.is_code w || img.is_text w))

-- An untraced word of 0 is data.
unfoldable pub zero_data : Image → Image
zero_data img = record img { is_data = λ w. is_untraced img w && img.word w == 0; seen_csv = false }

-- So is one that traced code reads or writes and does not run.
unfoldable pub referenced_data : Image → Image
referenced_data img = record img {
  is_data = λ w.
      img.is_data w
      || (is_untraced img w
          && (has_any (img.ref_s w) data_flags && not (has_any (img.ref_s w) code_flags)));
}

unfoldable pub collect_refs : Options → Image → Image
collect_refs opts img =
    gather_refs opts (apply_twb opts (referenced_data (gather_refs opts (zero_data img))))

-- The entries, and the words that traced code calls, are roots.
-- `g_root[g_entry_points[e]]` is out of the bounds of the array for an entry.
unfoldable pub has_outside : List ℕ → Bool
has_outside [] = false
has_outside (e ∷ es) = leb max_mem_words e || has_outside es

unfoldable pub classify_roots : Image → Image
unfolding is_entry has_outside
classify_roots img = record img {
  root = λ i.
      img.root i
      || (is_entry i img.entry_points
          || ltb i max_mem_words && has_any (img.ref_s i) (bit_or rf_call rf_entry));
  escaped = img.escaped || has_outside img.entry_points;
}
