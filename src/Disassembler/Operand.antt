-- ===== src/Disassembler/Operand.antt =====
-- The operand of an instruction of Disassembler/disassembler_v7.c, from what a static tool knows, and the
-- words around a branch.
use mitra_15_for_simh.Prelude.{
  ℕ, zero, suc, ◌+◌, ◌-◌, ◌*◌, ◌%◌, Bool, true, false, not, ◌&&◌, ◌||◌, Option, none, some, List,
  [], ◌∷◌, ◌==◌, ltb, if◌then◌else◌,
}
use mitra_15_for_simh.Disassembler.Insn.{
  Insn, cl_noopnd, AmKind, am_imm, am_dl, am_dg, am_rp, am_rm, am_px, am_il, am_bil, am_ilx, am_igx,
  am_big, is_branch, is_mem,
}
use mitra_15_for_simh.Disassembler.Decode.{is_valid, has_name, decode_insn}
use mitra_15_for_simh.Disassembler.Image.{Options, Image, max_mem_words, idx}

pub data OpKind : Type 0 where
  ok_none ok_imm ok_mem : OpKind

-- `secno` is none for -1.
pub record Operand : Type 0 where
  pub kind : OpKind
  pub ea_known : Bool
  pub ea : ℕ
  pub indexed : Bool
  pub indirect : Bool
  pub via_x : Bool
  pub ptr : ℕ
  pub ptr_static : Bool
  pub ptr_val : ℕ
  pub ptr_is_slot : Bool
  pub secno : Option ℕ
  pub callee_known : Bool
  pub callee : ℕ
  pub callee_l : ℕ
  pub gsym : Bool
  pub goff : ℕ
  pub ptr_gsym : Bool
  pub ptr_goff : ℕ
  pub tgt_gsym : Bool

abbrev pub no_operand : Operand
no_operand = record {
  kind = ok_none;
  ea_known = false;
  ea = 0;
  indexed = false;
  indirect = false;
  via_x = false;
  ptr = 0;
  ptr_static = false;
  ptr_val = 0;
  ptr_is_slot = false;
  secno = none;
  callee_known = false;
  callee = 0;
  callee_l = 0;
  gsym = false;
  goff = 0;
  ptr_gsym = false;
  ptr_goff = 0;
  tgt_gsym = false;
}

unfoldable pub is_spa : Insn → Bool
unfolding has_name
is_spa d = is_mem d.cls && has_name "SPA" d

-- A word that the analysis may decode.
abbrev pub is_decodable : Image → ℕ → Bool
is_decodable img w = img.loaded w && (not (img.is_text w) && not (img.is_struct w))

unfoldable pub prev_is_spa : Image → (widx : ℕ) → Bool
prev_is_spa img widx =
    not (widx == 0)
    && (is_decodable img (widx - 1)
        && (is_valid (decode_insn (img.word (widx - 1)))
            && is_spa (decode_insn (img.word (widx - 1)))))

-- A word of a jump table: BRU.
unfoldable pub is_table_entry : Image → ℕ → Bool
is_table_entry img j =
    ltb j max_mem_words
    && (is_decodable img j
        && (is_valid (decode_insn (img.word j))
            && (is_branch (decode_insn (img.word j)).cls && (decode_insn (img.word j)).is_uncond)))

unfoldable pub brx_loop : Image → (left j : ℕ) → List ℕ
brx_loop img zero j = []
brx_loop img (suc left) j =
    let rest = brx_loop img left (j + 1) in if is_table_entry img j then j ∷ rest else []

-- The words of the table that follows a BRX, at most `max` of them.
unfoldable pub brx_table : Image → (w max : ℕ) → List ℕ
unfolding brx_loop
brx_table img w max = brx_loop img max (w + 1)

-- The section or the module that CLS or CSV names.
unfoldable pub immediate_operand : Image → Insn → Operand
immediate_operand img d =
    let o : Operand = record no_operand { kind = ok_imm } in
    if not (d.is_cls || d.is_csv)
    then o
    else if d.is_cls && img.prt_valid d.disp
    then record o {
      secno = some d.disp;
      callee_known = true;
      callee = img.prt_p d.disp;
      callee_l = img.prt_l d.disp;
    }
    else if d.is_csv && img.mon_valid d.disp
    then record o { secno = some d.disp; callee_known = true; callee = img.mon_p d.disp }
    else record o { secno = some d.disp }

-- A pointer cell with a constant is followed, unless it is a return cell.
unfoldable pub through_pointer : Options → Image → Operand → Operand
through_pointer opts img o' =
    let pi : ℕ = idx o'.ptr in
    let o : Operand = record o' { ptr_is_slot = img.call_slot pi } in
    if not (opts.ptr_follow && img.loaded pi && not (img.is_text pi) && not (img.call_slot pi))
    then o
    else let o2 : Operand = record o { ptr_static = true; ptr_val = img.word pi } in
      if not opts.g_given && not opts.gprime_zero
      then record o2 { tgt_gsym = true }
      else let t : ℕ = ((if opts.gprime_zero then 0 else opts.g) + img.word pi) % 65536 in
        if not (img.word pi == 0) && (not (t % 2 == 1) && img.loaded (idx t))
        then record o2 { ea_known = true; ea = t }
        else o2

-- An effective address that is known.
abbrev pub at_address : ℕ → Operand
at_address ea = record no_operand { kind = ok_mem; ea_known = true; ea = ea }

-- A pointer relative to G, which may be unknown.
unfoldable pub global_pointer : Options → Image → (offset : ℕ) (indexed : Bool) → Operand
unfolding through_pointer
global_pointer opts img offset indexed =
    let o : Operand = record no_operand { kind = ok_mem; indirect = true; indexed = indexed } in
    if not opts.g_given
    then record o { ptr_gsym = true; ptr_goff = offset; ptr_is_slot = img.ret_goff (offset % 512) }
    else through_pointer opts img (record o { ptr = (opts.g + offset) % 65536 })

unfoldable pub local_pointer : Options → Image → (offset : ℕ) (indexed : Bool) → Operand
unfolding through_pointer
local_pointer opts img offset indexed = through_pointer opts img (record no_operand {
  kind = ok_mem;
  indirect = true;
  indexed = indexed;
  ptr = (opts.l + offset) % 65536;
})

-- Data operands count D in `disp_scale` bytes; the offset of a branch is in words.
unfoldable pub operand_for : Options → Image → (widx : ℕ) → Insn → AmKind → Operand
unfolding immediate_operand global_pointer local_pointer
operand_for opts img widx d am_imm = immediate_operand img d
operand_for opts img widx d am_dl = at_address ((opts.l + d.disp * opts.disp_scale) % 65536)
operand_for opts img widx d am_dg =
    if not opts.g_given
    then record no_operand { kind = ok_mem; gsym = true; goff = d.disp * opts.disp_scale % 65536 }
    else at_address ((opts.g + d.disp * opts.disp_scale) % 65536)
operand_for opts img widx d am_rp =
    at_address ((widx * 2 + opts.rel_base * 2 + d.disp * opts.br_scale) % 65536)
operand_for opts img widx d am_rm =
    at_address ((widx * 2 + opts.rel_base * 2 + 4294967296 - d.disp * opts.br_scale) % 65536)
operand_for opts img widx d am_px = record no_operand { kind = ok_mem; via_x = true }
operand_for opts img widx d am_il = local_pointer opts img (d.disp * opts.disp_scale) false
operand_for opts img widx d am_bil = local_pointer opts img (d.disp * opts.disp_scale) false
operand_for opts img widx d am_ilx = local_pointer opts img (d.disp * opts.disp_scale) true
operand_for opts img widx d am_igx = global_pointer opts img (d.disp * opts.disp_scale) true
operand_for opts img widx d am_big = global_pointer opts img (d.disp * opts.disp_scale) false
operand_for opts img widx d _ = no_operand

unfoldable pub compute_operand : Options → Image → (widx : ℕ) → Insn → Operand
unfolding operand_for
compute_operand opts img widx d = elim d.cls as (λ _. Operand) [
  | cl_noopnd ↦ no_operand
  | _ ↦ operand_for opts img widx d d.am
]
