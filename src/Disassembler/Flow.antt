-- ===== src/Disassembler/Flow.antt =====
-- Pass 2b of Disassembler/disassembler_v7.c: the words that control flow reaches. The messages on
-- standard error are left out.
pub mod Base
pub mod Push
pub mod Inside
pub mod Steps
pub mod Round
pub mod Ends
pub mod Reached
pub mod Traced
pub mod Branch
pub mod Simulated
pub mod Exclusive
use mitra_15_for_simh.Prelude.{
  ℕ, zero, suc, ◌+◌, ◌%◌, Bool, true, false, not, ◌&&◌, ◌||◌, Option, none, some, List, [], ◌∷◌,
  ◌++◌, map, ◌==◌, leb, ltb, if◌then◌else◌, bit,
}
use mitra_15_for_simh.Disassembler.Insn.{Insn, is_branch}
use mitra_15_for_simh.Disassembler.Decode.{is_valid, decode_insn}
use mitra_15_for_simh.Disassembler.Image.{Options, Image, max_mem_words, touch, idx}
use mitra_15_for_simh.Disassembler.Operand.{
  Operand, is_spa, prev_is_spa, brx_table, compute_operand,
}

pub data EdgeKind : Type 0 where
  edge_entry edge_branch edge_fallthrough : EdgeKind

-- An entry of the work list, or a successor: a word, how it is reached, and after how many words.
pub record Edge : Type 0 where
  pub to : ℕ
  pub kind : EdgeKind
  pub hops : ℕ

-- The work list is the part from the index of the loop on, and the number of all that was pushed.
pub record Trace : Type 0 where
  pub image : Image
  pub pending : List Edge
  pub worklist_count : ℕ

abbrev pub set_flag : (ℕ → Bool) → ℕ → Bool → ℕ → Bool
set_flag f i b k = if k == i then b else f k

-- The word after, when it is in memory.
unfoldable pub next_word : (widx self_hops : ℕ) → List Edge
next_word widx self_hops =
    if ltb (widx + 1) max_mem_words
    then record { to = widx + 1; kind = edge_fallthrough; hops = self_hops + 1 } ∷ []
    else []

unfoldable pub branch_edge : Bool → (address : ℕ) → List Edge
branch_edge known address =
    if known then record { to = idx address; kind = edge_branch; hops = 0 } ∷ [] else []

unfoldable pub get_successors : Options → Image → (widx inst self_hops : ℕ) → List Edge
unfolding next_word branch_edge
get_successors opts img widx inst self_hops =
    let d : Insn = decode_insn inst in
    let o : Operand = compute_operand opts img widx d in
    if not (is_valid d)
    then []
    else if is_branch d.cls
    then (if not d.is_uncond || prev_is_spa img widx then next_word widx self_hops else [])
      ++ branch_edge (opts.follow_branches && (o.ea_known && not d.is_brx)) o.ea
    else if d.is_cls || d.is_csv
    then next_word widx self_hops ++ branch_edge (opts.follow_branches && o.callee_known) o.callee
    else if d.is_ret
    then []
    else next_word widx self_hops

unfoldable pub wl_push : Edge → Trace → Trace
wl_push e tr =
    let img : Image = touch e.to tr.image in
    if not (img.loaded e.to) || img.visited e.to then record tr { image = img } else record {
      image = record img { visited = set_flag img.visited e.to true };
      pending = tr.pending ++ e ∷ [];
      worklist_count = tr.worklist_count + 1;
    }

unfoldable pub push_all : List Edge → Trace → Trace
push_all [] tr = tr
push_all (e ∷ es) tr = push_all es (wl_push e tr)

abbrev pub entry_edge : ℕ → Edge
entry_edge w = record { to = w; kind = edge_entry; hops = 0 }

abbrev pub table_edge : ℕ → Edge
table_edge w = record { to = w; kind = edge_branch; hops = 0 }

unfoldable pub mark_ret_cell : (a : ℕ) → Image → Image
mark_ret_cell a img = record img {
  call_slot = set_flag img.call_slot (idx a) true;
  is_text = set_flag img.is_text (idx a) false;
}

-- An entry or a branch is trusted, and a word reached by few falls through.
unfoldable pub is_trusted : Options → Edge → Bool
is_trusted opts e = elim e.kind [
  | edge_fallthrough ↦ opts.fallthrough_demotes || leb e.hops opts.fallthrough_trust_hops
  | _ ↦ true
]

unfoldable pub is_strong : EdgeKind → Bool
is_strong edge_fallthrough = false
is_strong _ = true

unfoldable pub mark_code : Edge → Image → Image
unfolding is_strong
mark_code e img = record img {
  is_code = set_flag img.is_code e.to true;
  strong_code = if is_strong e.kind then set_flag img.strong_code e.to true else img.strong_code;
}

abbrev pub demote : ℕ → Image → Image
demote w img = record img { is_text = set_flag img.is_text w false }

-- SPA stores a return address in its operand.
unfoldable pub mark_spa : Options → (w : ℕ) → Image → Image
unfolding is_spa mark_ret_cell
mark_spa opts w img =
    let d : Insn = decode_insn (img.word w) in
    let o : Operand = compute_operand opts img w d in
    if not (is_valid d && is_spa d)
    then img
    else if o.ea_known
    then mark_ret_cell o.ea img
    else if o.gsym
    then record img { ret_goff = set_flag img.ret_goff (o.goff % 512) true }
    else img

-- The successors, and the words of the table of a BRX.
unfoldable pub push_next : Options → Edge → Trace → Trace
unfolding get_successors push_all
push_next opts e tr =
    let d : Insn = decode_insn (tr.image.word e.to) in
    let tr2 : Trace = push_all (get_successors opts tr.image e.to (tr.image.word e.to) e.hops) tr in
    if is_valid d && d.is_brx
    then push_all (map table_edge (brx_table tr2.image e.to 64)) tr2
    else tr2

-- One round of the loop, for the edge that it takes.
unfoldable pub visit : Options → Edge → Trace → Trace
unfolding is_trusted mark_code mark_spa push_next
visit opts e tr =
    let img1 : Image = mark_code e tr.image in
    if tr.image.call_slot e.to || tr.image.is_struct e.to
    then tr
    else if tr.image.is_text e.to
    then if is_trusted opts e
      then push_next opts e (record tr { image = mark_spa opts e.to (demote e.to img1) })
      else record tr { image = img1 }
    else push_next opts e (record tr { image = mark_spa opts e.to img1 })

-- The loop, with the rounds left: none when they run out.
unfoldable pub trace_loop : Options → (fuel : ℕ) → Trace → Option Trace
unfolding visit
trace_loop opts zero tr = elim tr.pending [ [] ↦ some tr | _ ↦ none ]
trace_loop opts (suc fuel) tr = elim tr.pending [
  | [] ↦ some tr
  | e ∷ rest ↦ trace_loop opts fuel (visit opts e (record tr { pending = rest }))
]

-- The start of a trace: the flags are cleared, and the entries are pushed.
unfoldable pub start_trace : Image → Trace
unfolding push_all wl_push
start_trace img = push_all (map entry_edge img.entry_points) (record {
  image = record img { visited = λ _. false; is_code = λ _. false; strong_code = λ _. false };
  pending = [];
  worklist_count = 0;
})

-- A round for each word of memory is enough.
unfoldable pub flow_trace_once : Options → Image → Option Trace
unfolding start_trace trace_loop
flow_trace_once opts img = trace_loop opts max_mem_words (start_trace img)

unfoldable pub count_flags : (n : ℕ) → (ℕ → Bool) → ℕ
count_flags zero f = 0
count_flags (suc n) f = count_flags n f + bit (f n)

unfoldable pub count_call_slots : Image → ℕ
count_call_slots img = count_flags max_mem_words img.call_slot + count_flags 512 img.ret_goff

-- `for (it = 0; it < 8; it++)`, with the rounds left.
unfoldable pub flow_rounds : Options → (left : ℕ) → Image → Option Image
flow_rounds opts zero img = some img
flow_rounds opts (suc left) img = elim (flow_trace_once opts img) [
  | none ↦ none
  | some tr ↦ elim (count_call_slots tr.image == count_call_slots img) [
    | true ↦ some tr.image
    | false ↦ flow_rounds opts left tr.image
  ]
]

unfoldable pub flow_trace : Options → Image → Option Image
unfolding flow_rounds
flow_trace opts img = flow_rounds opts 8 img
