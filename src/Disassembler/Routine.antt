-- ===== src/Disassembler/Routine.antt =====
-- Pass 3b of Disassembler/disassembler_v7.c: the role of a routine, from what its entry reaches without
-- entering callees. The counts and the callees, which only the text of its profile shows, are left
-- out.
pub mod Edges
pub mod Ends
use Prim.Native.String.{String}
use mitra_15_for_simh.Prelude.{
  ℕ, zero, suc, ◌+◌, Bool, true, false, not, ◌&&◌, ◌||◌, Option, none, some, List, [], ◌∷◌, ◌++◌,
  map, ltb, if◌then◌else◌,
}
use mitra_15_for_simh.Disassembler.Insn.{Insn, is_branch}
use mitra_15_for_simh.Disassembler.Decode.{decode_insn, is_valid, has_name}
use mitra_15_for_simh.Disassembler.Image.{Options, Image, max_mem_words, idx}
use mitra_15_for_simh.Disassembler.Operand.{brx_table, compute_operand, prev_is_spa}
use mitra_15_for_simh.Disassembler.Flow.{
  Edge, EdgeKind, edge_branch, set_flag, get_successors, table_edge,
}

-- ROLE_RTS, ROLE_RSV, ROLE_DIT, ROLE_DITR, ROLE_CSV and ROLE_CLS.
pub record Role : Type 0 where
  pub rts : Bool
  pub rsv : Bool
  pub dit : Bool
  pub ditr : Bool
  pub csv : Bool
  pub cls : Bool

pub record Scan : Type 0 where
  pub role : Role
  pub seen : ℕ → Bool
  pub stack : List ℕ
  pub pushes : ℕ

-- `if (!seen[w]) { seen[w] = true; stack[sp++] = w; }`
unfoldable pub offer : (w : ℕ) → Scan → Scan
offer w sc =
    if sc.seen w
    then sc
    else record sc { seen = set_flag sc.seen w true; stack = w ∷ sc.stack; pushes = sc.pushes + 1 }

unfoldable pub offer_all : List Edge → Scan → Scan
offer_all [] sc = sc
offer_all (e ∷ es) sc = offer_all es (offer e.to sc)

abbrev pub is_branch_edge : EdgeKind → Bool
is_branch_edge edge_branch = true
is_branch_edge _ = false

-- The edges that do not enter a callee.
unfoldable pub inside : (callsite : Bool) → List Edge → List Edge
inside callsite [] = []
inside callsite (e ∷ es) =
    let rest = inside callsite es in if callsite && is_branch_edge e.kind then rest else e ∷ rest

unfoldable pub note_role : Insn → Role → Role
note_role d r = record {
  rts = r.rts || has_name "RTS" d;
  rsv = r.rsv || has_name "RSV" d;
  dit = r.dit || has_name "DIT" d;
  ditr = r.ditr || has_name "DITR" d;
  csv = r.csv || d.is_csv;
  cls = r.cls || d.is_cls;
}

-- The edges of an instruction, those of a jump table first.
unfoldable pub inner_edges : Options → Image → (w : ℕ) → List Edge
inner_edges opts img w =
    let d : Insn = decode_insn (img.word w) in
    let callsite : Bool = d.is_cls || (d.is_csv || is_branch d.cls && prev_is_spa img w) in
    (if d.is_brx then map table_edge (brx_table img w 64) else [])
    ++ inside callsite (get_successors opts img w (img.word w) 0)

abbrev pub is_instruction : Image → ℕ → Bool
is_instruction img w =
    img.loaded w
    && (not (img.is_text w || (img.is_struct w || img.call_slot w))
        && is_valid (decode_insn (img.word w)))

-- A round, for the word that it takes from the stack.
unfoldable pub scan_word : Options → Image → (w : ℕ) → Scan → Scan
scan_word opts img w sc =
    if is_instruction img w
    then offer_all (inner_edges opts img w)
        (record sc { role = note_role (decode_insn (img.word w)) sc.role })
    else sc

-- The loop, with the rounds left: none when they run out.
unfoldable pub scan_loop : Options → Image → (fuel : ℕ) → Scan → Option Scan
scan_loop opts img zero sc = elim sc.stack [ [] ↦ some sc | _ ↦ none ]
scan_loop opts img (suc fuel) sc = elim sc.stack [
  | [] ↦ some sc
  | w ∷ rest ↦ scan_loop opts img fuel (scan_word opts img w (record sc { stack = rest }))
]

-- The body of a module entry is scanned from the target of its branch.
unfoldable pub scan_start : Options → Image → (root : ℕ) → ℕ
scan_start opts img root =
    let b : Insn = decode_insn (img.word (root + 1)) in
    let ob = compute_operand opts img (root + 1) b in
    if img.modentry root
      && (ltb (root + 1) max_mem_words && (is_valid b && (is_branch b.cls && ob.ea_known)))
    then idx ob.ea
    else root

unfoldable pub scan_routine : Options → Image → (root : ℕ) → Option Scan
scan_routine opts img root = scan_loop opts img max_mem_words (record {
  role = record {
    rts = false;
    rsv = img.modentry root;
    dit = false;
    ditr = false;
    csv = false;
    cls = false;
  };
  seen = set_flag (λ _. false) (scan_start opts img root) true;
  stack = scan_start opts img root ∷ [];
  pushes = 1;
})
