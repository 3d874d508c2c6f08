-- ===== src/Disassembler/Flow/Inside.antt =====
-- The successors in Disassembler/disassembler_v7.c are words of memory.
use mitra_15_for_simh.Prelude.{
  ℕ, zero, suc, ◌+◌, inl, inr, Bool, true, false, not, ◌&&◌, ◌||◌, List, [], ◌∷◌, ◌++◌, map, ltb,
  arith, Bool-cases, if◌then◌else◌,
}
use mitra_15_for_simh.Disassembler.Insn.{is_branch}
use mitra_15_for_simh.Disassembler.Decode.{is_valid, decode_insn}
use mitra_15_for_simh.Disassembler.Image.{Options, Image, max_mem_words}
use mitra_15_for_simh.Disassembler.Operand.{
  prev_is_spa, is_table_entry, brx_loop, brx_table, compute_operand,
}
use mitra_15_for_simh.Disassembler.Flow.{
  Edge, entry_edge, table_edge, next_word, branch_edge, get_successors,
}
use mitra_15_for_simh.Disassembler.Flow.Base.{AllInside, no_edge, an_edge, AreInside}

pub split-AllInside : (es fs : List Edge) → AllInside (es ++ fs) → AllInside es × AllInside fs
split-AllInside [] fs h = (no_edge, h)
split-AllInside (e ∷ es) fs (an_edge b h) =
    let (first, last) = split-AllInside es fs h in (an_edge b first, last)

pub entries-AllInside : (es : List ℕ) → AreInside es → AllInside (map entry_edge es)
entries-AllInside [] h = no_edge
entries-AllInside (e ∷ es) (b, h) = an_edge b (entries-AllInside es h)

pub append-AllInside : (es fs : List Edge) → AllInside es → AllInside fs → AllInside (es ++ fs)
append-AllInside [] fs h k = k
append-AllInside (e ∷ es) fs (an_edge b h) k = an_edge b (append-AllInside es fs h k)

pub if-AllInside :
    (b : Bool) (es fs : List Edge) → AllInside es → AllInside fs → AllInside (if b then es else fs)
if-AllInside true es fs h k = h
if-AllInside false es fs h k = k

pub next_word-AllInside : (w hops : ℕ) → AllInside (next_word w hops)
unfolding next_word
next_word-AllInside w hops = elim (Bool-cases (ltb (w + 1) max_mem_words)) [
  | inl e ↦ rw e (an_edge (ground arith) no_edge)
  | inr e ↦ rw e no_edge
]

pub branch_edge-AllInside : (b : Bool) (a : ℕ) → AllInside (branch_edge b a)
unfolding branch_edge
branch_edge-AllInside true a = an_edge (omega arith) no_edge
branch_edge-AllInside false a = no_edge

pub get_successors-AllInside :
    (opts : Options) (img : Image) (w inst hops : ℕ)
    → AllInside (get_successors opts img w inst hops)
unfolding get_successors next_word branch_edge
get_successors-AllInside opts img w inst hops =
    let d = decode_insn inst in
    let o = compute_operand opts img w d in
    let next = next_word-AllInside w hops in
    if-AllInside (not (is_valid d)) _ _ no_edge (
      if-AllInside (is_branch d.cls) _ _
        (append-AllInside _ _ (if-AllInside (not d.is_uncond || prev_is_spa img w) _ _ next no_edge)
          (branch_edge-AllInside (opts.follow_branches && (o.ea_known && not d.is_brx)) o.ea))
        (if-AllInside (d.is_cls || d.is_csv) _ _
          (append-AllInside _ _ next
            (branch_edge-AllInside (opts.follow_branches && o.callee_known) o.callee))
          (if-AllInside d.is_ret _ _ no_edge next)))

pub brx_loop-AllInside :
    (img : Image) (left j : ℕ) → AllInside (map table_edge (brx_loop img left j))
unfolding brx_loop is_table_entry
brx_loop-AllInside img zero j = no_edge
brx_loop-AllInside img (suc left) j = elim (Bool-cases (is_table_entry img j)) [
  | inl e ↦ rw e (an_edge (ground (arith, e)) (brx_loop-AllInside img left (j + 1)))
  | inr e ↦ rw e no_edge
]

pub table_edges-AllInside :
    (b : Bool) (img : Image) (w : ℕ)
    → AllInside (if b then map table_edge (brx_table img w 64) else [])
unfolding brx_table
table_edges-AllInside b img w = if-AllInside b _ _ (brx_loop-AllInside img 64 (w + 1)) no_edge
