-- ===== src/Disassembler/Routine/Edges.antt =====
-- The edges that `scan_routine` of Disassembler/disassembler_v7.c takes lead to words of memory.
use mitra_15_for_simh.Prelude.{ℕ, ◌+◌, Bool, List, [], ◌∷◌, ◌&&◌}
use mitra_15_for_simh.Disassembler.Decode.{decode_insn}
use mitra_15_for_simh.Disassembler.Image.{Options, Image}
use mitra_15_for_simh.Disassembler.Operand.{brx_table}
use mitra_15_for_simh.Disassembler.Flow.{Edge}
use mitra_15_for_simh.Disassembler.Flow.Base.{AllInside, no_edge, an_edge}
use mitra_15_for_simh.Disassembler.Flow.Inside.{
  append-AllInside, if-AllInside, get_successors-AllInside, brx_loop-AllInside,
}
use mitra_15_for_simh.Disassembler.Routine.{inside, inner_edges, is_branch_edge}

inside-AllInside :
    (callsite : Bool) (es : List Edge) → AllInside es → AllInside (inside callsite es)
unfolding inside
inside-AllInside callsite [] h = no_edge
inside-AllInside callsite (e ∷ es) (an_edge b h) =
    if-AllInside (callsite && is_branch_edge e.kind) _ _ (inside-AllInside callsite es h)
      (an_edge b (inside-AllInside callsite es h))

pub inner_edges-AllInside :
    (opts : Options) (img : Image) (w : ℕ) → AllInside (inner_edges opts img w)
unfolding inner_edges brx_table
inner_edges-AllInside opts img w =
    append-AllInside _ _
      (if-AllInside (decode_insn (img.word w)).is_brx _ _ (brx_loop-AllInside img 64 (w + 1))
        no_edge)
      (inside-AllInside _ _ (get_successors-AllInside opts img w (img.word w) 0))
