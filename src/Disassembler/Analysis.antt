-- ===== src/Disassembler/Analysis.antt =====
-- The passes of `analyze` of Disassembler/disassembler_v7.c, in their order.
pub mod Classified
use mitra_15_for_simh.Prelude.{ℕ, zero, Option, none, some, List, [], ◌∷◌, if◌then◌else◌}
use mitra_15_for_simh.Disassembler.Image.{Options, Image, max_mem_words}
use mitra_15_for_simh.Disassembler.Text.{find_text_candidates}
use mitra_15_for_simh.Disassembler.Tables.{
  add_entry, discover_prt, discover_system, find_module_entries,
}
use mitra_15_for_simh.Disassembler.Annotations.{Annotations, apply_annotations}
use mitra_15_for_simh.Disassembler.Flow.{flow_trace}
use mitra_15_for_simh.Disassembler.Refs.{collect_refs, classify_roots}

-- The trace starts at 0 when nothing else is given or found.
unfoldable pub default_entry : Image → Image
default_entry img = elim img.entry_points [ [] ↦ add_entry 0 img | _ ↦ img ]

-- The passes before the trace.
unfoldable pub prepare : Options → Annotations → Image → Image
unfolding default_entry
prepare opts notes img =
    let marked : Image = find_text_candidates opts 0 max_mem_words img in
    let tables : Image =
      if opts.structures then discover_system (discover_prt opts marked) else marked in
    default_entry (apply_annotations notes (find_module_entries tables))

unfoldable pub analyze : Options → Annotations → Image → Option Image
analyze opts notes img = elim (flow_trace opts (prepare opts notes img)) [
  | none ↦ none
  | some traced ↦ some (classify_roots (collect_refs opts traced))
]
