-- ===== src/Tests/Listing.antt =====
-- The analysis of the disassembler on a small program.
use mitra_15_for_simh.Prelude.{
  ℕ, ◌≤◌, ◌≡◌, ◌≢◌, ◌↔◌, ◌⊎◌, refl, true, false, none, some, List, [], ◌∷◌, Memᴰ, ltb, switch,
  arith,
}
use mitra_15_for_simh.State.{CpuState, reg_p}
use mitra_15_for_simh.Run.{done}
use mitra_15_for_simh.Status.{scpe_ok}
use mitra_15_for_simh.Decode.{dispatch}
use mitra_15_for_simh.Disassembler.Insn.{g1_acc, g2_acc, get_elem?, or_empty}
use mitra_15_for_simh.Disassembler.Decode.{
  am_for_hexcode, branch_insn, ctl_insn, decode_insn, has_name, memory_insn, shc_insn, srg_insn,
  sysop_insn, system_insn, undecoded,
}
use mitra_15_for_simh.Disassembler.Operand.{
  brx_loop, brx_table, compute_operand, global_pointer, immediate_operand, is_spa, is_table_entry,
  local_pointer, operand_for, prev_is_spa, through_pointer,
}
use mitra_15_for_simh.Disassembler.Image.{Options, Image, max_mem_words, idx}
use mitra_15_for_simh.Disassembler.Text.{find_text_candidates}
use mitra_15_for_simh.Disassembler.Text.Runs.{InTextRun, find_text_candidates-flags}
use mitra_15_for_simh.Disassembler.Flow.{
  Trace, branch_edge, get_successors, is_strong, is_trusted, mark_code, mark_ret_cell, mark_spa,
  next_word, push_all, push_next, start_trace, trace_loop, visit, wl_push, flow_trace_once,
  flow_trace,
}
use mitra_15_for_simh.Disassembler.Flow.Base.{IsBounded}
use mitra_15_for_simh.Disassembler.Flow.Ends.{
  flow_trace-stable, count_call_slots-same, flow_trace_once-ends, flow_trace-ends,
}
use mitra_15_for_simh.Disassembler.Flow.Reached.{Reached, FollowsTo}
use mitra_15_for_simh.Disassembler.Flow.Traced.{
  IsPlain, RunsTo, at_entry, after, is_code-Reached, RunsTo-is_code,
}
use mitra_15_for_simh.Disassembler.Flow.Branch.{HasDefaults, IsRelative, to_target-FollowsTo}
use mitra_15_for_simh.Disassembler.Flow.Simulated.{relative_branch-FollowsTo}
use mitra_15_for_simh.Disassembler.Tables.{count}
use mitra_15_for_simh.Disassembler.Load.{store_word, load_raw}
use mitra_15_for_simh.Disassembler.Load.Raw.{words, IsBlank, load_raw-words}
use mitra_15_for_simh.Disassembler.Refs.Classified.{IsClassified}
use mitra_15_for_simh.Disassembler.Annotations.{Annotations}
use mitra_15_for_simh.Disassembler.Routine.{Scan, scan_routine}
use mitra_15_for_simh.Disassembler.Routine.Ends.{scan_routine-ends}
use mitra_15_for_simh.Disassembler.Analysis.{analyze}
use mitra_15_for_simh.Disassembler.Analysis.Classified.{analyze-IsClassified}
use mitra_15_for_simh.Tests.Samples.{sample_host, slave}

abbrev sample_options : Options
sample_options = record {
  min_text_words = 2;
  follow_branches = true;
  fallthrough_demotes = false;
  fallthrough_trust_hops = 1;
  g = 0;
  l = 0;
  g_given = false;
  gprime_zero = false;
  rel_base = 0;
  disp_scale = 1;
  br_scale = 2;
  ptr_follow = true;
  structures = true;
}

-- A branch over two words of text, and RSV.
abbrev sample_image : Image
unfolding switch
sample_image = record {
  word = λ w. switch w ((0, 0xc703) ∷ (1, 0xc1c2) ∷ (2, 0xc3c4) ∷ (3, 0xf10c) ∷ []) 0;
  loaded = λ w. ltb w 4;
  is_text = λ _. false;
  is_code = λ _. false;
  strong_code = λ _. false;
  visited = λ _. false;
  call_slot = λ _. false;
  is_data = λ _. false;
  is_struct = λ _. false;
  ret_goff = λ _. false;
  root = λ _. false;
  modentry = λ _. false;
  entry_points = 0 ∷ [];
  prt_valid = λ _. false;
  prt_l = λ _. 0;
  prt_p = λ _. 0;
  mon_valid = λ _. false;
  mon_p = λ _. 0;
  ref_s = λ _. 0;
  ref_w = λ _. 0;
  refcnt = λ _. 0;
  seen_csv = false;
  escaped = false;
}

sample-IsBounded : IsBounded sample_image
unfolding sample_image
sample-IsBounded w h = ground arith

find_text_candidates-flags_example :
    ((find_text_candidates sample_options 0 4 sample_image).is_text 1 ≡ true)
    ↔ ((sample_image.is_text 1 ≡ true) ⊎ InTextRun sample_options sample_image 0 4 1)
find_text_candidates-flags_example = find_text_candidates-flags sample_options 0 4 sample_image 1

flow_trace_once-ends_example :
    (t : Trace) × (flow_trace_once sample_options sample_image ≡ some t)
    × IsBounded t.image
    × (t.worklist_count ≤ max_mem_words)
    × (t.image.escaped ≡ false)
unfolding sample_image
flow_trace_once-ends_example =
    flow_trace_once-ends sample_options sample_image sample-IsBounded (omega arith, tt) refl

flow_trace-ends_example : (out : Image) × (flow_trace sample_options sample_image ≡ some out)
flow_trace-ends_example = flow_trace-ends sample_options sample_image sample-IsBounded

abbrev sample_trace : Trace
unfolding flow_trace_once start_trace
sample_trace = elim (flow_trace_once sample_options sample_image) [
  | some t ↦ t
  | none ↦ start_trace sample_image
]

-- What one pass leaves.
record IsTraced (t : Trace) : Type 0 where
  ends : flow_trace_once sample_options sample_image ≡ some t
  slots : t.image.call_slot ≡ sample_image.call_slot
  return_cells : t.image.ret_goff ≡ sample_image.ret_goff
  plain : (w : ℕ) → (t.image.is_text w ≡ false) × (t.image.call_slot w ≡ false)
  code : t.image.is_code 3 ≡ true

sample-IsTraced : IsTraced sample_trace
unfolding sample_trace sample_image flow_trace_once branch_edge get_successors is_strong is_trusted
    mark_code mark_ret_cell mark_spa next_word push_all push_next start_trace trace_loop visit
    wl_push am_for_hexcode branch_insn ctl_insn decode_insn g1_acc g2_acc get_elem? has_name
    memory_insn or_empty shc_insn srg_insn sysop_insn system_insn undecoded brx_loop brx_table
    compute_operand global_pointer immediate_operand is_spa is_table_entry local_pointer operand_for
    prev_is_spa through_pointer switch
sample-IsTraced = record {
  ends = refl;
  slots = refl;
  return_cells = refl;
  plain = λ w. (refl, refl);
  code = refl;
}

sample-flow : flow_trace sample_options sample_image ≡ some sample_trace.image
sample-flow = flow_trace-stable sample_options sample_image sample_trace sample-IsTraced.ends (
    count_call_slots-same sample_trace.image sample_image sample-IsTraced.slots
      sample-IsTraced.return_cells)

is_code-Reached_example : Reached sample_options sample_image 3
is_code-Reached_example =
    is_code-Reached sample_options sample_image sample_trace.image 3 sample-flow
      sample-IsTraced.code

sample-HasDefaults : HasDefaults sample_options
sample-HasDefaults = record { follows = refl; from_here = refl; in_words = refl }

sample-IsRelative : IsRelative (sample_image.word 0)
unfolding sample_image switch
sample-IsRelative = record { digit = refl; no_brx = refl }

sample-IsPlain : (w : ℕ) → sample_image.loaded w ≡ true → IsPlain sample_image sample_trace.image w
unfolding sample_image
sample-IsPlain w on =
    let plain = sample-IsTraced.plain w in
    record { loaded = on; no_struct = refl; no_slot = plain.1; no_text = plain.0 }

sample-FollowsTo : FollowsTo sample_options sample_image 0 3
unfolding sample_image switch
sample-FollowsTo =
    to_target-FollowsTo sample_options sample_image 0 sample-HasDefaults sample-IsRelative

sample-RunsTo : RunsTo sample_options sample_image sample_trace.image 3
unfolding sample_image
sample-RunsTo =
    after (at_entry (Memᴰ.head refl) (sample-IsPlain 0 refl)) sample-FollowsTo
      (sample-IsPlain 3 refl)

RunsTo-is_code_example : sample_trace.image.is_code 3 ≡ true
RunsTo-is_code_example =
    RunsTo-is_code sample_options sample_image sample_trace.image 3 sample-flow sample-RunsTo

abbrev started : CpuState
started = record slave { reg = λ _. 2 }

relative_branch-FollowsTo_example :
    (t : CpuState) × (dispatch sample_host (sample_image.word 0) false started ≡ done scpe_ok t)
    × FollowsTo sample_options sample_image 0 (idx (t.reg reg_p))
relative_branch-FollowsTo_example =
    relative_branch-FollowsTo sample_options sample_image sample_host false 0 started
      sample-HasDefaults sample-IsRelative (omega arith) refl

abbrev file : List ℕ
file = 0xc7 ∷ 3 ∷ 0xc1 ∷ 0xc2 ∷ 0xc3 ∷ 0xc4 ∷ 0xf1 ∷ 0x0c ∷ []

abbrev blank_image : Image
blank_image = record sample_image { word = λ _. 0; loaded = λ _. false }

load_raw-words_example :
    ((load_raw file 0 blank_image).word 3 ≡ 0xf10c)
    × ((load_raw file 0 blank_image).loaded 3 ≡ true)
unfolding words count get_elem?
load_raw-words_example = load_raw-words file blank_image 3 0xf10c (omega arith) (omega arith) refl

empty-IsBlank : IsBlank blank_image
unfolding sample_image
empty-IsBlank = record { bounded = λ w h. absurd (cc); no_struct = λ w. refl; no_code = λ w. refl }

-- Word 2 is data, and the table at 0x40 is not loaded.
abbrev sample_notes : Annotations
sample_notes = record {
  words = record { addr = 4; count = 1 } ∷ [];
  vectors = record { start = 0x40; end = 0x44; lo = 0; hi = 0x100 } ∷ [];
  entries = 6 ∷ [];
}

file-prts : (load_raw file 0 blank_image).word 6 ≢ 0xfffe
unfolding load_raw store_word sample_image
file-prts e = omega (arith, e)

analyze-IsClassified_example :
    (out : Image) × (analyze sample_options sample_notes (load_raw file 0 blank_image) ≡ some out)
    × IsClassified out
unfolding count sample_image
analyze-IsClassified_example =
    analyze-IsClassified sample_options sample_notes file blank_image empty-IsBlank (omega arith)
      (omega arith, tt) refl file-prts

scan_routine-ends_example :
    (t : Scan) × (scan_routine sample_options sample_image 0 ≡ some t)
    × (t.stack ≡ [])
    × (t.pushes ≤ max_mem_words)
scan_routine-ends_example = scan_routine-ends sample_options sample_image 0 (omega arith)
