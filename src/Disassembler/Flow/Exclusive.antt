-- ===== src/Disassembler/Flow/Exclusive.antt =====
-- The trace of Disassembler/disassembler_v7.c does not mark words of structures as code.
use mitra_15_for_simh.Prelude.{
  ℕ, zero, suc, ◌≤◌, ◌≡◌, ◌≢◌, inl, inr, refl, sym, ap, ◌∙◌, true, false, some, List, [], ◌∷◌, map,
  ◌==◌, Bool-cases,
}
use mathlib.Core.Path.{subst}
use mitra_15_for_simh.Disassembler.Image.{Options, Image, max_mem_words}
use mitra_15_for_simh.Disassembler.Flow.{
  Edge, Trace, visit, start_trace, entry_edge, flow_trace_once, flow_rounds, flow_trace,
  count_call_slots,
}
use mitra_15_for_simh.Disassembler.Flow.Base.{AreInside}
use mitra_15_for_simh.Disassembler.Flow.Push.{push_all-Pushed}
use mitra_15_for_simh.Disassembler.Flow.Round.{visit-VisitRound}
use mitra_15_for_simh.Disassembler.Flow.Ends.{
  visit-in_bounds, start_trace-in_bounds, loop_rule, flow_rounds-zero, flow_rounds-none,
  flow_rounds-next,
}
use mitra_15_for_simh.Disassembler.Flow.Reached.{pushed-SameBase}
use mitra_15_for_simh.Disassembler.Flow.Steps.{then-SameBase}
use mitra_15_for_simh.Disassembler.Flow.Traced.{some-injective, Option-cases}
use mitra_15_for_simh.Disassembler.Tables.{max_entry_points, count}
use mitra_15_for_simh.Disassembler.Tables.Consistent.{IsStructure, IsConsistent}

-- What each pass over the memory keeps holds after the last.
flow_rounds_rule {ℓ} :
    (opts : Options) (P : Image → Type ℓ)
    → ((now : Image) (t : Trace) → P now → flow_trace_once opts now ≡ some t → P t.image)
    → (left : ℕ) (now out : Image) → P now
    → flow_rounds opts left now ≡ some out
    → P out
flow_rounds_rule opts P keep zero now out p h =
    subst P (some-injective now out (sym (flow_rounds-zero opts now) ∙ h)) p
flow_rounds_rule opts P keep (suc left) now out p h =
    elim (Option-cases (flow_trace_once opts now)) [
      | inl e ↦ let n = flow_rounds-none opts left now e in absurd (cc)
      | inr (t, e) ↦
          let next = flow_rounds-next opts left now t e in
          let kept = keep now t p e in
          elim (Bool-cases (count_call_slots t.image == count_call_slots now)) [
            | inl stable ↦ subst P (some-injective t.image out (sym (rw stable at next) ∙ h)) kept
            | inr moved ↦
                flow_rounds_rule opts P keep left t.image out kept (sym (rw moved at next) ∙ h)
          ]
    ]

-- A word of a structure that a round takes is left as it is.
visit-IsStructure :
    (opts : Options) (s : Trace) (e : Edge) (rest : List Edge)
    → IsConsistent s.image
    → (w : ℕ) → s.image.is_struct w ≡ true
    → IsStructure (visit opts e (record s { pending = rest })).image w
visit-IsStructure opts s e rest h w on =
    let r = visit-VisitRound opts e (record s { pending = rest }) in
    let t = visit opts e (record s { pending = rest }) in
    let base = then-SameBase r.marked.base (pushed-SameBase _ _ r.pushed.image) in
    let old = h.structures w on in
    record {
      is_loaded = sym (ap (λ f. f w) base.loaded) ∙ old.is_loaded;
      no_text = elim (Bool-cases (t.image.is_text w)) [
        | inr off ↦ off
        | inl set ↦
            let before =
              r.marked.text_shrinks w
                (sym (ap (λ (i : Image). i.is_text w) r.pushed.image) ∙ set) in
            absurd (cc)
      ];
      no_code = elim (Bool-cases (t.image.is_code w)) [
        | inr off ↦ off
        | inl set ↦
            let marked : r.middle.is_code w ≡ true =
              sym (ap (λ (i : Image). i.is_code w) r.pushed.image) ∙ set in
            elim (r.marked.newly_code w marked) [
              | inl before ↦ absurd (cc)
              | inr here ↦
                  let same = r.skips (rw (sym here) on) in
                  let before : s.image.is_code w ≡ true =
                    sym (ap (λ (i : Image). i.is_code w) same) ∙ marked in
                  absurd (cc)
            ]
      ];
    }

visit-IsConsistent :
    (opts : Options) (s : Trace) (e : Edge) (rest : List Edge)
    → s.pending ≡ e ∷ rest
    → IsConsistent s.image
    → IsConsistent (visit opts e (record s { pending = rest })).image
visit-IsConsistent opts s e rest q h =
    let r = visit-VisitRound opts e (record s { pending = rest }) in
    let base = then-SameBase r.marked.base (pushed-SameBase _ _ r.pushed.image) in
    record {
      bounded = λ w l. h.bounded w (ap (λ f. f w) base.loaded ∙ l);
      structures = λ w on. visit-IsStructure opts s e rest h w (ap (λ f. f w) base.is_struct ∙ on);
      entries_fit = subst (λ es. count es ≤ max_entry_points) base.entry_points h.entries_fit;
      entries_inside = subst AreInside base.entry_points h.entries_inside;
      in_bounds = visit-in_bounds opts s e rest h.in_bounds;
      prts = subst (λ f. f 6 ≢ 0xfffe) base.word h.prts;
    }

start_trace-IsConsistent : (img : Image) → IsConsistent img → IsConsistent (start_trace img).image
unfolding start_trace
start_trace-IsConsistent img h =
    let blank : Trace = record {
      image = record img { visited = λ _. false; is_code = λ _. false; strong_code = λ _. false };
      pending = [];
      worklist_count = 0;
    } in
    let p = push_all-Pushed (map entry_edge img.entry_points) blank in
    let safe = start_trace-in_bounds img h.entries_inside h.in_bounds in
    subst IsConsistent (sym p.image) (record {
      bounded = h.bounded;
      entries_inside = h.entries_inside;
      in_bounds = safe;
      prts = h.prts;
      structures = λ w on.
          let old = h.structures w on in
          record { is_loaded = old.is_loaded; no_text = old.no_text; no_code = refl };
      entries_fit = h.entries_fit;
    })

flow_trace_once-IsConsistent :
    (opts : Options) (now : Image) (t : Trace)
    → IsConsistent now
    → flow_trace_once opts now ≡ some t
    → IsConsistent t.image
unfolding flow_trace_once
flow_trace_once-IsConsistent opts now t h e =
    (loop_rule opts (λ s. IsConsistent s.image) (visit-IsConsistent opts) max_mem_words
      (start_trace now) t (start_trace-IsConsistent now h) e).0

pub flow_trace-IsConsistent :
    (opts : Options) (img out : Image)
    → IsConsistent img
    → flow_trace opts img ≡ some out
    → IsConsistent out
unfolding flow_trace
flow_trace-IsConsistent opts img out h =
    flow_rounds_rule opts IsConsistent (flow_trace_once-IsConsistent opts) 8 img out h
