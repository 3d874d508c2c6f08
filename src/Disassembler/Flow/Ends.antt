-- ===== src/Disassembler/Flow/Ends.antt =====
-- The loop of `flow_trace_once` of Disassembler/disassembler_v7.c ends, and its work list has room.
use mathlib.Core.Path.{subst}
use mitra_15_for_simh.Prelude.{
  ℕ, zero, suc, ◌+◌, ◌≤◌, ◌≡◌, ◌⊎◌, inl, inr, refl, sym, ap, ◌∙◌, false, none, some, List, [], ◌∷◌,
  map, arith, ◌==◌, ==_iff, Bool-cases, if◌then◌else◌,
}
use mitra_15_for_simh.Disassembler.Image.{Options, Image, max_mem_words}
use mitra_15_for_simh.Disassembler.Flow.{
  Edge, Trace, visit, trace_loop, start_trace, flow_trace_once, flow_trace, flow_rounds,
  count_call_slots, entry_edge,
}
use mitra_15_for_simh.Disassembler.Flow.Base.{
  length, IsBounded, AreInside, count_flags-le, count_flags-none,
}
use mitra_15_for_simh.Disassembler.Flow.Inside.{entries-AllInside}
use mitra_15_for_simh.Disassembler.Flow.Push.{IsCounted, push_all-Pushed}
use mitra_15_for_simh.Disassembler.Flow.Round.{visit-VisitRound}

pub List-cases {ℓ} :
    {A : Type ℓ} (xs : List A) → (xs ≡ []) ⊎ ((x : A) × (rest : List A) × (xs ≡ x ∷ rest))
List-cases [] = inl refl
List-cases (x ∷ xs) = inr (x, xs, refl)

pub trace_loop-next :
    (opts : Options) (fuel : ℕ) (tr : Trace) (e : Edge) (rest : List Edge)
    → tr.pending ≡ e ∷ rest
    → trace_loop opts (suc fuel) tr
      ≡ trace_loop opts fuel (visit opts e (record tr { pending = rest }))
unfolding trace_loop
trace_loop-next opts fuel tr e rest h = rw h

pub trace_loop-done :
    (opts : Options) (fuel : ℕ) (tr : Trace) → tr.pending ≡ [] → trace_loop opts fuel tr ≡ some tr
unfolding trace_loop
trace_loop-done opts zero tr h = rw h
trace_loop-done opts (suc fuel) tr h = rw h

trace_loop-out :
    (opts : Options) (tr : Trace) (e : Edge) (rest : List Edge)
    → tr.pending ≡ e ∷ rest
    → trace_loop opts zero tr ≡ none
unfolding trace_loop
trace_loop-out opts tr e rest h = rw h

done_rule {ℓ} :
    (opts : Options) (P : Trace → Type ℓ) (fuel : ℕ) (s t : Trace)
    → P s
    → trace_loop opts fuel s ≡ some t
    → s.pending ≡ []
    → P t × (t.pending ≡ [])
done_rule opts P fuel s t p h e =
    let ends : some s ≡ some t = sym (trace_loop-done opts fuel s e) ∙ h in
    let same : s ≡ t = cc in (subst P same p, sym (ap (λ (r : Trace). r.pending) same) ∙ e)

-- What a round keeps holds at the end, where the work list is empty.
pub loop_rule {ℓ} :
    (opts : Options) (P : Trace → Type ℓ)
    → ((s : Trace) (e : Edge) (rest : List Edge)
        → s.pending ≡ e ∷ rest
        → P s
        → P (visit opts e (record s { pending = rest })))
    → (fuel : ℕ) (s t : Trace) → P s
    → trace_loop opts fuel s ≡ some t
    → P t × (t.pending ≡ [])
loop_rule opts P keep zero s t p h = elim (List-cases s.pending) [
  | inl e ↦ done_rule opts P zero s t p h e
  | inr (x, rest, e) ↦ let out = trace_loop-out opts s x rest e in absurd (cc)
]
loop_rule opts P keep (suc fuel) s t p h = elim (List-cases s.pending) [
  | inl e ↦ done_rule opts P (suc fuel) s t p h e
  | inr (x, rest, e) ↦
      loop_rule opts P keep fuel (visit opts x (record s { pending = rest })) t (keep s x rest e p)
        (rw (trace_loop-next opts fuel s x rest e) at h)
]

-- A round counts each word that it pushes.
visit-counts :
    (opts : Options) (s : Trace) (e : Edge) (rest : List Edge)
    → IsCounted s
    → s.pending ≡ e ∷ rest
    → IsCounted (visit opts e (record s { pending = rest }))
      × ((visit opts e (record s { pending = rest })).worklist_count + length s.pending
          ≡ s.worklist_count + suc (length (visit opts e (record s { pending = rest })).pending))
visit-counts opts s e rest c h =
    let r = visit-VisitRound opts e (record s { pending = rest }) in
    (
      r.pushed.is_counted (record {
        bounded = λ w l. c.bounded w (rw (r.marked.base.loaded) l);
        counted = rw r.marked.visited c.counted;
      }),
      omega (arith, r.pushed.count, ap length h),
    )

count-le : (s : Trace) → IsCounted s → s.worklist_count ≤ max_mem_words
count-le s c = omega (arith, c.counted, count_flags-le max_mem_words s.image.visited)

trace_loop-ends :
    (opts : Options) (fuel : ℕ) (s : Trace)
    → IsCounted s
    → max_mem_words + length s.pending ≤ fuel + s.worklist_count
    → (t : Trace) × (trace_loop opts fuel s ≡ some t)
trace_loop-ends opts zero s c h = elim (List-cases s.pending) [
  | inl e ↦ (s, trace_loop-done opts zero s e)
  | inr (x, rest, e) ↦ absurd (omega (arith, count-le s c, ap length e))
]
trace_loop-ends opts (suc fuel) s c h = elim (List-cases s.pending) [
  | inl e ↦ (s, trace_loop-done opts (suc fuel) s e)
  | inr (x, rest, e) ↦
      let (counted, moved) = visit-counts opts s x rest c e in
      let (t, ends) =
        trace_loop-ends opts fuel (visit opts x (record s { pending = rest })) counted
          (omega (arith, moved)) in
      (t, trace_loop-next opts fuel s x rest e ∙ ends)
]

start_trace-IsCounted : (img : Image) → IsBounded img → IsCounted (start_trace img)
unfolding start_trace
start_trace-IsCounted img b =
    (push_all-Pushed (map entry_edge img.entry_points) _).is_counted
      (record { bounded = b; counted = sym (count_flags-none max_mem_words) })

start_trace-count :
    (img : Image) → (start_trace img).worklist_count ≡ length (start_trace img).pending
unfolding start_trace
start_trace-count img =
    let p =
      (push_all-Pushed (map entry_edge img.entry_points) (record {
        image = record img { visited = λ _. false; is_code = λ _. false; strong_code = λ _. false };
        pending = [];
        worklist_count = 0;
      })).count in
    omega (arith, p)

-- A round reads and writes no array out of its bounds.
pub visit-in_bounds :
    (opts : Options) (s : Trace) (e : Edge) (rest : List Edge)
    → s.image.escaped ≡ false
    → (visit opts e (record s { pending = rest })).image.escaped ≡ false
visit-in_bounds opts s e rest h =
    let r = visit-VisitRound opts e (record s { pending = rest }) in
    r.pushed.escapes r.inside (r.marked.escaped ∙ h)

pub start_trace-in_bounds :
    (img : Image)
    → AreInside img.entry_points
    → img.escaped ≡ false
    → (start_trace img).image.escaped ≡ false
unfolding start_trace
start_trace-in_bounds img inside h =
    (push_all-Pushed (map entry_edge img.entry_points) _).escapes
      (entries-AllInside img.entry_points inside) h

pass-ends :
    (opts : Options) (img : Image)
    → IsBounded img
    → (t : Trace) × (flow_trace_once opts img ≡ some t)
      × IsBounded t.image
      × (t.worklist_count ≤ max_mem_words)
unfolding flow_trace_once
pass-ends opts img b =
    let start = start_trace-IsCounted img b in
    let (t, ends) =
      trace_loop-ends opts max_mem_words (start_trace img) start
        (omega (arith, start_trace-count img)) in
    let (counted, _) =
      loop_rule opts IsCounted (λ s e rest q c. (visit-counts opts s e rest c q).0) max_mem_words
        (start_trace img) t start ends in
    (t, ends, counted.bounded, count-le t counted)

-- Where only words of memory are loaded and all entries are below 32768, a pass of the trace of
-- the disassembler ends within 32768 rounds, still loads only words of memory, has pushed at
-- most 32768 words, the length of its work list, and has pushed no word out of the bounds of the
-- arrays.
pub flow_trace_once-ends :
    (opts : Options) (img : Image)
    → IsBounded img
    → AreInside img.entry_points
    → img.escaped ≡ false
    → (t : Trace) × (flow_trace_once opts img ≡ some t)
      × IsBounded t.image
      × (t.worklist_count ≤ max_mem_words)
      × (t.image.escaped ≡ false)
unfolding flow_trace_once
flow_trace_once-ends opts img b inside safe =
    let (t, ends, bounded, room) = pass-ends opts img b in
    let (kept, _) =
      loop_rule opts (λ s. s.image.escaped ≡ false)
        (λ s e rest _ h. visit-in_bounds opts s e rest h) max_mem_words (start_trace img) t
        (start_trace-in_bounds img inside safe) ends in
    (t, ends, bounded, room, kept)

pub flow_rounds-next :
    (opts : Options) (left : ℕ) (img : Image) (t : Trace)
    → flow_trace_once opts img ≡ some t
    → flow_rounds opts (suc left) img ≡ (
        if count_call_slots t.image == count_call_slots img
        then some t.image
        else flow_rounds opts left t.image)
unfolding flow_rounds
flow_rounds-next opts left img t h =
    elim (Bool-cases (count_call_slots t.image == count_call_slots img)) [
      | inl e ↦ rw (h, flow_rounds, e) refl
      | inr e ↦ rw (h, flow_rounds, e) refl
    ]

pub flow_rounds-none :
    (opts : Options) (left : ℕ) (img : Image)
    → flow_trace_once opts img ≡ none
    → flow_rounds opts (suc left) img ≡ none
unfolding flow_rounds
flow_rounds-none opts left img h = rw (h, flow_rounds) refl

pub flow_rounds-zero : (opts : Options) (img : Image) → flow_rounds opts zero img ≡ some img
unfolding flow_rounds
flow_rounds-zero opts img = refl

flow_rounds-ends :
    (opts : Options) (left : ℕ) (img : Image)
    → IsBounded img
    → (out : Image) × (flow_rounds opts left img ≡ some out)
flow_rounds-ends opts zero img b = (img, flow_rounds-zero opts img)
flow_rounds-ends opts (suc left) img b =
    let (t, ends, bounded, _) = pass-ends opts img b in
    let next = flow_rounds-next opts left img t ends in
    elim (Bool-cases (count_call_slots t.image == count_call_slots img)) [
      | inl stable ↦ (t.image, rw stable at next)
      | inr moved ↦
          let (out, done) = flow_rounds-ends opts left t.image bounded in
          (out, (rw moved at next) ∙ done)
    ]

-- Where only words of memory are loaded, the trace of control flow ends.
pub flow_trace-ends :
    (opts : Options) (img : Image)
    → IsBounded img
    → (out : Image) × (flow_trace opts img ≡ some out)
unfolding flow_trace
flow_trace-ends opts img b = flow_rounds-ends opts 8 img b

-- One pass is enough where it stores no new return cell.
pub flow_trace-stable :
    (opts : Options) (img : Image) (t : Trace)
    → flow_trace_once opts img ≡ some t
    → count_call_slots t.image ≡ count_call_slots img
    → flow_trace opts img ≡ some t.image
unfolding flow_trace
flow_trace-stable opts img t h e =
    let next = flow_rounds-next opts 7 img t h in rw ((==_iff _ _).1 e) at next

pub count_call_slots-same :
    (a b : Image)
    → a.call_slot ≡ b.call_slot
    → a.ret_goff ≡ b.ret_goff
    → count_call_slots a ≡ count_call_slots b
unfolding count_call_slots
count_call_slots-same a b slots cells = rw (slots, cells) refl
