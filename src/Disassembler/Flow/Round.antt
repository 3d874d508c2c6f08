-- ===== src/Disassembler/Flow/Round.antt =====
-- A round of the trace of Disassembler/disassembler_v7.c as one statement: a marking, then pushes.
use mitra_15_for_simh.Prelude.{
  ◌≡◌, ◌⊎◌, inl, inr, refl, true, false, List, [], Memᴰ, ◌||◌, Bool-cases, arith,
}
use mathlib.Core.List.Memᴰ
use mitra_15_for_simh.Disassembler.Image.{Options, Image}
use mitra_15_for_simh.Disassembler.Flow.{
  Edge, Trace, is_trusted, mark_code, demote, mark_spa, push_next, visit,
}
use mitra_15_for_simh.Disassembler.Flow.Base.{AllInside, no_edge}
use mitra_15_for_simh.Disassembler.Flow.Push.{Pushed, nothing-Pushed}
use mitra_15_for_simh.Disassembler.Flow.Steps.{
  steps, Marked, same-Marked, then-Marked, mark_code-Marked, demote-Marked, mark_spa-Marked,
  push_next-Pushed, steps-AllInside,
}

-- Either the word is data, or it is code whose steps were pushed unless it is still text.
pub record VisitRound (opts : Options) (e : Edge) (s t : Trace) : Type 0 where
  pub middle : Image
  pub edges : List Edge
  pub marked : Marked e.to s.image middle
  pub pushed : Pushed edges (record s { image = middle }) t
  pub inside : AllInside edges
  pub from_steps : (x : Edge) → Memᴰ x edges → Memᴰ x (steps opts e.to e.hops middle)
  pub skips : s.image.is_struct e.to ≡ true → middle ≡ s.image
  pub settled :
      (middle.call_slot e.to ≡ true)
      ⊎ ((middle.is_struct e.to ≡ true)
          ⊎ ((middle.is_code e.to ≡ true)
              × ((middle.is_text e.to ≡ true)
                  ⊎ ((x : Edge) → Memᴰ x (steps opts e.to e.hops middle) → Memᴰ x edges))))

mark_code-now : (e : Edge) (img : Image) → (mark_code e img).is_code e.to ≡ true
unfolding mark_code
mark_code-now e img = ground arith

mark_code-text : (e : Edge) (img : Image) → (mark_code e img).is_text e.to ≡ img.is_text e.to
unfolding mark_code
mark_code-text e img = refl

-- The round of a word that is decoded.
decoded-VisitRound :
    (opts : Options) (e : Edge) (s : Trace) (img : Image)
    → Marked e.to s.image img
    → img.is_code e.to ≡ true
    → s.image.is_struct e.to ≡ false
    → VisitRound opts e s (push_next opts e (record s { image = mark_spa opts e.to img }))
decoded-VisitRound opts e s img m code plain =
    let spa = mark_spa-Marked opts e.to img in
    record {
      middle = mark_spa opts e.to img;
      edges = steps opts e.to e.hops (mark_spa opts e.to img);
      marked = then-Marked m spa;
      pushed = push_next-Pushed opts e (record s { image = mark_spa opts e.to img });
      inside = steps-AllInside opts e.to e.hops (mark_spa opts e.to img);
      from_steps = λ x h. h;
      skips = λ is. absurd (cc);
      settled = inr (inr (spa.stays_code e.to code, inr (λ x h. h)));
    }

skipped-VisitRound :
    (opts : Options) (e : Edge) (s : Trace)
    → (s.image.call_slot e.to || s.image.is_struct e.to) ≡ true
    → VisitRound opts e s s
skipped-VisitRound opts e s h = record {
  middle = s.image;
  edges = [];
  marked = same-Marked e.to s.image;
  pushed = nothing-Pushed s;
  inside = no_edge;
  from_steps = λ x m. absurd (Memᴰ.not-nil m);
  skips = λ _. refl;
  settled = ground arith;
}

text-VisitRound :
    (opts : Options) (e : Edge) (s : Trace)
    → s.image.is_text e.to ≡ true
    → s.image.is_struct e.to ≡ false
    → VisitRound opts e s (record s { image = mark_code e s.image })
text-VisitRound opts e s h plain = record {
  middle = mark_code e s.image;
  edges = [];
  marked = mark_code-Marked e s.image;
  pushed = nothing-Pushed (record s { image = mark_code e s.image });
  inside = no_edge;
  from_steps = λ x m. absurd (Memᴰ.not-nil m);
  skips = λ is. absurd (cc);
  settled = inr (inr (mark_code-now e s.image, inl (rw (mark_code-text e s.image) h)));
}

pub visit-VisitRound :
    (opts : Options) (e : Edge) (s : Trace) → VisitRound opts e s (visit opts e s)
unfolding visit
visit-VisitRound opts e s = elim (Bool-cases (s.image.call_slot e.to || s.image.is_struct e.to)) [
  | inl skip ↦ rw skip (skipped-VisitRound opts e s skip)
  | inr go ↦
      let solid : s.image.is_struct e.to ≡ false = ground (arith, go) in
      elim (Bool-cases (s.image.is_text e.to)) [
        | inr plain ↦
            rw (go, plain)
              (decoded-VisitRound opts e s (mark_code e s.image) (mark_code-Marked e s.image)
                (mark_code-now e s.image) solid)
        | inl text ↦ elim (Bool-cases (is_trusted opts e)) [
          | inl trust ↦
              rw (go, text, trust)
                (decoded-VisitRound opts e s (demote e.to (mark_code e s.image))
                  (then-Marked (mark_code-Marked e s.image)
                    (demote-Marked e.to (mark_code e s.image)))
                  (mark_code-now e s.image) solid)
          | inr doubt ↦ rw (go, text, doubt) (text-VisitRound opts e s text solid)
        ]
      ]
]
