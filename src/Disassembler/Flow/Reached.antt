-- ===== src/Disassembler/Flow/Reached.antt =====
-- What the loop of `flow_trace_once` of Disassembler/disassembler_v7.c keeps: which words it marks.
use mathlib.Core.List.Memᴰ
use mathlib.Core.Path.{subst}
use mitra_15_for_simh.Prelude.{
  ℕ, ◌≡◌, ◌≢◌, ◌⊎◌, inl, inr, refl, sym, ap, ◌∙◌, true, false, List, [], ◌∷◌, map, Memᴰ, ◌==◌,
  ==_iff, Bool-cases, arith,
}
use mitra_15_for_simh.Disassembler.Image.{Options, Image}
use mitra_15_for_simh.Disassembler.Flow.{Edge, Trace, visit, start_trace, entry_edge}
use mitra_15_for_simh.Disassembler.Flow.Base.{SameBase}
use mitra_15_for_simh.Disassembler.Flow.Push.{push_all-Pushed}
use mitra_15_for_simh.Disassembler.Flow.Steps.{steps, Marked, then-SameBase}
use mitra_15_for_simh.Disassembler.Flow.Round.{VisitRound, visit-VisitRound}

-- The words that entries reach through steps, whatever the flags of the trace at each.
pub data Reached (opts : Options) (img : Image) : ℕ → Type 0 where
  from_entry : {w : ℕ} → Memᴰ w img.entry_points → img.loaded w ≡ true → Reached opts img w
  by_step :
      {w : ℕ} (hops : ℕ) (now : Image) (e : Edge)
      → Reached opts img w
      → SameBase img now
      → Memᴰ e (steps opts w hops now)
      → img.loaded e.to ≡ true
      → Reached opts img e.to

-- `v` follows `w` whatever the flags of the trace.
pub record FollowsTo (opts : Options) (img : Image) (w v : ℕ) : Type 0 where
  pub is_step :
      (now : Image) (hops : ℕ)
      → SameBase img now
      → (e : Edge) × Memᴰ e (steps opts w hops now) × (e.to ≡ v)

ne_of_== : (a b : ℕ) → (a == b) ≡ false → a ≢ b
ne_of_== a b h e = ground arith

pub pushed-SameBase :
    (a b : Image) → b ≡ record a { visited = b.visited; escaped = b.escaped } → SameBase a b
pushed-SameBase a b h = record {
  word = sym (ap (λ (i : Image). i.word) h);
  loaded = sym (ap (λ (i : Image). i.loaded) h);
  is_struct = sym (ap (λ (i : Image). i.is_struct) h);
  entry_points = sym (ap (λ (i : Image). i.entry_points) h);
  prt_valid = sym (ap (λ (i : Image). i.prt_valid) h);
  prt_p = sym (ap (λ (i : Image). i.prt_p) h);
  mon_valid = sym (ap (λ (i : Image). i.mon_valid) h);
  mon_p = sym (ap (λ (i : Image). i.mon_p) h);
}

module _ (opts : Options) (img : Image) where
  -- A word that was taken from the work list is data, text, or code whose successors are visited.
  abbrev pub IsSettled : Image → ℕ → Type 0
  IsSettled now w =
      (now.call_slot w ≡ true)
      ⊎ ((img.is_struct w ≡ true)
          ⊎ ((now.is_code w ≡ true)
              × ((now.is_text w ≡ true)
                  ⊎ ((v : ℕ)
                      → FollowsTo opts img w v
                      → img.loaded v ≡ true
                      → now.visited v ≡ true))))

  pub record Inv (s : Trace) : Type 0 where
    pub base : SameBase img s.image
    pub pending : (e : Edge) → Memᴰ e s.pending → Reached opts img e.to
    pub code : (w : ℕ) → s.image.is_code w ≡ true → Reached opts img w
    pub visited :
        (w : ℕ)
        → s.image.visited w ≡ true
        → ((e : Edge) × Memᴰ e s.pending × (e.to ≡ w)) ⊎ IsSettled s.image w
    pub entries : (w : ℕ) → Memᴰ w img.entry_points → img.loaded w ≡ true → s.image.visited w ≡ true

  -- What is settled stays so, but for the word of the round.
  stays_IsSettled :
      (w e : ℕ) (a b c : Image)
      → Marked e a b
      → c ≡ record b { visited = c.visited; escaped = c.escaped }
      → ((v : ℕ) → a.visited v ≡ true → c.visited v ≡ true)
      → w ≢ e
      → IsSettled a w
      → IsSettled c w
  stays_IsSettled w e a b c m same grows off h =
      let slot = ap (λ (i : Image). i.call_slot w) same in
      let text = ap (λ (i : Image). i.is_text w) same in
      let code = ap (λ (i : Image). i.is_code w) same in
      elim h [
        | inl s ↦ inl (slot ∙ m.stays_slot w s)
        | inr (inl s) ↦ inr (inl s)
        | inr (inr (k, inl t)) ↦ elim (m.text w t) [
          | inl still ↦ inr (inr (code ∙ m.stays_code w k, inl (text ∙ still)))
          | inr (inl here) ↦ absurd (off here)
          | inr (inr s) ↦ inl (slot ∙ s)
        ]
        | inr (inr (k, inr closed)) ↦
            inr (inr (code ∙ m.stays_code w k, inr (λ v f l. grows v (closed v f l))))
      ]

  -- The word of a round is settled by it.
  now_IsSettled :
      (s t : Trace) (e : Edge)
      → SameBase img s.image
      → VisitRound opts e s t
      → IsSettled t.image e.to
  now_IsSettled s t e base r =
      let slot = ap (λ (i : Image). i.call_slot e.to) r.pushed.image in
      let text = ap (λ (i : Image). i.is_text e.to) r.pushed.image in
      let code = ap (λ (i : Image). i.is_code e.to) r.pushed.image in
      let middle = then-SameBase base r.marked.base in
      elim r.settled [
        | inl h ↦ inl (slot ∙ h)
        | inr (inl h) ↦ inr (inl (ap (λ f. f e.to) middle.is_struct ∙ h))
        | inr (inr (k, inl h)) ↦ inr (inr (code ∙ k, inl (text ∙ h)))
        | inr (inr (k, inr all)) ↦ inr (
            inr (
              code ∙ k,
              inr (λ v f l.
                  let (x, m, to) = f.is_step r.middle e.hops middle in
                  let loaded : r.middle.loaded x.to ≡ true =
                    sym (ap (λ g. g x.to) middle.loaded) ∙ ap img.loaded to ∙ l in
                  subst (λ u. t.image.visited u ≡ true) to
                    (r.pushed.now_visited x (all x m) loaded)),
            ))
      ]

  pub Inv-visit :
      (s : Trace) (e : Edge) (rest : List Edge)
      → s.pending ≡ e ∷ rest
      → Inv s
      → Inv (visit opts e (record s { pending = rest }))
  Inv-visit s e rest q h =
      let s' = record s { pending = rest } in
      let r = visit-VisitRound opts e s' in
      let t = visit opts e s' in
      let middle = then-SameBase h.base r.marked.base in
      let to_e = h.pending e (rw q (Memᴰ.head refl)) in
      record {
        base = then-SameBase middle (pushed-SameBase r.middle t.image r.pushed.image);
        pending = λ x m. elim (r.pushed.newly_pending x m) [
          | inl before ↦ h.pending x (rw q (Memᴰ.tail before))
          | inr (new, l) ↦
              by_step e.hops r.middle x to_e middle (r.from_steps x new)
                (ap (λ f. f x.to) middle.loaded ∙ l)
        ];
        code = λ w k.
            let marked : r.middle.is_code w ≡ true =
              sym (ap (λ (i : Image). i.is_code w) r.pushed.image) ∙ k in
            elim (r.marked.newly_code w marked) [
              | inl before ↦ h.code w before
              | inr here ↦ rw here to_e
            ];
        visited = λ w v. elim (Bool-cases (w == e.to)) [
          | inl here ↦ inr (rw ((==_iff w e.to).0 here) (now_IsSettled s' t e h.base r))
          | inr off ↦ elim (r.pushed.newly_visited w v) [
            | inr fresh ↦ inl fresh
            | inl before ↦ elim (h.visited w (rw r.marked.visited at before)) [
              | inr settled ↦ inr (
                  stays_IsSettled w e.to s.image r.middle t.image r.marked r.pushed.image
                    (λ u b. r.pushed.stays_visited u (rw r.marked.visited b)) (ne_of_== w e.to off)
                    settled)
              | inl (x, m, to) ↦ elim (Memᴰ.cases_cons (rw q at m)) [
                | inl head ↦ absurd (ne_of_== w e.to off (sym to ∙ ap (λ (y : Edge). y.to) head))
                | inr later ↦ inl (x, r.pushed.stays_pending x later, to)
              ]
            ]
          ]
        ];
        entries = λ w m l. r.pushed.stays_visited w (rw r.marked.visited (h.entries w m l));
      }

  blank-SameBase :
      (a : Image)
      → SameBase a
          (record a { visited = λ _. false; is_code = λ _. false; strong_code = λ _. false })
  blank-SameBase a = record {
    word = refl;
    loaded = refl;
    is_struct = refl;
    entry_points = refl;
    prt_valid = refl;
    prt_p = refl;
    mon_valid = refl;
    mon_p = refl;
  }

  pub Inv-start : (now : Image) → SameBase img now → Inv (start_trace now)
  unfolding start_trace
  Inv-start now b =
      let blank : Trace = record {
        image = record now { visited = λ _. false; is_code = λ _. false; strong_code = λ _. false };
        pending = [];
        worklist_count = 0;
      } in
      let p = push_all-Pushed (map entry_edge now.entry_points) blank in
      record {
        base = then-SameBase b (then-SameBase (blank-SameBase now) (pushed-SameBase _ _ p.image));
        pending = λ e m. elim (p.newly_pending e m) [
          | inl before ↦ absurd (Memᴰ.not-nil before)
          | inr (entry, l) ↦
              let (w, m', to) = Memᴰ.of_map entry_edge now.entry_points entry in
              let here : w ≡ e.to = ap (λ (y : Edge). y.to) to in
              from_entry (rw (sym here, b.entry_points) m') (ap (λ f. f e.to) b.loaded ∙ l)
        ];
        code = λ w k. let none = ap (λ (i : Image). i.is_code w) p.image in absurd (cc);
        visited =
            λ w v. elim (p.newly_visited w v) [ inl before ↦ absurd (cc) | inr fresh ↦ inl fresh ];
        entries = λ w m l.
            p.now_visited (entry_edge w) (Memᴰ.map entry_edge (rw (sym b.entry_points) m))
              (rw (sym b.loaded) l);
      }
