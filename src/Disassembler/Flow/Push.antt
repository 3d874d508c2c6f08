-- ===== src/Disassembler/Flow/Push.antt =====
-- What the calls of `wl_push` of Disassembler/disassembler_v7.c do to the work list.
use mathlib.Core.List.Memᴰ
use mitra_15_for_simh.Prelude.{
  ℕ, suc, ◌+◌, ◌≡◌, ◌⊎◌, inl, inr, refl, sym, ap, ◌∙◌, true, false, List, [], ◌∷◌, ◌++◌, Memᴰ, ◌==◌,
  ==_iff, ==_refl, arith, Bool-cases,
}
use mitra_15_for_simh.Disassembler.Image.{Image, max_mem_words, touch}
use mitra_15_for_simh.Disassembler.Flow.{Edge, Trace, set_flag, wl_push, push_all, count_flags}
use mitra_15_for_simh.Disassembler.Flow.Base.{
  length, IsBounded, AllInside, an_edge, count_flags-set,
}
use mitra_15_for_simh.Disassembler.Flow.Inside.{split-AllInside}

-- Each push stands for a visited word.
pub record IsCounted (tr : Trace) : Type 0 where
  pub bounded : IsBounded tr.image
  pub counted : tr.worklist_count ≡ count_flags max_mem_words tr.image.visited

-- `t` is `s` after the edges `es` were pushed.
pub record Pushed (es : List Edge) (s t : Trace) : Type 0 where
  pub image : t.image ≡ record s.image { visited = t.image.visited; escaped = t.image.escaped }
  pub escapes : AllInside es → s.image.escaped ≡ false → t.image.escaped ≡ false
  pub count : t.worklist_count + length s.pending ≡ s.worklist_count + length t.pending
  pub is_counted : IsCounted s → IsCounted t
  pub stays_visited : (w : ℕ) → s.image.visited w ≡ true → t.image.visited w ≡ true
  pub stays_pending : (e : Edge) → Memᴰ e s.pending → Memᴰ e t.pending
  pub now_visited :
      (e : Edge) → Memᴰ e es → s.image.loaded e.to ≡ true → t.image.visited e.to ≡ true
  pub newly_visited :
      (w : ℕ)
      → t.image.visited w ≡ true
      → (s.image.visited w ≡ true) ⊎ ((e : Edge) × Memᴰ e t.pending × (e.to ≡ w))
  pub newly_pending :
      (e : Edge) → Memᴰ e t.pending → Memᴰ e s.pending ⊎ (Memᴰ e es × (s.image.loaded e.to ≡ true))

length-concat : (xs : List Edge) (x : Edge) → length (xs ++ x ∷ []) ≡ suc (length xs)
length-concat [] x = refl
length-concat (_ ∷ xs) x = ap suc (length-concat xs x)

abbrev touched : Edge → Trace → Trace
touched e tr = record tr { image = touch e.to tr.image }

-- A word of memory is in the bounds of the arrays.
touch-inside :
    (e : Edge) (img : Image)
    → AllInside (e ∷ [])
    → img.escaped ≡ false
    → (touch e.to img).escaped ≡ false
touch-inside e img (an_edge b _) h = ground (arith, b, h)

wl_push-skip :
    (e : Edge) (tr : Trace)
    → (tr.image.loaded e.to ≡ false) ⊎ (tr.image.visited e.to ≡ true)
    → wl_push e tr ≡ touched e tr
unfolding wl_push
wl_push-skip e tr h = ground arith

abbrev pushed_on : Edge → Trace → Trace
pushed_on e tr = record {
  image = record (touch e.to tr.image) { visited = set_flag tr.image.visited e.to true };
  pending = tr.pending ++ e ∷ [];
  worklist_count = tr.worklist_count + 1;
}

wl_push-on :
    (e : Edge) (tr : Trace)
    → tr.image.loaded e.to ≡ true
    → tr.image.visited e.to ≡ false
    → wl_push e tr ≡ pushed_on e tr
unfolding wl_push
wl_push-on e tr l v = rw (l, v)

pub nothing-Pushed : (tr : Trace) → Pushed [] tr tr
nothing-Pushed tr = record {
  image = refl;
  escapes = λ _ h. h;
  count = refl;
  is_counted = λ h. h;
  stays_visited = λ w h. h;
  stays_pending = λ e h. h;
  now_visited = λ e h. absurd (Memᴰ.not-nil h);
  newly_visited = λ w h. inl h;
  newly_pending = λ e h. inl h;
}

pushed_on-Pushed :
    (e : Edge) (tr : Trace)
    → tr.image.loaded e.to ≡ true
    → tr.image.visited e.to ≡ false
    → Pushed (e ∷ []) tr (pushed_on e tr)
pushed_on-Pushed e tr l v = record {
  image = refl;
  escapes = touch-inside e tr.image;
  count = omega (arith, length-concat tr.pending e);
  is_counted = λ h. record {
    bounded = h.bounded;
    counted = omega (
      arith,
      h.counted,
      count_flags-set max_mem_words e.to tr.image.visited (h.bounded e.to l) v,
    );
  };
  stays_visited = λ w h. ground arith;
  stays_pending = λ x h. Memᴰ.append_left (e ∷ []) h;
  now_visited = λ x h _.
      let same : x.to ≡ e.to = ap (λ (y : Edge). y.to) (Memᴰ.eq_of_singleton h) in
      rw (same, ==_refl) refl;
  newly_visited = λ w h. elim (Bool-cases (w == e.to)) [
    | inl there ↦
        inr (e, Memᴰ.append_right tr.pending (Memᴰ.head refl), sym ((==_iff w e.to).0 there))
    | inr off ↦ inl (rw off at h)
  ];
  newly_pending = λ x h. elim (Memᴰ.append_cases tr.pending h) [
    | inl m ↦ inl m
    | inr m ↦ inr (m, rw (ap (λ (y : Edge). y.to) (Memᴰ.eq_of_singleton m)) l)
  ];
}

skip-Pushed :
    (e : Edge) (tr : Trace)
    → (tr.image.loaded e.to ≡ true → tr.image.visited e.to ≡ true)
    → Pushed (e ∷ []) tr (touched e tr)
skip-Pushed e tr seen = record {
  image = refl;
  escapes = touch-inside e tr.image;
  count = refl;
  is_counted = λ h. record { bounded = h.bounded; counted = h.counted };
  stays_visited = λ w h. h;
  stays_pending = λ e h. h;
  now_visited = λ x h l.
      let same : x.to ≡ e.to = ap (λ (y : Edge). y.to) (Memᴰ.eq_of_singleton h) in
      rw same (seen (rw same at l));
  newly_visited = λ w h. inl h;
  newly_pending = λ e h. inl h;
}

wl_push-Pushed : (e : Edge) (tr : Trace) → Pushed (e ∷ []) tr (wl_push e tr)
wl_push-Pushed e tr = elim (Bool-cases (tr.image.loaded e.to)) [
  | inr off ↦ rw (wl_push-skip e tr (inl off)) (skip-Pushed e tr (λ l. absurd (cc)))
  | inl on ↦ elim (Bool-cases (tr.image.visited e.to)) [
    | inl seen ↦ rw (wl_push-skip e tr (inr seen)) (skip-Pushed e tr (λ _. seen))
    | inr new ↦ rw (wl_push-on e tr on new) (pushed_on-Pushed e tr on new)
  ]
]

pub then-Pushed :
    {es fs : List Edge} {s t u : Trace} → Pushed es s t → Pushed fs t u → Pushed (es ++ fs) s u
then-Pushed {es} {fs} {s} {t} {u} a b = record {
  image =
      b.image
      ∙ ap (λ (i : Image). record i { visited = u.image.visited; escaped = u.image.escaped })
          a.image;
  escapes =
      λ all h. let (first, last) = split-AllInside es fs all in b.escapes last (a.escapes first h);
  count = omega (arith, a.count, b.count);
  is_counted = λ h. b.is_counted (a.is_counted h);
  stays_visited = λ w h. b.stays_visited w (a.stays_visited w h);
  stays_pending = λ e h. b.stays_pending e (a.stays_pending e h);
  now_visited = λ e h l. elim (Memᴰ.append_cases es h) [
    | inl m ↦ b.stays_visited e.to (a.now_visited e m l)
    | inr m ↦ b.now_visited e m (rw a.image l)
  ];
  newly_visited = λ w h. elim (b.newly_visited w h) [
    | inl before ↦ elim (a.newly_visited w before) [
      | inl first ↦ inl first
      | inr (e, m, same) ↦ inr (e, b.stays_pending e m, same)
    ]
    | inr q ↦ inr q
  ];
  newly_pending = λ e h. elim (b.newly_pending e h) [
    | inl before ↦ elim (a.newly_pending e before) [
      | inl first ↦ inl first
      | inr (m, l) ↦ inr (Memᴰ.append_left fs m, l)
    ]
    | inr (m, l) ↦ inr (Memᴰ.append_right es m, rw (ap (λ (i : Image). i.loaded e.to) a.image) at l)
  ];
}

pub push_all-Pushed : (es : List Edge) (tr : Trace) → Pushed es tr (push_all es tr)
unfolding push_all
push_all-Pushed [] tr = nothing-Pushed tr
push_all-Pushed (e ∷ es) tr =
    then-Pushed {es = e ∷ []} (wl_push-Pushed e tr) (push_all-Pushed es (wl_push e tr))
