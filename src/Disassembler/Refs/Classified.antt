-- ===== src/Disassembler/Refs/Classified.antt =====
-- After `collect_refs` of Disassembler/disassembler_v7.c data is neither code nor text.
use mitra_15_for_simh.Prelude.{
  ℕ, zero, suc, ◌+◌, ◌≤◌, ◌≡◌, ◌≢◌, List, [], ◌∷◌, inl, inr, refl, sym, ap, ◌∙◌, Bool, true, false,
  ◌&&◌, ◌||◌, not, Bool-cases, arith, leb, ◌==◌,
}
use mathlib.Core.Path.{subst}
use mitra_15_for_simh.Disassembler.Image.{Options, Image, max_mem_words, idx}
use mitra_15_for_simh.Disassembler.Flow.Base.{AreInside}
use mitra_15_for_simh.Disassembler.Tables.{max_entry_points, struct_word, count}
use mitra_15_for_simh.Disassembler.Tables.Consistent.{IsConsistent, struct_word-IsConsistent}
use mitra_15_for_simh.Disassembler.Refs.{
  twb_loop, apply_twb, zero_data, referenced_data, collect_refs, has_outside, classify_roots,
}
use mitra_15_for_simh.Disassembler.Refs.Data.{SameMarks, gather_refs-SameMarks}

-- A word that is data is loaded, and neither code nor text.
pub record IsVariable (img : Image) (w : ℕ) : Type 0 where
  pub is_loaded : img.loaded w ≡ true
  pub no_text : img.is_text w ≡ false
  pub no_code : img.is_code w ≡ false

pub record IsClassified (img : Image) : Type 0 where
  pub consistent : IsConsistent img
  pub variables : (w : ℕ) → img.is_data w ≡ true → IsVariable img w

marks-IsConsistent : (a b : Image) → SameMarks a b → IsConsistent a → IsConsistent b
marks-IsConsistent a b m h = record {
  bounded = λ w on. h.bounded w (ap (λ f. f w) m.loaded ∙ on);
  structures = λ w on.
      let old = h.structures w (ap (λ f. f w) m.is_struct ∙ on) in
      record {
        is_loaded = sym (ap (λ f. f w) m.loaded) ∙ old.is_loaded;
        no_text = sym (ap (λ f. f w) m.is_text) ∙ old.no_text;
        no_code = sym (ap (λ f. f w) m.is_code) ∙ old.no_code;
      };
  entries_fit = subst (λ es. count es ≤ max_entry_points) m.entry_points h.entries_fit;
  entries_inside = subst AreInside m.entry_points h.entries_inside;
  in_bounds = sym m.escaped ∙ h.in_bounds;
  prts = subst (λ f. f 6 ≢ 0xfffe) m.word h.prts;
}

marks-IsClassified : (a b : Image) → SameMarks a b → IsClassified a → IsClassified b
marks-IsClassified a b m h = record {
  consistent = marks-IsConsistent a b m h.consistent;
  variables = λ w on.
      let old = h.variables w (ap (λ f. f w) m.is_data ∙ on) in
      record {
        is_loaded = sym (ap (λ f. f w) m.loaded) ∙ old.is_loaded;
        no_text = sym (ap (λ f. f w) m.is_text) ∙ old.no_text;
        no_code = sym (ap (λ f. f w) m.is_code) ∙ old.no_code;
      };
}

-- Other data, and another note of calls of the monitor.
data-IsConsistent :
    (img : Image) (is_data : ℕ → Bool) (seen_csv : Bool)
    → IsConsistent img
    → IsConsistent (record img { is_data = is_data; seen_csv = seen_csv })
data-IsConsistent img is_data seen_csv h = record {
  bounded = h.bounded;
  structures = λ w on.
      let old = h.structures w on in
      record { is_loaded = old.is_loaded; no_text = old.no_text; no_code = old.no_code };
  entries_fit = h.entries_fit;
  entries_inside = h.entries_inside;
  in_bounds = h.in_bounds;
  prts = h.prts;
}

zero_data-IsClassified : (img : Image) → IsConsistent img → IsClassified (zero_data img)
unfolding zero_data
zero_data-IsClassified img h = record {
  consistent = data-IsConsistent img _ false h;
  variables = λ w on. record {
    is_loaded = ground (arith, on);
    no_text = ground (arith, on);
    no_code = ground (arith, on);
  };
}

referenced_data-IsClassified : (img : Image) → IsClassified img → IsClassified (referenced_data img)
unfolding referenced_data
referenced_data-IsClassified img h = record {
  consistent = data-IsConsistent img _ img.seen_csv h.consistent;
  variables = λ w on. elim (Bool-cases (img.is_data w)) [
    | inl old ↦
        let v = h.variables w old in
        record { is_loaded = v.is_loaded; no_text = v.no_text; no_code = v.no_code }
    | inr new ↦ record {
      is_loaded = ground (arith, on, new);
      no_text = ground (arith, on, new);
      no_code = ground (arith, on, new);
    }
  ];
}

struct_word-variables :
    (i : ℕ) (img : Image)
    → IsClassified img
    → (w : ℕ) → (struct_word i img).is_data w ≡ true
    → IsVariable (struct_word i img) w
unfolding struct_word
struct_word-variables i img h w = elim (Bool-cases (leb max_mem_words i || not (img.loaded i))) [
  | inl skip ↦ rw skip (h.variables w)
  | inr on ↦ rw on (λ d.
      let v = h.variables w d in
      record {
        is_loaded = v.is_loaded;
        no_text = elim (Bool-cases (w == i)) [
          | inl here ↦ rw here refl
          | inr off ↦ rw off v.no_text
        ];
        no_code = v.no_code;
      })
]

twb_loop-IsClassified :
    (left i : ℕ) (img : Image) → IsClassified img → IsClassified (twb_loop left i img)
unfolding twb_loop
twb_loop-IsClassified zero i img h = h
twb_loop-IsClassified (suc left) i img h =
    elim (Bool-cases (leb max_mem_words i || (not (img.loaded i) || img.is_code i))) [
      | inl skip ↦ rw skip (twb_loop-IsClassified left (i + 1) img h)
      | inr on ↦ rw on (
          twb_loop-IsClassified left (i + 1) (struct_word i img) (record {
            consistent = struct_word-IsConsistent i img h.consistent (ground (arith, on));
            variables = struct_word-variables i img h;
          }))
    ]

apply_twb-IsClassified :
    (opts : Options) (img : Image) → IsClassified img → IsClassified (apply_twb opts img)
unfolding apply_twb
apply_twb-IsClassified opts img h = elim (Bool-cases (opts.g_given && img.seen_csv)) [
  | inl calls ↦ rw calls (twb_loop-IsClassified 16 (idx opts.g) img h)
  | inr no_calls ↦ rw no_calls h
]

-- From a consistent image, collecting references ends in a classified one.
pub collect_refs-IsClassified :
    (opts : Options) (img : Image) → IsConsistent img → IsClassified (collect_refs opts img)
unfolding collect_refs
collect_refs-IsClassified opts img h =
    let gathered =
      λ (a : Image) (c : IsClassified a). marks-IsClassified a _ (gather_refs-SameMarks opts a) c in
    gathered _ (
      apply_twb-IsClassified opts _
        (referenced_data-IsClassified _ (gathered _ (zero_data-IsClassified img h))))

inside-has_outside : (es : List ℕ) → AreInside es → has_outside es ≡ false
unfolding has_outside
inside-has_outside [] h = refl
inside-has_outside (e ∷ es) (b, h) = let rest = inside-has_outside es h in ground (arith, rest, b)

pub classify_roots-IsClassified :
    (img : Image) → IsClassified img → IsClassified (classify_roots img)
unfolding classify_roots
classify_roots-IsClassified img h =
    let c = h.consistent in
    marks-IsClassified img _
      (record {
        word = refl;
        escaped =
            c.in_bounds
            ∙ rw (c.in_bounds, inside-has_outside img.entry_points c.entries_inside) refl;
        loaded = refl;
        is_text = refl;
        is_code = refl;
        is_data = refl;
        is_struct = refl;
        entry_points = refl;
      })
      h
