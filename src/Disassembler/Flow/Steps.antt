-- ===== src/Disassembler/Flow/Steps.antt =====
-- A round of the trace of Disassembler/disassembler_v7.c: what it marks, and what it pushes.
use mitra_15_for_simh.Prelude.{
  ℕ, zero, suc, ◌+◌, ◌%◌, ◌≡◌, ◌⊎◌, inl, inr, refl, sym, ap, ◌∙◌, Bool, true, false, List, [], ◌++◌,
  map, ◌&&◌, arith, Bool-cases, if◌then◌else◌,
}
use mitra_15_for_simh.Disassembler.Decode.{is_valid, decode_insn}
use mitra_15_for_simh.Disassembler.Image.{Options, Image}
use mitra_15_for_simh.Disassembler.Operand.{
  is_spa, compute_operand, is_table_entry, brx_loop, brx_table,
}
use mitra_15_for_simh.Disassembler.Flow.{
  Edge, Trace, table_edge, set_flag, push_all, get_successors, push_next, mark_code, demote,
  mark_spa, mark_ret_cell,
}
use mitra_15_for_simh.Disassembler.Flow.Base.{SameBase, AllInside}
use mitra_15_for_simh.Disassembler.Flow.Inside.{
  append-AllInside, get_successors-AllInside, table_edges-AllInside,
}
use mitra_15_for_simh.Disassembler.Flow.Push.{Pushed, nothing-Pushed, then-Pushed, push_all-Pushed}

abbrev pub table_edges : Options → Image → (w : ℕ) → List Edge
table_edges opts img w =
    if is_valid (decode_insn (img.word w)) && (decode_insn (img.word w)).is_brx
    then map table_edge (brx_table img w 64)
    else []

-- The edges that a visit of `w` pushes.
abbrev pub steps : Options → (w hops : ℕ) → Image → List Edge
steps opts w hops img = get_successors opts img w (img.word w) hops ++ table_edges opts img w

brx_loop-visited :
    (img : Image) (v : ℕ → Bool) (b : Bool) (left j : ℕ)
    → brx_loop (record img { visited = v; escaped = b }) left j ≡ brx_loop img left j
unfolding brx_loop is_table_entry
brx_loop-visited img v b zero j = refl
brx_loop-visited img v b (suc left) j = rw (brx_loop-visited img v b left (j + 1)) refl

brx_table-visited :
    (img : Image) (v : ℕ → Bool) (b : Bool) (w : ℕ)
    → brx_table (record img { visited = v; escaped = b }) w 64 ≡ brx_table img w 64
unfolding brx_table
brx_table-visited img v b w = brx_loop-visited img v b 64 (w + 1)

maybe-Pushed :
    (b : Bool) (es fs : List Edge) (tr : Trace)
    → es ≡ fs
    → Pushed (if b then es else []) tr (if b then push_all fs tr else tr)
maybe-Pushed true es fs tr h = rw h (push_all-Pushed fs tr)
maybe-Pushed false es fs tr h = nothing-Pushed tr

pub push_next-Pushed :
    (opts : Options) (e : Edge) (tr : Trace)
    → Pushed (steps opts e.to e.hops tr.image) tr (push_next opts e tr)
unfolding push_next
push_next-Pushed opts e tr =
    let succ = push_all-Pushed (get_successors opts tr.image e.to (tr.image.word e.to) e.hops) tr in
    let img2 : Image =
      (push_all (get_successors opts tr.image e.to (tr.image.word e.to) e.hops) tr).image in
    let same : brx_table tr.image e.to 64 ≡ brx_table img2 e.to 64 = sym (
      ap (λ (i : Image). brx_table i e.to 64) succ.image
      ∙ brx_table-visited tr.image img2.visited img2.escaped e.to) in
    then-Pushed succ (maybe-Pushed _ _ _ _ (ap (map table_edge) same))

pub steps-AllInside :
    (opts : Options) (w hops : ℕ) (img : Image) → AllInside (steps opts w hops img)
steps-AllInside opts w hops img =
    append-AllInside _ _ (get_successors-AllInside opts img w (img.word w) hops)
      (table_edges-AllInside _ img w)

-- `b` is `a` after the word `w` was marked.
pub record Marked (w : ℕ) (a b : Image) : Type 0 where
  pub base : SameBase a b
  pub visited : b.visited ≡ a.visited
  pub escaped : b.escaped ≡ a.escaped
  pub stays_code : (k : ℕ) → a.is_code k ≡ true → b.is_code k ≡ true
  pub newly_code : (k : ℕ) → b.is_code k ≡ true → (a.is_code k ≡ true) ⊎ (k ≡ w)
  pub stays_slot : (k : ℕ) → a.call_slot k ≡ true → b.call_slot k ≡ true
  pub text_shrinks : (k : ℕ) → b.is_text k ≡ true → a.is_text k ≡ true
  pub text :
      (k : ℕ) → a.is_text k ≡ true → (b.is_text k ≡ true) ⊎ ((k ≡ w) ⊎ (b.call_slot k ≡ true))

pub same-SameBase : (a : Image) → SameBase a a
same-SameBase a = record {
  word = refl;
  loaded = refl;
  is_struct = refl;
  entry_points = refl;
  prt_valid = refl;
  prt_p = refl;
  mon_valid = refl;
  mon_p = refl;
}

flags-SameBase :
    (a : Image) (is_text is_code strong_code call_slot ret_goff : ℕ → Bool)
    → SameBase a (record a {
      is_text = is_text;
      is_code = is_code;
      strong_code = strong_code;
      call_slot = call_slot;
      ret_goff = ret_goff;
    })
flags-SameBase a _ _ _ _ _ = record {
  word = refl;
  loaded = refl;
  is_struct = refl;
  entry_points = refl;
  prt_valid = refl;
  prt_p = refl;
  mon_valid = refl;
  mon_p = refl;
}

pub then-SameBase : {a b c : Image} → SameBase a b → SameBase b c → SameBase a c
then-SameBase s t = record {
  word = s.word ∙ t.word;
  loaded = s.loaded ∙ t.loaded;
  is_struct = s.is_struct ∙ t.is_struct;
  entry_points = s.entry_points ∙ t.entry_points;
  prt_valid = s.prt_valid ∙ t.prt_valid;
  prt_p = s.prt_p ∙ t.prt_p;
  mon_valid = s.mon_valid ∙ t.mon_valid;
  mon_p = s.mon_p ∙ t.mon_p;
}

pub same-Marked : (w : ℕ) (a : Image) → Marked w a a
same-Marked w a = record {
  base = same-SameBase a;
  visited = refl;
  escaped = refl;
  stays_code = λ k h. h;
  newly_code = λ k h. inl h;
  stays_slot = λ k h. h;
  text_shrinks = λ k h. h;
  text = λ k h. inl h;
}

pub then-Marked : {w : ℕ} {a b c : Image} → Marked w a b → Marked w b c → Marked w a c
then-Marked s t = record {
  base = then-SameBase s.base t.base;
  visited = t.visited ∙ s.visited;
  escaped = t.escaped ∙ s.escaped;
  stays_code = λ k h. t.stays_code k (s.stays_code k h);
  newly_code = λ k h. elim (t.newly_code k h) [ inl m ↦ s.newly_code k m | inr m ↦ inr m ];
  stays_slot = λ k h. t.stays_slot k (s.stays_slot k h);
  text_shrinks = λ k h. s.text_shrinks k (t.text_shrinks k h);
  text = λ k h. elim (s.text k h) [
    | inl m ↦ t.text k m
    | inr (inl m) ↦ inr (inl m)
    | inr (inr m) ↦ inr (inr (t.stays_slot k m))
  ];
}

pub mark_code-Marked : (e : Edge) (img : Image) → Marked e.to img (mark_code e img)
unfolding mark_code
mark_code-Marked e img = record {
  base = flags-SameBase img _ _ _ _ _;
  visited = refl;
  escaped = refl;
  stays_code = λ k h. ground arith;
  newly_code = λ k h. ground arith;
  stays_slot = λ k h. h;
  text_shrinks = λ k h. h;
  text = λ k h. inl h;
}

pub demote-Marked : (w : ℕ) (img : Image) → Marked w img (demote w img)
demote-Marked w img = record {
  base = flags-SameBase img _ _ _ _ _;
  visited = refl;
  escaped = refl;
  stays_code = λ k h. h;
  newly_code = λ k h. inl h;
  stays_slot = λ k h. h;
  text_shrinks = λ k h. ground arith;
  text = λ k h. ground arith;
}

mark_ret_cell-Marked : (w a : ℕ) (img : Image) → Marked w img (mark_ret_cell a img)
unfolding mark_ret_cell
mark_ret_cell-Marked w a img = record {
  base = flags-SameBase img _ _ _ _ _;
  visited = refl;
  escaped = refl;
  stays_code = λ k h. h;
  newly_code = λ k h. inl h;
  stays_slot = λ k h. ground arith;
  text_shrinks = λ k h. ground arith;
  text = λ k h. ground arith;
}

ret_goff-Marked :
    (w o : ℕ) (img : Image) → Marked w img (record img { ret_goff = set_flag img.ret_goff o true })
ret_goff-Marked w o img = record {
  base = flags-SameBase img _ _ _ _ _;
  visited = refl;
  escaped = refl;
  stays_code = λ k h. h;
  newly_code = λ k h. inl h;
  stays_slot = λ k h. h;
  text_shrinks = λ k h. h;
  text = λ k h. inl h;
}

pub mark_spa-Marked : (opts : Options) (w : ℕ) (img : Image) → Marked w img (mark_spa opts w img)
unfolding mark_spa
mark_spa-Marked opts w img =
    let d = decode_insn (img.word w) in
    elim (Bool-cases (is_valid d && is_spa d)) [
      | inr e ↦ rw e (same-Marked w img)
      | inl e ↦ elim (Bool-cases (compute_operand opts img w d).ea_known) [
        | inl k ↦ rw (e, k) (mark_ret_cell-Marked w (compute_operand opts img w d).ea img)
        | inr k ↦ elim (Bool-cases (compute_operand opts img w d).gsym) [
          | inl g ↦ rw (e, k, g) (ret_goff-Marked w ((compute_operand opts img w d).goff % 512) img)
          | inr g ↦ rw (e, k, g) (same-Marked w img)
        ]
      ]
    ]
