-- ===== src/Disassembler/Routine/Ends.antt =====
-- The loop of `scan_routine` of Disassembler/disassembler_v7.c ends, and its stack has room.
use mitra_15_for_simh.Prelude.{
  ℕ, zero, suc, ◌+◌, ◌<◌, ◌≤◌, ◌≡◌, inl, inr, refl, ap, ◌∙◌, Bool, true, false, some, List, [], ◌∷◌,
  ◌&&◌, ltb, Bool-cases, if◌then◌else◌, arith,
}
use mitra_15_for_simh.Disassembler.Insn.{is_branch}
use mitra_15_for_simh.Disassembler.Decode.{decode_insn, is_valid}
use mitra_15_for_simh.Disassembler.Image.{Options, Image, max_mem_words, idx}
use mitra_15_for_simh.Disassembler.Operand.{compute_operand}
use mitra_15_for_simh.Disassembler.Flow.{Edge, count_flags}
use mitra_15_for_simh.Disassembler.Flow.Base.{
  length, AllInside, an_edge, count_flags-le, count_flags-set, count_flags-none,
}
use mitra_15_for_simh.Disassembler.Flow.Ends.{List-cases}
use mitra_15_for_simh.Disassembler.Routine.{
  Scan, offer, offer_all, inner_edges, is_instruction, scan_word, scan_loop, scan_start,
  scan_routine,
}
use mitra_15_for_simh.Disassembler.Routine.Edges.{inner_edges-AllInside}

-- Each push stands for a word of memory that was seen.
record IsCounted (sc : Scan) : Type 0 where
  counted : sc.pushes ≡ count_flags max_mem_words sc.seen

-- What pushes do to the stack.
record Offered (s t : Scan) : Type 0 where
  is_counted : IsCounted s → IsCounted t
  count : t.pushes + length s.stack ≡ s.pushes + length t.stack

offer-Offered : (w : ℕ) (sc : Scan) → w < max_mem_words → Offered sc (offer w sc)
unfolding offer
offer-Offered w sc h = elim (Bool-cases (sc.seen w)) [
  | inl e ↦ rw e (record { is_counted = λ c. c; count = refl })
  | inr e ↦ rw e (record {
    is_counted = λ c. record {
      counted = omega (arith, c.counted, count_flags-set max_mem_words w sc.seen h e);
    };
    count = omega arith;
  })
]

offer_all-Offered : (es : List Edge) (sc : Scan) → AllInside es → Offered sc (offer_all es sc)
unfolding offer_all
offer_all-Offered [] sc h = record { is_counted = λ c. c; count = refl }
offer_all-Offered (e ∷ es) sc (an_edge b h) =
    let first = offer-Offered e.to sc b in
    let rest = offer_all-Offered es (offer e.to sc) h in
    record {
      is_counted = λ c. rest.is_counted (first.is_counted c);
      count = omega (arith, first.count, rest.count);
    }

scan_word-Offered :
    (opts : Options) (img : Image) (w : ℕ) (sc : Scan) → Offered sc (scan_word opts img w sc)
unfolding scan_word
scan_word-Offered opts img w sc = elim (Bool-cases (is_instruction img w)) [
  | inr e ↦ rw e (record { is_counted = λ c. c; count = refl })
  | inl e ↦
      let all = offer_all-Offered (inner_edges opts img w) _ (inner_edges-AllInside opts img w) in
      rw e (record {
        is_counted = λ c. all.is_counted (record { counted = c.counted });
        count = all.count;
      })
]

scan_loop-done :
    (opts : Options) (img : Image) (fuel : ℕ) (sc : Scan)
    → sc.stack ≡ []
    → scan_loop opts img fuel sc ≡ some sc
unfolding scan_loop
scan_loop-done opts img zero sc h = rw h
scan_loop-done opts img (suc fuel) sc h = rw h

scan_loop-next :
    (opts : Options) (img : Image) (fuel : ℕ) (sc : Scan) (w : ℕ) (rest : List ℕ)
    → sc.stack ≡ w ∷ rest
    → scan_loop opts img (suc fuel) sc
      ≡ scan_loop opts img fuel (scan_word opts img w (record sc { stack = rest }))
unfolding scan_loop
scan_loop-next opts img fuel sc w rest h = rw h

scan_loop-ends :
    (opts : Options) (img : Image) (fuel : ℕ) (sc : Scan)
    → IsCounted sc
    → max_mem_words + length sc.stack ≤ fuel + sc.pushes
    → (t : Scan) × (scan_loop opts img fuel sc ≡ some t)
      × (t.stack ≡ [])
      × (t.pushes ≤ max_mem_words)
scan_loop-ends opts img zero sc c h = elim (List-cases sc.stack) [
  | inl e ↦ (
    sc,
    scan_loop-done opts img zero sc e,
    e,
    omega (arith, c.counted, count_flags-le max_mem_words sc.seen),
  )
  | inr (w, rest, e) ↦
      absurd (omega (arith, c.counted, count_flags-le max_mem_words sc.seen, ap length e))
]
scan_loop-ends opts img (suc fuel) sc c h = elim (List-cases sc.stack) [
  | inl e ↦ (
    sc,
    scan_loop-done opts img (suc fuel) sc e,
    e,
    omega (arith, c.counted, count_flags-le max_mem_words sc.seen),
  )
  | inr (w, rest, e) ↦
      let moved = scan_word-Offered opts img w (record sc { stack = rest }) in
      let (t, ends, empty, room) =
        scan_loop-ends opts img fuel (scan_word opts img w (record sc { stack = rest }))
          (moved.is_counted (record { counted = c.counted }))
          (omega (arith, moved.count, ap length e)) in
      (t, scan_loop-next opts img fuel sc w rest e ∙ ends, empty, room)
]

if-inside :
    (b : Bool) (x y : ℕ)
    → x < max_mem_words
    → y < max_mem_words
    → (if b then x else y) < max_mem_words
if-inside true x y h k = h
if-inside false x y h k = k

scan_start-inside :
    (opts : Options) (img : Image) (root : ℕ)
    → root < max_mem_words
    → scan_start opts img root < max_mem_words
unfolding scan_start
scan_start-inside opts img root h =
    let b = decode_insn (img.word (root + 1)) in
    let ob = compute_operand opts img (root + 1) b in
    if-inside
      (img.modentry root
        && (ltb (root + 1) max_mem_words && (is_valid b && (is_branch b.cls && ob.ea_known))))
      (idx ob.ea) root (omega arith) h

-- From any word of memory the scan of a routine ends within 32768 rounds with an empty stack,
-- having pushed at most 32768 words, the length of its stack.
pub scan_routine-ends :
    (opts : Options) (img : Image) (root : ℕ)
    → root < max_mem_words
    → (t : Scan) × (scan_routine opts img root ≡ some t)
      × (t.stack ≡ [])
      × (t.pushes ≤ max_mem_words)
unfolding scan_routine
scan_routine-ends opts img root h =
    scan_loop-ends opts img max_mem_words _
      (record {
        counted = omega (
          arith,
          count_flags-none max_mem_words,
          count_flags-set max_mem_words (scan_start opts img root) (λ _. false)
              (scan_start-inside opts img root h) refl,
        );
      })
      (omega arith)
