-- ===== src/Console/History/Ring.antt =====
-- The ring of the history of Mitra/mitra_cpu.c against the sequence of the calls that fill it.
use native.Mathlib.Nat.{mod-eq_of_lt, mod-eq-sub-mod}
use mitra_15_for_simh.Prelude.{
  ℕ, zero, suc, ◌+◌, ◌-◌, ◌%◌, ◌<◌, ◌≤◌, ◌≡◌, ◌∙◌, refl, ap, inl, inr, Bool-cases, true, false,
  Option, none, some, List, [], ◌∷◌, ◌==◌, leb, arith, if◌then◌else◌, u16,
}
use mitra_15_for_simh.State.{update}
use mitra_15_for_simh.Status.{scpe_ok}
use mitra_15_for_simh.Console.History.{
  InstHistory, History, Call, entry, next_index, inst_hist, show_loop, cpu_show_hist,
}

-- A number of calls one after the other.
unfoldable pub recorded : ℕ → (ℕ → Call) → History → Option History
recorded zero calls h = some h
recorded (suc m) calls h = elim (recorded m calls h) as (λ _. Option History) [
  | none ↦ none
  | some h' ↦ inst_hist (calls m) h'
]

-- The entries of calls, from a number on.
abbrev pub entries : (calls : ℕ → Call) (from n : ℕ) → List InstHistory
entries calls from zero = []
entries calls from (suc n) = entry (calls from) ∷ entries calls (from + 1) n

-- The index of the entry written a number of calls ago.
abbrev back : (n p ago : ℕ) → ℕ
back n p ago = if leb ago p then p - ago else p + n - ago

-- The ring holds the last of the calls made.
record IsRing (n exclude m : ℕ) (calls : ℕ → Call) (h : History) : Type 0 where
  size : h.hst_lnt ≡ n
  excluded : h.hst_exclude ≡ exclude
  inside : h.hst_p < h.hst_lnt
  entry_at :
      (ago k : ℕ)
      → ago < h.hst_lnt
      → ago + k + 1 ≡ m
      → h.hst (back h.hst_lnt h.hst_p ago) ≡ entry (calls k)

next_index-lt : (h : History) → 0 < h.hst_lnt → next_index h < h.hst_lnt
unfolding next_index
next_index-lt h some_room = ground arith

back-next :
    (h : History) (ago : ℕ)
    → h.hst_p < h.hst_lnt
    → ago + 1 < h.hst_lnt
    → back h.hst_lnt (next_index h) (ago + 1) ≡ back h.hst_lnt h.hst_p ago
unfolding next_index
back-next h ago inside lt = ground arith

back-other :
    (h : History) (ago : ℕ)
    → h.hst_p < h.hst_lnt
    → ago + 1 < h.hst_lnt
    → (back h.hst_lnt h.hst_p ago == next_index h) ≡ false
unfolding next_index
back-other h ago inside lt = ground arith

inst_hist_lem :
    (c : Call) (h : History)
    → (c.cpu_mode == h.hst_exclude) ≡ false
    → (h.hst_lnt == 0) ≡ false
    → inst_hist c h
      ≡ some (record h { hst = update h.hst (next_index h) (entry c); hst_p = next_index h })
unfolding inst_hist
inst_hist_lem c h other room = rw (other, room) refl

noted-IsRing :
    (n exclude m : ℕ) (calls : ℕ → Call) (h : History)
    → IsRing n exclude m calls h
    → IsRing n exclude
        (suc m)
        calls
        (record h { hst = update h.hst (next_index h) (entry (calls m)); hst_p = next_index h })
noted-IsRing n exclude m calls h ring = record {
  size = ring.size;
  excluded = ring.excluded;
  inside = let inside = ring.inside in next_index-lt h (omega arith);
  entry_at = λ ago k lt e. noted_entry ago k lt e;
}
  where
    noted_entry :
        (ago k : ℕ)
        → ago < h.hst_lnt
        → ago + k + 1 ≡ suc m
        → update h.hst (next_index h) (entry (calls m)) (back h.hst_lnt (next_index h) ago)
          ≡ entry (calls k)
    noted_entry zero k lt e =
        let same : k ≡ m = omega arith in
        let here : (next_index h - 0 == next_index h) ≡ true = ground arith in
        let now : leb 0 (next_index h) ≡ true = ground arith in rw (same, now, here) refl
    noted_entry (suc ago) k lt e =
        let e' : suc ago ≡ ago + 1 = omega arith in
        let place = back-next h ago ring.inside (omega arith) in
        let other = back-other h ago ring.inside (omega arith) in
        rw (e', place, other) (ring.entry_at ago k (omega arith) (omega arith))

-- What a number of calls leaves.
record IsFilled (n exclude m : ℕ) (calls : ℕ → Call) (h : History) : Type 0 where
  final : History
  records : recorded m calls h ≡ some final
  ring : IsRing n exclude m calls final

recorded-IsFilled :
    (m : ℕ) (calls : ℕ → Call) (h : History)
    → h.hst_p < h.hst_lnt
    → ((i : ℕ) → i < m → ((calls i).cpu_mode == h.hst_exclude) ≡ false)
    → IsFilled h.hst_lnt h.hst_exclude m calls h
unfolding recorded
recorded-IsFilled zero calls h inside included = record {
  final = h;
  records = refl;
  ring = record {
    size = refl;
    excluded = refl;
    inside = inside;
    entry_at = λ ago k lt e. absurd (omega arith);
  };
}
recorded-IsFilled (suc m) calls h inside included =
    let r = recorded-IsFilled m calls h inside (λ i lt. included i (omega arith)) in
    let within = r.ring.inside in
    let room : (r.final.hst_lnt == 0) ≡ false = ground arith in
    let other : ((calls m).cpu_mode == r.final.hst_exclude) ≡ false =
      rw (r.ring.excluded) (included m (omega arith)) in
    record {
      final = record (r.final) {
        hst = update r.final.hst (next_index r.final) (entry (calls m));
        hst_p = next_index r.final;
      };
      records = rw (r.records) (inst_hist_lem (calls m) r.final other room);
      ring = noted-IsRing h.hst_lnt h.hst_exclude m calls r.final r.ring;
    }

-- The index of the entry printed at a place is that of the entry as old.
printed_index :
    (n p k left : ℕ) → p < n → k + suc left ≡ n → n ≤ 32768 → u16 (p + k + 1) % n ≡ back n p left
printed_index n p k left inside e small =
    let cut : u16 (p + k + 1) ≡ p + k + 1 = omega arith in
    elim (Bool-cases (leb left p)) [
      | inl old ↦
          let over : n ≤ p + k + 1 = ground arith in
          let rest : p + k + 1 - n ≡ p - left = ground arith in
          rw (cut, old) (mod-eq-sub-mod over ∙ (rw rest (mod-eq_of_lt (ground arith))))
      | inr young ↦
          let under : p + k + 1 < n = ground arith in
          let same : p + k + 1 ≡ p + n - left = omega arith in
          rw (cut, young) (mod-eq_of_lt under ∙ same)
    ]

shown_one :
    (left at : ℕ) (h : History) (i : InstHistory)
    → h.hst (u16 (at + 1) % h.hst_lnt) ≡ i
    → (i.typ == 0) ≡ false
    → show_loop (suc left) at h ≡ i ∷ show_loop left (u16 (at + 1)) h
unfolding show_loop
shown_one left at h i e used = rw (e, used) refl

shown_none : (at : ℕ) (h : History) → show_loop 0 at h ≡ []
unfolding show_loop
shown_none at h = refl

-- The rest of what is printed: the calls from a number on.
shown :
    (left k exclude m : ℕ) (calls : ℕ → Call) (h : History)
    → IsRing (k + left) exclude m calls h
    → k + left ≤ 32768
    → k + left ≤ m
    → ((i : ℕ) → i < m → ((entry (calls i)).typ == 0) ≡ false)
    → show_loop left (u16 (h.hst_p + k)) h ≡ entries calls (m - (k + left) + k) left
shown zero k exclude m calls h ring small enough used = shown_none _ h
shown (suc left) k exclude m calls h ring small enough used =
    let size = ring.size in
    let inside = ring.inside in
    let flat : u16 (h.hst_p + k) ≡ h.hst_p + k = omega arith in
    let index = printed_index h.hst_lnt h.hst_p k left inside (omega arith) (omega arith) in
    let here : h.hst (u16 (h.hst_p + k + 1) % h.hst_lnt) ≡ entry (calls (m - (k + suc left) + k)) =
      rw index (ring.entry_at left (m - (k + suc left) + k) (omega arith) (omega arith)) in
    let total : k + 1 + left ≡ k + suc left = omega arith in
    let rest : show_loop left (u16 (h.hst_p + (k + 1))) h
        ≡ entries calls (m - (k + 1 + left) + (k + 1)) left =
      shown left (k + 1) exclude m calls h (rw total ring) (omega arith) (omega arith) used in
    let step : h.hst_p + k + 1 ≡ h.hst_p + (k + 1) = omega arith in
    let from : m - (k + 1 + left) + (k + 1) ≡ m - (k + suc left) + k + 1 = omega arith in
    rw flat (
      shown_one left (h.hst_p + k) h _ here (used _ (omega arith))
      ∙ ap (λ list. entry (calls (m - (k + suc left) + k)) ∷ list)
          (rw step rest ∙ ap (λ i. entries calls i left) from))

shown_from_start :
    (n exclude m : ℕ) (calls : ℕ → Call) (h : History)
    → IsRing n exclude m calls h
    → n ≤ 32768
    → n ≤ m
    → ((i : ℕ) → i < m → ((entry (calls i)).typ == 0) ≡ false)
    → show_loop h.hst_lnt (u16 h.hst_p) h ≡ entries calls (m - n) n
shown_from_start n exclude m calls h ring small enough used =
    let none_before : 0 + n ≡ n = omega arith in
    let at : h.hst_p + 0 ≡ h.hst_p = omega arith in
    let from : m - (0 + n) + 0 ≡ m - n = omega arith in
    let all = shown n 0 exclude m calls h (rw none_before ring) (omega arith) (omega arith) used in
    ap (λ left. show_loop left (u16 h.hst_p) h) (ring.size) ∙ (rw (at, from) at all)

show_all :
    (h : History)
    → (h.hst_lnt == 0) ≡ false
    → cpu_show_hist none h ≡ (scpe_ok, show_loop h.hst_lnt (u16 h.hst_p) h)
unfolding cpu_show_hist
show_all h room = rw room refl

-- A number of calls after which the ring is printed.
pub record Shows (m : ℕ) (calls : ℕ → Call) (h : History) : Type 0 where
  pub final : History
  pub records : recorded m calls h ≡ some final
  pub prints : cpu_show_hist none final ≡ (scpe_ok, entries calls (m - h.hst_lnt) h.hst_lnt)

-- From a history whose index is inside its length, of at most 32768 entries, at least as many
-- calls of `inst_hist` as its length, none of them in the mode that is excluded and each with a
-- type that is not 0, all return, and the history then prints the entries of the last calls, as
-- many as its length, in the order in which they were made.
pub cpu_show_hist-Shows :
    (m : ℕ) (calls : ℕ → Call) (h : History)
    → h.hst_p < h.hst_lnt
    → h.hst_lnt ≤ 32768
    → h.hst_lnt ≤ m
    → ((i : ℕ) → i < m → ((calls i).cpu_mode == h.hst_exclude) ≡ false)
    → ((i : ℕ) → i < m → ((entry (calls i)).typ == 0) ≡ false)
    → Shows m calls h
cpu_show_hist-Shows m calls h inside small enough included used =
    let r = recorded-IsFilled m calls h inside included in
    let size = r.ring.size in
    let within = r.ring.inside in
    let room : (r.final.hst_lnt == 0) ≡ false = ground arith in
    record {
      final = r.final;
      records = r.records;
      prints =
          show_all r.final room
          ∙ ap (λ list. (scpe_ok, list))
              (shown_from_start h.hst_lnt h.hst_exclude m calls r.final r.ring small enough used);
    }
