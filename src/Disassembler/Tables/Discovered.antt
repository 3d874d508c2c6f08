-- ===== src/Disassembler/Tables/Discovered.antt =====
-- The discovery of tables in Disassembler/disassembler_v7.c keeps structures and entries consistent.
use mitra_15_for_simh.Prelude.{
  ℕ, ◌<◌, ◌≡◌, ◌||◌, ltb, arith, zero, suc, ◌+◌, ◌-◌, ◌*◌, inl, inr, refl, Bool, true, false,
  Bool-cases, if◌then◌else◌, ◌&&◌, not, ◌==◌, leb,
}
use mitra_15_for_simh.Disassembler.Image.{Options, Image, max_mem_words, idx, baddr}
use mitra_15_for_simh.Disassembler.Tables.{
  struct_word, prt_ends, prt_entry, prt_loop, discover_prt, prts_ends, prts_read, prts_entry,
  prts_loop, discover_prts, cpt_entry, cpt_loop, discover_cpt, discover_system, module_loop,
  find_module_entries, is_module_entry, is_context, all_loaded, has_context, addr_ok, prt_labs,
  prt_pabs,
}
use mitra_15_for_simh.Disassembler.Tables.Consistent.{
  IsUntraced, same_tables, struct_word-IsUntraced, struct_words-IsUntraced, add_entry-IsUntraced,
}

-- Either of two images.
pub if-IsUntraced :
    (b : Bool) (x y : Image) → IsUntraced x → IsUntraced y → IsUntraced (if b then x else y)
if-IsUntraced true x y h k = h
if-IsUntraced false x y h k = k

prt_entry-IsUntraced :
    (opts : Options) (n : ℕ) (img : Image) → IsUntraced img → IsUntraced (prt_entry opts n img)
unfolding prt_entry
prt_entry-IsUntraced opts n img h =
    let i = idx (opts.g - 4 * n) in
    let marked = struct_words-IsUntraced 2 i img h in
    let entered = add_entry-IsUntraced (prt_pabs opts img i) _ (
      same_tables _ _ marked refl refl refl refl refl marked.consistent.in_bounds
        marked.consistent.entries_inside marked.consistent.entries_fit) in
    if-IsUntraced (img.word i == 0) _ _ entered
      (struct_words-IsUntraced 2 (idx (prt_labs opts img i)) _ entered)

prt_loop-IsUntraced :
    (opts : Options) (left n : ℕ) (img : Image)
    → IsUntraced img
    → IsUntraced (prt_loop opts left n img)
unfolding prt_loop
prt_loop-IsUntraced opts zero n img h = h
prt_loop-IsUntraced opts (suc left) n img h = elim (Bool-cases (prt_ends opts img n)) [
  | inl e ↦ rw (e, prt_loop) h
  | inr e ↦
      rw (e, prt_loop)
        (prt_loop-IsUntraced opts left (n + 1) (prt_entry opts n img)
          (prt_entry-IsUntraced opts n img h))
]

pub discover_prt-IsUntraced :
    (opts : Options) (img : Image) → IsUntraced img → IsUntraced (discover_prt opts img)
unfolding discover_prt
discover_prt-IsUntraced opts img h =
    if-IsUntraced opts.g_given _ _ (prt_loop-IsUntraced opts 255 1 img h) h

prts_entry-IsUntraced :
    (prts n : ℕ) (img : Image) → IsUntraced img → IsUntraced (prts_entry prts n img)
unfolding prts_entry
prts_entry-IsUntraced prts n img h =
    let marked = struct_words-IsUntraced 2 (idx (prts - 4 * n)) img h in
    add_entry-IsUntraced (img.word (idx (prts - 4 * n) + 1)) _ (
      same_tables _ _ marked refl refl refl refl refl marked.consistent.in_bounds
        marked.consistent.entries_inside marked.consistent.entries_fit)

-- Below a pointer to another word than the last there is a word after each entry of the table.
prts_read-IsUntraced :
    (prts n : ℕ) (img : Image) → prts < 0xfffe → IsUntraced img → IsUntraced (prts_read prts n img)
unfolding prts_read
prts_read-IsUntraced prts n img low h =
    let i = idx (prts - 4 * n) in
    let inside : leb max_mem_words (i + 1) ≡ false = ground arith in
    let safe = h.consistent.in_bounds in
    if-IsUntraced (ltb prts (4 * n) || not (img.loaded i)) _ _ h (
      same_tables img _ h refl refl refl refl refl (rw (safe, inside) refl)
        h.consistent.entries_inside h.consistent.entries_fit)

prts_loop-IsUntraced :
    (prts left n : ℕ) (img : Image)
    → prts < 0xfffe
    → IsUntraced img
    → IsUntraced (prts_loop prts left n img)
unfolding prts_loop
prts_loop-IsUntraced prts zero n img low h = h
prts_loop-IsUntraced prts (suc left) n img low h = elim (Bool-cases (prts_ends img prts n)) [
  | inl e ↦ rw (e, prts_loop) (prts_read-IsUntraced prts n img low h)
  | inr e ↦
      rw (e, prts_loop)
        (prts_loop-IsUntraced prts left (n + 1) (prts_entry prts n (prts_read prts n img)) low
          (prts_entry-IsUntraced prts n _ (prts_read-IsUntraced prts n img low h)))
]

pointer-lt :
    (img : Image)
    → IsUntraced img
    → (b : Bool) → (addr_ok img (img.word 6) && b) ≡ true
    → img.word 6 < 0xfffe
unfolding addr_ok
pointer-lt img h b on = let other = h.consistent.prts in ground (arith, on, other)

discover_prts-IsUntraced : (img : Image) → IsUntraced img → IsUntraced (discover_prts img)
unfolding discover_prts
discover_prts-IsUntraced img h =
    elim (Bool-cases (addr_ok img (img.word 6) && (leb 1 (img.word 7) && leb (img.word 7) 255))) [
      | inr off ↦ rw off h
      | inl on ↦
          let looped =
            prts_loop-IsUntraced (img.word 6) (img.word 7) 0 img (pointer-lt img h _ on) h in
          rw on (
            if-IsUntraced (prts_ends img (img.word 6) 0) _ _ looped
              (struct_words-IsUntraced 2 6 _ looped))
    ]

cpt_entry-IsUntraced : (i : ℕ) (img : Image) → IsUntraced img → IsUntraced (cpt_entry i img)
unfolding cpt_entry
cpt_entry-IsUntraced i img h =
    let marked = struct_word-IsUntraced i img h in
    if-IsUntraced
      (is_context img (img.word i) && not ((struct_word i img).is_struct (idx (img.word i)))) _ _
      (add_entry-IsUntraced (img.word (idx (img.word i) + 6)) _
        (struct_words-IsUntraced 7 (idx (img.word i)) _ marked))
      marked

cpt_loop-IsUntraced : (left i : ℕ) (img : Image) → IsUntraced img → IsUntraced (cpt_loop left i img)
unfolding cpt_loop
cpt_loop-IsUntraced zero i img h = h
cpt_loop-IsUntraced (suc left) i img h =
    cpt_loop-IsUntraced left (i + 1) (cpt_entry i img) (cpt_entry-IsUntraced i img h)

discover_cpt-IsUntraced : (img : Image) → IsUntraced img → IsUntraced (discover_cpt img)
unfolding discover_cpt
discover_cpt-IsUntraced img h =
    let contexts = cpt_loop-IsUntraced 32 (idx (img.word 5)) _ (struct_word-IsUntraced 5 img h) in
    if-IsUntraced (not (addr_ok img (img.word 5) && leb (idx (img.word 5) + 32) max_mem_words)) _ _
      h
      (if-IsUntraced
        (not (all_loaded img 32 (idx (img.word 5)) && has_context img 32 (idx (img.word 5)))) _ _ h
        (if-IsUntraced (leb 64 (img.word 5) && all_loaded img 32 (idx (img.word 5 - 64))) _ _
          (struct_words-IsUntraced 32 (idx (img.word 5 - 64)) _ contexts) contexts))

pub discover_system-IsUntraced : (img : Image) → IsUntraced img → IsUntraced (discover_system img)
unfolding discover_system
discover_system-IsUntraced img h =
    if-IsUntraced _ _ _ (discover_cpt-IsUntraced _ (discover_prts-IsUntraced img h)) h

module_loop-IsUntraced :
    (left w : ℕ) (img : Image) → IsUntraced img → IsUntraced (module_loop left w img)
unfolding module_loop
module_loop-IsUntraced zero w img h = h
module_loop-IsUntraced (suc left) w img h = elim (Bool-cases (is_module_entry img w)) [
  | inr e ↦ rw (e, module_loop) (module_loop-IsUntraced left (w + 1) img h)
  | inl e ↦
      let entered = add_entry-IsUntraced (baddr w) img h in
      rw (e, module_loop)
        (module_loop-IsUntraced left (w + 1) _ (
          same_tables _ _ entered refl refl refl refl refl entered.consistent.in_bounds
            entered.consistent.entries_inside entered.consistent.entries_fit))
]

pub find_module_entries-IsUntraced :
    (img : Image) → IsUntraced img → IsUntraced (find_module_entries img)
unfolding find_module_entries
find_module_entries-IsUntraced img h = module_loop-IsUntraced 32766 0 img h
