-- ===== src/Disassembler/Tables.antt =====
-- Pass 2a of Disassembler/disassembler_v7.c: the tables of a monitor or of a program, and the entries
-- that they give. The names, the notes and the summary of the listing are left out.
pub mod Consistent
pub mod Discovered
use mitra_15_for_simh.Prelude.{
  ℕ, zero, suc, ◌+◌, ◌-◌, ◌*◌, ◌%◌, Bool, true, false, not, ◌&&◌, ◌||◌, List, [], ◌∷◌, ◌++◌, ◌==◌,
  leb, ltb, if◌then◌else◌,
}
use mitra_15_for_simh.Disassembler.Insn.{Insn, is_branch}
use mitra_15_for_simh.Disassembler.Decode.{is_valid, has_name, decode_insn}
use mitra_15_for_simh.Disassembler.Image.{Options, Image, max_mem_words, touch, idx, baddr}
use mitra_15_for_simh.Disassembler.Operand.{is_spa}
use mitra_15_for_simh.Disassembler.Flow.{set_flag}

abbrev pub max_entry_points : ℕ
max_entry_points = 1024

abbrev pub set_value : (ℕ → ℕ) → ℕ → ℕ → ℕ → ℕ
set_value f i n k = if k == i then n else f k

-- A word of a structure is not text, and is not decoded.
unfoldable pub struct_word : (i : ℕ) → Image → Image
struct_word i img = if leb max_mem_words i || not (img.loaded i) then img else record img {
  is_struct = set_flag img.is_struct i true;
  is_text = set_flag img.is_text i false;
}

-- The words `i` to `i + n - 1` of a structure.
unfoldable pub struct_words : (n i : ℕ) → Image → Image
unfolding struct_word
struct_words zero i img = img
struct_words (suc n) i img = struct_words n (i + 1) (struct_word i img)

unfoldable pub addr_ok : Image → (a : ℕ) → Bool
addr_ok img a = not (a % 2 == 1) && (leb a 0xfffe && img.loaded (idx a))

unfoldable pub is_entry : (i : ℕ) → List ℕ → Bool
is_entry i [] = false
is_entry i (e ∷ es) = e == i || is_entry i es

unfoldable pub count : List ℕ → ℕ
count [] = 0
count (_ ∷ es) = suc (count es)

-- An entry is kept once, and only as long as there is room.
unfoldable pub add_entry : (a : ℕ) → Image → Image
unfolding addr_ok is_entry count
add_entry a img =
    let rooted : Image = record img { root = set_flag img.root (idx a) true } in
    if not (addr_ok img a)
    then img
    else if is_entry (idx a) img.entry_points
    then rooted
    else if ltb (count img.entry_points) max_entry_points
    then record rooted { entry_points = img.entry_points ++ idx a ∷ [] }
    else rooted

-- The fields of section `n` of the PRT: L and P, as absolute addresses.
abbrev pub prt_labs : Options → Image → (i : ℕ) → ℕ
prt_labs opts img i = (opts.g + img.word i) % 65536

abbrev pub prt_pabs : Options → Image → (i : ℕ) → ℕ
prt_pabs opts img i = (opts.g + img.word (i + 1)) % 65536

-- `g_G - 4 * n` is the last of the table, or none of it.
unfoldable pub prt_ends : Options → Image → (n : ℕ) → Bool
unfolding addr_ok
prt_ends opts img n =
    let i : ℕ = idx (opts.g - 4 * n) in
    ltb opts.g (4 * n)
    || (not (img.loaded i)
        || (not (img.loaded (i + 1))
            || (img.word (i + 1) == 0
                || (not (addr_ok img (prt_pabs opts img i))
                    || not (img.word i == 0 || addr_ok img (prt_labs opts img i))))))

unfoldable pub prt_entry : Options → (n : ℕ) → Image → Image
unfolding struct_words add_entry
prt_entry opts n img =
    let i : ℕ = idx (opts.g - 4 * n) in
    let labs : ℕ = prt_labs opts img i in
    let pabs : ℕ = prt_pabs opts img i in
    let marked : Image = struct_words 2 i img in
    let known : Image = record marked {
      prt_valid = set_flag marked.prt_valid n true;
      prt_l = set_value marked.prt_l n labs;
      prt_p = set_value marked.prt_p n pabs;
    } in
    let entered : Image = add_entry pabs known in
    if img.word i == 0 then entered else struct_words 2 (idx labs) entered

-- The loop over the sections, with the rounds left.
unfoldable pub prt_loop : Options → (left n : ℕ) → Image → Image
unfolding prt_ends prt_entry
prt_loop opts zero n img = img
prt_loop opts (suc left) n img = elim (prt_ends opts img n) [
  | true ↦ img
  | false ↦ prt_loop opts left (n + 1) (prt_entry opts n img)
]

unfoldable pub discover_prt : Options → Image → Image
unfolding prt_loop
discover_prt opts img = if opts.g_given then prt_loop opts 255 1 img else img

unfoldable pub prts_ends : Image → (prts n : ℕ) → Bool
unfolding addr_ok
prts_ends img prts n =
    let i : ℕ = idx (prts - 4 * n) in
    ltb prts (4 * n)
    || (not (img.loaded i) || (not (img.loaded (i + 1)) || not (addr_ok img (img.word (i + 1)))))

unfoldable pub prts_entry : (prts n : ℕ) → Image → Image
unfolding struct_words add_entry
prts_entry prts n img =
    let i : ℕ = idx (prts - 4 * n) in
    let pabs : ℕ = img.word (i + 1) in
    let marked : Image = struct_words 2 i img in
    add_entry pabs (record marked {
      mon_valid = set_flag marked.mon_valid n true;
      mon_p = set_value marked.mon_p n pabs;
    })

-- The read of `mem_loaded[i + 1]`, which is out of its bounds where `i` is the last word.
unfoldable pub prts_read : (prts n : ℕ) → Image → Image
prts_read prts n img =
    let i : ℕ = idx (prts - 4 * n) in
    if ltb prts (4 * n) || not (img.loaded i) then img else touch (i + 1) img

-- The loop over the supervisor modules, with the rounds left.
unfoldable pub prts_loop : (prts left n : ℕ) → Image → Image
unfolding prts_ends prts_entry prts_read
prts_loop prts zero n img = img
prts_loop prts (suc left) n img = elim (prts_ends img prts n) [
  | true ↦ prts_read prts n img
  | false ↦ prts_loop prts left (n + 1) (prts_entry prts n (prts_read prts n img))
]

-- The words 6 and 7 are marked when a module was found, that is when the first round goes on.
unfoldable pub discover_prts : Image → Image
unfolding prts_loop prts_ends struct_words addr_ok
discover_prts img =
    let prts : ℕ = img.word 6 in
    let modules : ℕ = img.word 7 in
    let looped : Image = prts_loop prts modules 0 img in
    if addr_ok img prts && (leb 1 modules && leb modules 255)
    then if prts_ends img prts 0 then looped else struct_words 2 6 looped
    else img

unfoldable pub all_loaded : Image → (n i : ℕ) → Bool
all_loaded img zero i = true
all_loaded img (suc n) i = img.loaded i && all_loaded img n (i + 1)

-- The pointer of a context of seven words.
unfoldable pub is_context : Image → (p : ℕ) → Bool
unfolding all_loaded
is_context img p =
    not (p == 0)
    && (not (p % 2 == 1) && (leb (idx p + 7) max_mem_words && all_loaded img 7 (idx p)))

unfoldable pub has_context : Image → (n i : ℕ) → Bool
unfolding is_context
has_context img zero i = false
has_context img (suc n) i = is_context img (img.word i) || has_context img n (i + 1)

unfoldable pub cpt_entry : (i : ℕ) → Image → Image
unfolding struct_words add_entry is_context
cpt_entry i img =
    let p : ℕ = img.word i in
    let marked : Image = struct_word i img in
    if is_context img p && not (marked.is_struct (idx p))
    then add_entry (img.word (idx p + 6)) (struct_words 7 (idx p) marked)
    else marked

unfoldable pub cpt_loop : (left i : ℕ) → Image → Image
unfolding cpt_entry
cpt_loop zero i img = img
cpt_loop (suc left) i img = cpt_loop left (i + 1) (cpt_entry i img)

-- The contexts and the 32 words below their table.
unfoldable pub discover_cpt : Image → Image
unfolding cpt_loop struct_words all_loaded has_context addr_ok
discover_cpt img =
    let cpt : ℕ = img.word 5 in
    let contexts : Image = cpt_loop 32 (idx cpt) (struct_word 5 img) in
    if not (addr_ok img cpt && leb (idx cpt + 32) max_mem_words)
    then img
    else if not (all_loaded img 32 (idx cpt) && has_context img 32 (idx cpt))
    then img
    else if leb 64 cpt && all_loaded img 32 (idx (cpt - 64))
    then struct_words 32 (idx (cpt - 64)) contexts
    else contexts

unfoldable pub discover_system : Image → Image
unfolding discover_prts discover_cpt
discover_system img = if all_loaded img 3 5 then discover_cpt (discover_prts img) else img

-- SPA ; BRU ; RSV.
unfoldable pub is_module_entry : Image → (w : ℕ) → Bool
unfolding all_loaded is_spa has_name
is_module_entry img w =
    let a : Insn = decode_insn (img.word w) in
    let b : Insn = decode_insn (img.word (w + 1)) in
    let c : Insn = decode_insn (img.word (w + 2)) in
    all_loaded img 3 w
    && (not (img.is_text w || (img.is_text (w + 1) || img.is_text (w + 2)))
        && (is_valid a
            && (is_spa a
                && (is_valid b
                    && (is_branch b.cls && (b.is_uncond && (is_valid c && has_name "RSV" c)))))))

unfoldable pub module_loop : (left w : ℕ) → Image → Image
unfolding is_module_entry add_entry
module_loop zero w img = img
module_loop (suc left) w img = elim (is_module_entry img w) [
  | false ↦ module_loop left (w + 1) img
  | true ↦
      let entered : Image = add_entry (baddr w) img in
      module_loop left (w + 1) (record entered { modentry = set_flag entered.modentry w true })
]

unfoldable pub find_module_entries : Image → Image
unfolding module_loop
find_module_entries img = module_loop 32766 0 img
