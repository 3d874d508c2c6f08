-- ===== src/Disassembler/Load/Raw.antt =====
-- What a raw file puts in the memory of Disassembler/disassembler_v7.c.
use mitra_15_for_simh.Prelude.{
  ℕ, zero, suc, ◌+◌, ◌*◌, ◌/◌, ◌%◌, ◌<◌, ◌≡◌, inl, inr, refl, ◌∙◌, true, false, some, List, [], ◌∷◌,
  ◌==◌, leb, arith, Bool-cases,
}
use mitra_15_for_simh.Disassembler.Insn.{get_elem?}
use mitra_15_for_simh.Disassembler.Image.{Image, max_mem_words}
use mitra_15_for_simh.Disassembler.Load.{store_word, load_raw}
use mitra_15_for_simh.Disassembler.Tables.{count}

-- The words of a file.
unfoldable pub words : List ℕ → List ℕ
words [] = []
words (byte1 ∷ []) = []
words (byte1 ∷ byte2 ∷ bytes) = (byte1 * 256 + byte2) ∷ words bytes

-- Before any word is loaded.
pub record IsBlank (img : Image) : Type 0 where
  pub bounded : (w : ℕ) → img.loaded w ≡ true → w < max_mem_words
  pub no_struct : (w : ℕ) → img.is_struct w ≡ false
  pub no_code : (w : ℕ) → img.is_code w ≡ false

store_word-IsBlank : (a val : ℕ) (img : Image) → IsBlank img → IsBlank (store_word a val img)
unfolding store_word
store_word-IsBlank a val img h = elim (Bool-cases (leb max_mem_words (a / 2))) [
  | inl out ↦ rw out h
  | inr fits ↦ rw fits (record {
    bounded = λ w on. elim (Bool-cases (w == a / 2)) [
      | inl here ↦ ground (arith, here, fits)
      | inr off ↦ h.bounded w (rw off at on)
    ];
    no_struct = h.no_struct;
    no_code = h.no_code;
  })
]

pub load_raw-IsBlank :
    (bytes : List ℕ) (addr : ℕ) (img : Image) → IsBlank img → IsBlank (load_raw bytes addr img)
unfolding load_raw
load_raw-IsBlank [] addr img h = h
load_raw-IsBlank (byte1 ∷ []) addr img h = h
load_raw-IsBlank (byte1 ∷ byte2 ∷ bytes) addr img h =
    load_raw-IsBlank bytes _ _ (store_word-IsBlank addr _ img h)

store_word-other :
    (n val : ℕ) (img : Image) (k : ℕ)
    → k < n
    → ((store_word (n * 2) val img).word k ≡ img.word k)
      × ((store_word (n * 2) val img).loaded k ≡ img.loaded k)
unfolding store_word
store_word-other n val img k h = ground arith

store_word-here :
    (n val : ℕ) (img : Image)
    → n < max_mem_words
    → ((store_word (n * 2) val img).word n ≡ val) × ((store_word (n * 2) val img).loaded n ≡ true)
unfolding store_word
store_word-here n val img h = ground arith

next_address : (n : ℕ) → n < 2147483647 → (n * 2 + 2) % 4294967296 ≡ (n + 1) * 2
next_address n h = omega arith

-- What stands before the place where a file goes is kept.
load_raw-before :
    (bytes : List ℕ) (n : ℕ) (img : Image) (k : ℕ)
    → n + count (words bytes) < 2147483648
    → k < n
    → ((load_raw bytes (n * 2) img).word k ≡ img.word k)
      × ((load_raw bytes (n * 2) img).loaded k ≡ img.loaded k)
unfolding load_raw words count
load_raw-before [] n img k room h = (refl, refl)
load_raw-before (byte1 ∷ []) n img k room h = (refl, refl)
load_raw-before (byte1 ∷ byte2 ∷ bytes) n img k room h =
    let stored = store_word (n * 2) (byte1 * 256 + byte2) img in
    let (same_word, same_loaded) = store_word-other n (byte1 * 256 + byte2) img k h in
    let (word, loaded) = load_raw-before bytes (n + 1) stored k (omega arith) (omega arith) in
    rw (next_address n (omega arith)) (word ∙ same_word, loaded ∙ same_loaded)

load_raw-from :
    (bytes : List ℕ) (n : ℕ) (img : Image) (j i val : ℕ)
    → n + count (words bytes) < 2147483648
    → i ≡ n + j
    → i < max_mem_words
    → get_elem? (words bytes) j ≡ some val
    → ((load_raw bytes (n * 2) img).word i ≡ val) × ((load_raw bytes (n * 2) img).loaded i ≡ true)
unfolding load_raw words count get_elem?
load_raw-from [] n img j i val room at_j fits h = absurd (cc)
load_raw-from (byte1 ∷ []) n img j i val room at_j fits h = absurd (cc)
load_raw-from (byte1 ∷ byte2 ∷ bytes) n img zero i val room at_j fits h =
    let stored = store_word (n * 2) (byte1 * 256 + byte2) img in
    let same : i ≡ n = omega (arith, at_j) in
    let value : byte1 * 256 + byte2 ≡ val = cc in
    let (word, loaded) = store_word-here n (byte1 * 256 + byte2) img (omega (arith, same, fits)) in
    let (kept_word, kept_loaded) =
      load_raw-before bytes (n + 1) stored n (omega arith) (omega arith) in
    rw (next_address n (omega arith), same) (kept_word ∙ word ∙ value, kept_loaded ∙ loaded)
load_raw-from (byte1 ∷ byte2 ∷ bytes) n img (suc j) i val room at_j fits h =
    rw (next_address n (omega arith)) (
      load_raw-from bytes (n + 1) (store_word (n * 2) (byte1 * 256 + byte2) img) j i val
        (omega arith) (omega arith) fits h)

-- A raw file of fewer than 2 ^ 31 words is loaded word by word, the high byte first: word k of
-- memory holds word k of the file, and is loaded, for each k of the file below 32768.
pub load_raw-words :
    (bytes : List ℕ) (img : Image) (k val : ℕ)
    → count (words bytes) < 2147483648
    → k < max_mem_words
    → get_elem? (words bytes) k ≡ some val
    → ((load_raw bytes 0 img).word k ≡ val) × ((load_raw bytes 0 img).loaded k ≡ true)
load_raw-words bytes img k val room fits h =
    load_raw-from bytes 0 img k k val (omega arith) (omega arith) fits h
