-- ===== src/Disassembler/Load.antt =====
-- How Disassembler/disassembler_v7.c loads a raw file, in words of two bytes, the high one first.
pub mod Raw
use mitra_15_for_simh.Prelude.{
  ℕ, ◌+◌, ◌*◌, ◌/◌, ◌%◌, false, List, [], ◌∷◌, leb, if◌then◌else◌, true,
}
use mitra_15_for_simh.Disassembler.Image.{Image, max_mem_words}
use mitra_15_for_simh.Disassembler.Flow.{set_flag}
use mitra_15_for_simh.Disassembler.Tables.{set_value}

unfoldable pub store_word : (byte_addr val : ℕ) → Image → Image
store_word byte_addr val img = if leb max_mem_words (byte_addr / 2) then img else record img {
  word = set_value img.word (byte_addr / 2) val;
  loaded = set_flag img.loaded (byte_addr / 2) true;
}

-- A byte that is left over is dropped.
unfoldable pub load_raw : (bytes : List ℕ) (addr : ℕ) → Image → Image
unfolding store_word
load_raw [] addr img = img
load_raw (byte1 ∷ []) addr img = img
load_raw (byte1 ∷ byte2 ∷ bytes) addr img =
    load_raw bytes ((addr + 2) % 4294967296) (store_word addr (byte1 * 256 + byte2) img)
