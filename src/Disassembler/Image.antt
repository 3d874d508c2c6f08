-- ===== src/Disassembler/Image.antt =====
-- The state of Disassembler/disassembler_v7.c: its options, which are set before the analysis, and
-- the arrays of MAX_MEM_WORDS entries that describe the image. The names, notes and profiles of the
-- listing are left out.
use mitra_15_for_simh.Prelude.{ℕ, ◌*◌, ◌/◌, ◌%◌, Bool, ◌||◌, List, leb}

pub record Options : Type 0 where
  pub min_text_words : ℕ
  pub follow_branches : Bool
  pub fallthrough_demotes : Bool
  pub fallthrough_trust_hops : ℕ
  pub g : ℕ
  pub l : ℕ
  pub g_given : Bool
  pub gprime_zero : Bool
  pub rel_base : ℕ
  pub disp_scale : ℕ
  pub br_scale : ℕ
  pub ptr_follow : Bool
  pub structures : Bool

-- `escaped` is set where the program reads or writes an array out of its bounds, which is undefined:
-- what the arrays hold from then on is not that of the program.
pub record Image : Type 0 where
  pub word : ℕ → ℕ
  pub loaded : ℕ → Bool
  pub is_text : ℕ → Bool
  pub is_code : ℕ → Bool
  pub strong_code : ℕ → Bool
  pub visited : ℕ → Bool
  pub call_slot : ℕ → Bool
  pub is_data : ℕ → Bool
  pub is_struct : ℕ → Bool
  pub ret_goff : ℕ → Bool
  pub root : ℕ → Bool
  pub modentry : ℕ → Bool
  pub entry_points : List ℕ
  pub prt_valid : ℕ → Bool
  pub prt_l : ℕ → ℕ
  pub prt_p : ℕ → ℕ
  pub mon_valid : ℕ → Bool
  pub mon_p : ℕ → ℕ
  pub ref_s : ℕ → ℕ
  pub ref_w : ℕ → ℕ
  pub refcnt : ℕ → ℕ
  pub seen_csv : Bool
  pub escaped : Bool

abbrev pub max_mem_words : ℕ
max_mem_words = 32768

-- An access to index `i` of an array of MAX_MEM_WORDS entries.
abbrev pub touch : (i : ℕ) → Image → Image
touch i img = record img { escaped = img.escaped || leb max_mem_words i }

-- IDX and BADDR: the word at a byte address, and back.
abbrev pub idx : ℕ → ℕ
idx a = a / 2 % 32768

abbrev pub baddr : ℕ → ℕ
baddr i = i * 2 % 65536
