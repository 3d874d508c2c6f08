-- ===== src/Device/Teletype/Transfer.antt =====
-- A transfer from the tape reader of Mitra/IO_asr33.c, from the command to the interrupt.
use mitra_15_for_simh.Prelude.{
  ℕ, zero, suc, ◌+◌, ◌-◌, ◌/◌, ◌%◌, ◌<◌, ◌≤◌, ◌≡◌, ◌≢◌, switch, ◌∙◌, ap, refl, true, false, some,
  List, [], ◌∷◌, ◌==◌, ==_refl, u8, arith,
}
use mitra_15_for_simh.State.{CpuState, set_reg, reg_work_mae, reg_curr_mae, reg_cnt_mae}
use mitra_15_for_simh.Run.{M, Run, done, ◌>>=◌, pure, get}
use mitra_15_for_simh.Run.Steps.{bind_done}
use mitra_15_for_simh.Status.{scpe_ok}
use mitra_15_for_simh.Memory.{va_to_pa, word_index}
use mitra_15_for_simh.Memory.Laws.{is_refused}
use mitra_15_for_simh.Memory.Bytes.{byte_at, byte_at-stored}
use mitra_15_for_simh.Device.Teletype.{Asr33, Key, asr_svc, asr33_wd, asr33_command, started}
use mitra_15_for_simh.Device.Teletype.Poll.{
  char_stored, char_taken, over, svc_next, svc_last, reading, IsEnded,
}

-- The unit is called again as long as polls are left.
unfoldable pub polls : ℕ → Asr33 → M Asr33
polls zero d = pure d
polls (suc n) d = do (st, d') ← asr_svc Key.nothing_typed d; polls n d'

-- The number of bytes of a list.
abbrev pub length : List ℕ → ℕ
length [] = 0
length (c ∷ cs) = suc (length cs)

-- The bytes of a list, from an address on.
abbrev pub AreAt : ℕ → List ℕ → CpuState → Type 0
AreAt addr [] t = Unit
AreAt addr (c ∷ cs) t = (byte_at addr t ≡ u8 c) × AreAt (addr + 1) cs t

-- Bytes can be stored from an address on.
pub record IsRoom (addr n : ℕ) (s : CpuState) : Type 0 where
  pub words : (k : ℕ) → s.mem k < 65536
  pub free : (k : ℕ) → k < n → is_refused (addr + k) s ≡ false
  pub fits : n ≤ 32768
  pub no_wrap : addr + n < 4294967296

-- The bytes are in memory from the address on, every other byte is as before, R9 is 0, and the
-- interrupt of level 6 is pending.
pub record IsRead (addr : ℕ) (bytes : List ℕ) (s t : CpuState) : Type 0 where
  pub there : AreAt addr bytes t
  pub others :
      (va : ℕ)
      → ((k : ℕ) → k < length bytes → va_to_pa va ≢ va_to_pa (addr + k))
      → byte_at va t ≡ byte_at va s
  pub count : t.reg reg_cnt_mae ≡ 0
  pub pending : t.intrpt_pending 6 ≡ true

module _ (c : ℕ) (tape : List ℕ) (addr left : ℕ) (d : Asr33) (s : CpuState)
    (words : (k : ℕ) → s.mem k < 65536) where
  char_there : byte_at addr (char_stored c (reading tape addr left d) s) ≡ u8 c
  unfolding set_reg
  char_there =
      let word = words (word_index addr) in
      byte_at-stored addr addr (u8 c) s word ∙ rw (==_refl (va_to_pa addr)) (omega arith)

  char_elsewhere :
      (va : ℕ)
      → va_to_pa va ≢ va_to_pa addr
      → byte_at va (char_stored c (reading tape addr left d) s) ≡ byte_at va s
  unfolding set_reg
  char_elsewhere va ne =
      let word = words (word_index addr) in
      let test : (va_to_pa va == va_to_pa addr) ≡ false = ground arith in
      byte_at-stored addr va (u8 c) s word ∙ rw test refl

  next_words : (k : ℕ) → (char_stored c (reading tape addr left d) s).mem k < 65536
  unfolding set_reg
  next_words k = let word = words k in ground arith

-- What a whole transfer returns: the device at rest, with the rest of the tape unread.
pub record IsTransferred (addr : ℕ) (bytes rest : List ℕ) (s : CpuState) (d' : Asr33) (t : CpuState)
    : Type 0 where
  pub read : IsRead addr bytes s t
  pub unread_tape : d'.image ≡ some rest
  pub idle : d'.active ≡ false
  pub status : d'.status ≡ 3
  pub none_left : d'.bytes_left ≡ 0

pub record Transfers (addr : ℕ) (bytes rest : List ℕ) (s : CpuState) (r : Run Asr33) : Type 0 where
  pub device : Asr33
  pub final : CpuState
  pub returns : r ≡ done device final
  pub holds : IsTransferred addr bytes rest s device final

abbrev then_rest : List ℕ → List ℕ → List ℕ
then_rest [] rest = rest
then_rest (c ∷ cs) rest = c ∷ then_rest cs rest

polls_one :
    (n : ℕ) (d d' : Asr33) (s t : CpuState)
    → asr_svc Key.nothing_typed d s ≡ done (scpe_ok, d') t
    → polls (suc n) d s ≡ polls n d' t
unfolding polls
polls_one n d d' s t e = bind_done (asr_svc Key.nothing_typed d) (λ r. polls n r.1) e

polls_last : (d : Asr33) (s : CpuState) → polls 0 d s ≡ done d s
unfolding polls pure
polls_last d s = refl

last_bytes :
    (c addr : ℕ) (rest : List ℕ) (d : Asr33) (s t : CpuState)
    → ((k : ℕ) → s.mem k < 65536)
    → IsEnded (char_stored c (reading rest addr 1 d) s) t
    → IsRead addr (c ∷ []) s t
last_bytes c addr rest d s t words h =
    let memory = h.memory in
    record {
      there = (rw memory (char_there c rest addr 1 d s words), tt);
      others = λ va away.
          rw memory
            (char_elsewhere c rest addr 1 d s words va λ e. away 0 (omega arith) (omega arith));
      count = h.count;
      pending = h.pending;
    }

taken-reading :
    (c : ℕ) (tape : List ℕ) (addr n : ℕ) (d : Asr33)
    → addr + 1 < 4294967296
    → char_taken c (reading tape addr (suc (suc n)) d)
      ≡ reading tape (addr + 1) (suc n) (record d { last_char = u8 c })
taken-reading c tape addr n d small =
    let e : (addr + 1) % 4294967296 ≡ addr + 1 = omega arith in
    let e' : suc (suc n) - 1 ≡ suc n = omega arith in rw (e, e') refl

module _ (c : ℕ) (bytes tape : List ℕ) (addr left : ℕ) (d : Asr33) (s : CpuState)
    (room : IsRoom addr (suc (length bytes)) s) where
  next-IsRoom : IsRoom (addr + 1) (length bytes) (char_stored c (reading tape addr left d) s)
  unfolding set_reg
  next-IsRoom =
      let fits = room.fits in
      let no_wrap = room.no_wrap in
      record {
        words = next_words c tape addr left d s (room.words);
        free = λ k lt.
            let e : addr + 1 + k ≡ addr + (k + 1) = omega arith in
            rw e (room.free (k + 1) (omega arith));
        fits = omega arith;
        no_wrap = omega arith;
      }

  more_bytes :
      (t : CpuState)
      → IsRead (addr + 1) bytes (char_stored c (reading tape addr left d) s) t
      → IsRead addr (c ∷ bytes) s t
  more_bytes t h =
      let fits = room.fits in
      record {
        there = (
          h.others addr (λ k lt e. omega arith) ∙ char_there c tape addr left d s (room.words),
          h.there,
        );
        others = λ va away.
            h.others va (λ k lt e. away (k + 1) (omega arith) (omega arith))
            ∙ char_elsewhere c tape addr left d s (room.words) va
                λ e. away 0 (omega arith) (omega arith);
        count = h.count;
        pending = h.pending;
      }

add_zero : (n : ℕ) → n + 0 ≡ n
add_zero n = omega arith

read_all :
    (c : ℕ) (bytes rest : List ℕ) (addr : ℕ) (d : Asr33) (s : CpuState)
    → IsRoom addr (length (c ∷ bytes)) s
    → Transfers addr (c ∷ bytes) rest s (
        polls
          (length (c ∷ bytes))
          (reading (then_rest (c ∷ bytes) rest) addr (length (c ∷ bytes)) d)
          s)
read_all c [] rest addr d s room =
    let h = svc_last c rest addr d s (rw (add_zero addr) at (room.free 0 (omega arith))) in
    record {
      device = over c rest addr d;
      final = h.final;
      returns = polls_one 0 _ (over c rest addr d) s (h.final) (h.returns) ∙ polls_last _ _;
      holds = record {
        read = last_bytes c addr rest d s (h.final) (room.words) (h.holds);
        unread_tape = refl;
        idle = refl;
        status = refl;
        none_left = refl;
      };
    }
read_all c (c' ∷ bytes) rest addr d s room =
    let n = length bytes in
    let no_wrap = room.no_wrap in
    let tape = then_rest (c' ∷ bytes) rest in
    let t = char_stored c (reading tape addr (suc (suc n)) d) s in
    let h =
      read_all c' bytes rest (addr + 1) (record d { last_char = u8 c }) t
        (next-IsRoom c (c' ∷ bytes) tape addr (suc (suc n)) d s room) in
    record {
      device = h.device;
      final = h.final;
      returns =
          polls_one (suc n) _ _ s t
            (svc_next c tape addr n d s (rw (add_zero addr) at (room.free 0 (omega arith))))
          ∙ ap (λ d'. polls (suc n) d' t) (taken-reading c tape addr n d (omega arith))
          ∙ h.returns;
      holds = record {
        read = more_bytes c (c' ∷ bytes) tape addr (suc (suc n)) d s room (h.final) (h.holds.read);
        unread_tape = h.holds.unread_tape;
        idle = h.holds.idle;
        status = h.holds.status;
        none_left = h.holds.none_left;
      };
    }

started-reading :
    (tape : List ℕ) (n cmd r9 r10 : ℕ) (d : Asr33)
    → cmd ≡ 3
    → d.image ≡ some tape
    → d.stop_on_compare ≡ false
    → r9 % 32768 ≡ n
    → asr33_command cmd r9 r10 d
      ≡ (scpe_ok, reading tape (r10 + 1) (suc n) (record d { status = 3 }))
unfolding asr33_command started switch
started-reading tape n cmd r9 r10 d three image plain count =
    let e : r9 % 32768 + 1 ≡ suc n = omega arith in simp (three, image, plain, e) refl

wd-reading :
    (tape : List ℕ) (n a_val : ℕ) (d : Asr33) (s : CpuState)
    → a_val % 256 ≡ 3
    → d.image ≡ some tape
    → s.reg reg_cnt_mae ≡ n
    → n < 32768
    → asr33_wd 1 a_val d s
      ≡ done
          (
            scpe_ok,
            reading tape
                (s.reg reg_curr_mae + 1)
                (suc n)
                (record d { status = 3; compare_char = s.reg reg_work_mae / 256 % 256 }),
          )
          s
unfolding asr33_wd ◌>>=◌ get pure
wd-reading tape n a_val d s three image count small =
    let plain : (s.reg reg_cnt_mae / 32768 % 2 == 1) ≡ false = ground arith in
    ap (λ r. done r s)
      (started-reading tape n (a_val % 256) (s.reg reg_cnt_mae) (s.reg reg_curr_mae)
        (record d {
          stop_on_compare = s.reg reg_cnt_mae / 32768 % 2 == 1;
          compare_char = s.reg reg_work_mae / 256 % 256;
        })
        three image plain (omega arith))

-- WD with E at 1 and 3 in the low byte of A, with a tape of at least n + 1 unread bytes
-- attached, with n in R9 and with 16-bit words in memory and room for n + 1 bytes, at most
-- 32768, that may be written from the address after the one in R10, starts a transfer that n + 1
-- polls bring to its end: the bytes are in memory from that address on, every other byte is as
-- before, R9 is 0, the interrupt of level 6 is pending, and the reader is at rest with the
-- status of a read and with the rest of the tape unread.
pub asr33_wd-Transfers :
    (c : ℕ) (bytes rest : List ℕ) (a_val : ℕ) (d : Asr33) (s : CpuState)
    → a_val % 256 ≡ 3
    → d.image ≡ some (then_rest (c ∷ bytes) rest)
    → s.reg reg_cnt_mae ≡ length bytes
    → IsRoom (s.reg reg_curr_mae + 1) (length (c ∷ bytes)) s
    → Transfers
        (s.reg reg_curr_mae + 1)
        (c ∷ bytes)
        rest
        s
        ((asr33_wd 1 a_val d >>= λ r. polls (length (c ∷ bytes)) r.1) s)
asr33_wd-Transfers c bytes rest a_val d s three image count room =
    let fits = room.fits in
    let e =
      wd-reading (then_rest (c ∷ bytes) rest) (length bytes) a_val d s three image count
        (omega arith) in
    let h =
      read_all c bytes rest (s.reg reg_curr_mae + 1)
        (record d { status = 3; compare_char = s.reg reg_work_mae / 256 % 256 }) s room in
    record {
      device = h.device;
      final = h.final;
      returns = bind_done (asr33_wd 1 a_val d) (λ r. polls (length (c ∷ bytes)) r.1) e ∙ h.returns;
      holds = h.holds;
    }
