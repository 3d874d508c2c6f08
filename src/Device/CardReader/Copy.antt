-- ===== src/Device/CardReader/Copy.antt =====
-- The polls of a card by Mitra/IO_card_reader.c in binary mode, against the bytes in memory.
use mitra_15_for_simh.Prelude.{
  ℕ, zero, suc, ◌+◌, ◌-◌, ◌%◌, ◌<◌, ◌≡◌, ◌≢◌, inl, inr, ◌∙◌, ap, refl, true, false, Bool-cases,
  ◌==◌, ==_refl, arith, u16,
}
use mitra_15_for_simh.State.{CpuState, set_reg, reg_num, reg_8}
use mitra_15_for_simh.Run.{Run, done, pure}
use mitra_15_for_simh.Run.Steps.{bind_done}
use mitra_15_for_simh.Memory.{va_to_pa, word_index}
use mitra_15_for_simh.Memory.Laws.{is_refused}
use mitra_15_for_simh.Memory.Bytes.{byte_at, byte_at-stored}
use mitra_15_for_simh.Device.CardReader.{Cdr, cdr_poll}
use mitra_15_for_simh.Device.CardReader.Binary.{binary_byte-IsAt, column_of}
use mitra_15_for_simh.Device.CardReader.Poll.{
  card_polls, byte_stored, counted, over, signalled, IsReading, poll_next, poll_last,
  next-IsReading, column_inside, column_end, goes_on,
}

-- The bytes from an address on may be written, and the address does not wrap.
pub record IsRoom (addr n : ℕ) (s : CpuState) : Type 0 where
  pub words : (k : ℕ) → s.mem k < 65536
  pub free : (k : ℕ) → k < n → is_refused (u16 (addr + k)) s ≡ false
  pub no_wrap : addr + n < 4294967296

-- Bytes `i` to `i + n - 1` of a card are in memory from the address on, every other byte is as before,
-- and R8 asks for level 4 unless interrupts are masked.
pub record IsCopied (bytes : ℕ → ℕ) (i addr n : ℕ) (s t : CpuState) : Type 0 where
  pub there : (k : ℕ) → k < n → byte_at (u16 (addr + k)) t ≡ bytes (i + k)
  pub others :
      (va : ℕ)
      → ((k : ℕ) → k < n → va_to_pa va ≢ va_to_pa (u16 (addr + k)))
      → byte_at va t ≡ byte_at va s
  pub signal : s.ind.ma ≡ false → t.reg reg_8 ≡ 8

-- The reader at rest: the card is on the stacker, and the file at its end.
pub record IsFed (d d' : Cdr) : Type 0 where
  pub idle : d'.active ≡ false
  pub hopper : d'.hopper ≡ (d.hopper + 4294967295) % 4294967296
  pub stacker : d'.stacker d.stacker_sel ≡ d.stacker d.stacker_sel + 1
  pub image : d'.image ≡ d.image
  pub status : (d.status % 2 == 0) ≡ true → d'.status ≡ 0

module _ (bytes : ℕ → ℕ) (i addr : ℕ) (s : CpuState) (words : (k : ℕ) → s.mem k < 65536)
    (narrow : (k : ℕ) → bytes k < 256) where
  byte_there : byte_at (u16 addr) (byte_stored (u16 addr) (bytes i) s) ≡ bytes i
  byte_there =
      let small = narrow i in
      byte_at-stored (u16 addr) (u16 addr) (bytes i) s (words (word_index (u16 addr)))
      ∙ rw (==_refl (va_to_pa (u16 addr))) (omega arith)

  byte_elsewhere :
      (va : ℕ)
      → va_to_pa va ≢ va_to_pa (u16 addr)
      → byte_at va (byte_stored (u16 addr) (bytes i) s) ≡ byte_at va s
  byte_elsewhere va ne =
      let test : (va_to_pa va == va_to_pa (u16 addr)) ≡ false = ground arith in
      byte_at-stored (u16 addr) va (bytes i) s (words (word_index (u16 addr))) ∙ rw test refl

  next_words : (k : ℕ) → (byte_stored (u16 addr) (bytes i) s).mem k < 65536
  next_words k = let word = words k in ground arith

-- What the polls of a card return.
pub record ReadsCard (bytes : ℕ → ℕ) (i addr n : ℕ) (d : Cdr) (s : CpuState) (r : Run Cdr)
    : Type 0 where
  pub device : Cdr
  pub final : CpuState
  pub returns : r ≡ done device final
  pub copied : IsCopied bytes i addr n s final
  pub fed : IsFed d device

polls_one :
    (n : ℕ) (d d' : Cdr) (s t : CpuState)
    → cdr_poll d s ≡ done (1, d') t
    → card_polls (suc n) d s ≡ card_polls n d' t
unfolding card_polls
polls_one n d d' s t e = bind_done (cdr_poll d) (λ r. card_polls n r.1) e

polls_none : (d : Cdr) (s : CpuState) → card_polls 0 d s ≡ done d s
unfolding card_polls pure
polls_none d s = refl

signalled-mem : (s : CpuState) → (signalled s).mem ≡ s.mem
unfolding set_reg
signalled-mem s = elim (Bool-cases s.ind.ma) [ inl e ↦ rw e refl | inr e ↦ rw e refl ]

signalled-r8 : (s : CpuState) → s.ind.ma ≡ false → (signalled s).reg reg_8 ≡ 8
unfolding set_reg reg_num
signalled-r8 s e = rw e refl

next-IsRoom :
    (addr n v : ℕ) (s : CpuState)
    → IsRoom addr (suc n) s
    → ((k : ℕ) → (byte_stored (u16 addr) v s).mem k < 65536)
    → IsRoom (addr + 1) n (byte_stored (u16 addr) v s)
next-IsRoom addr n v s room words =
    let no_wrap = room.no_wrap in
    record {
      words = words;
      free = λ k lt.
          let e : addr + 1 + k ≡ addr + (k + 1) = omega arith in
          rw e (room.free (k + 1) (omega arith));
      no_wrap = omega arith;
    }

module _ (bytes : ℕ → ℕ) (i addr : ℕ) (d : Cdr) (s : CpuState) where
  last-IsCopied :
      (narrow : (k : ℕ) → bytes k < 256)
      → IsRoom addr 1 s
      → IsCopied bytes i addr 1 s (signalled (byte_stored (u16 addr) (bytes i) s))
  last-IsCopied narrow room =
      let t = byte_stored (u16 addr) (bytes i) s in
      record {
        there = λ k lt.
            let e : addr + k ≡ addr = omega arith in
            let e' : i + k ≡ i = omega arith in
            rw (e, e', signalled-mem t) (byte_there bytes i addr s room.words narrow);
        others = λ va away.
            let e : addr + 0 ≡ addr = omega arith in
            rw (signalled-mem t)
              (byte_elsewhere bytes i addr s room.words narrow va (rw e at (away 0 (omega arith))));
        signal = signalled-r8 t;
      }

  more-IsCopied :
      (n : ℕ) (t : CpuState)
      → ((k : ℕ) → bytes k < 256)
      → n < 120
      → IsRoom addr (suc n) s
      → IsCopied bytes (i + 1) (addr + 1) n (byte_stored (u16 addr) (bytes i) s) t
      → IsCopied bytes i addr (suc n) s t
  more-IsCopied n t narrow few room h = record {
    there = λ k lt. elim (Bool-cases (k == 0)) [
      | inl first ↦
          let e : addr + k ≡ addr = ground arith in
          let e' : i + k ≡ i = ground arith in
          rw (e, e')
            (h.others (u16 addr) (λ j lt' same. omega arith)
              ∙ byte_there bytes i addr s room.words narrow)
      | inr later ↦
          let e : addr + k ≡ addr + 1 + (k - 1) = ground arith in
          let e' : i + k ≡ i + 1 + (k - 1) = ground arith in
          rw (e, e') (h.there (k - 1) (ground arith))
    ];
    others = λ va away.
        let e : addr + 0 ≡ addr = omega arith in
        h.others va (λ k lt.
          let e' : addr + 1 + k ≡ addr + (k + 1) = omega arith in
          rw e' (away (k + 1) (omega arith)))
        ∙ byte_elsewhere bytes i addr s room.words narrow va (rw e at (away 0 (omega arith)));
    signal = h.signal;
  }

pub rest_of_card :
    (bytes : ℕ → ℕ) (n i addr : ℕ) (d : Cdr) (s : CpuState)
    → IsReading bytes i addr (suc n) d
    → i + suc n ≡ 120
    → IsRoom addr (suc n) s
    → ReadsCard bytes i addr (suc n) d s (card_polls (suc n) d s)
rest_of_card bytes zero i addr d s h last room =
    let e : addr + 0 ≡ addr = omega arith in
    let free : is_refused (u16 addr) s ≡ false = rw e at (room.free 0 (omega arith)) in
    let i_last : i ≡ 119 = omega arith in
    let end : column_of (i + 1) ≡ 80 = ap (λ j. column_of (j + 1)) i_last ∙ column_end in
    record {
      device = over i d;
      final = signalled (byte_stored (u16 addr) (bytes i) s);
      returns =
          polls_one 0 d _ s _ (poll_last bytes i addr 1 d s h (omega arith) free end)
          ∙ polls_none _ _;
      copied = last-IsCopied bytes i addr d s h.is_at.narrow room;
      fed = record {
        idle = refl;
        hopper = refl;
        stacker = rw (==_refl d.stacker_sel) refl;
        image = refl;
        status = λ e. rw e refl;
      };
    }
rest_of_card bytes (suc n) i addr d s h last room =
    let e : addr + 0 ≡ addr = omega arith in
    let free : is_refused (u16 addr) s ≡ false = rw e at (room.free 0 (omega arith)) in
    let no_wrap = room.no_wrap in
    let narrow = h.is_at.narrow in
    let (byte, next) = binary_byte-IsAt bytes i d s h.is_at (omega arith) in
    let t = byte_stored (u16 addr) (bytes i) s in
    let rest =
      rest_of_card bytes n (i + 1) (addr + 1) (counted i d) t
        (next-IsReading bytes i addr n d h next (omega arith) (omega arith)) (omega arith)
        (next-IsRoom addr (suc n) (bytes i) s room (next_words bytes i addr s room.words narrow)) in
    let fed = rest.fed in
    record {
      device = rest.device;
      final = rest.final;
      returns =
          polls_one (suc n) d _ s t (
            poll_next bytes i addr _ d s h (omega arith) free (goes_on d.bytes_left n h.enough)
              (column_inside i n last))
          ∙ rest.returns;
      copied =
          more-IsCopied bytes i addr d s (suc n) rest.final narrow (omega arith) room rest.copied;
      fed = record {
        idle = fed.idle;
        hopper = fed.hopper;
        stacker = fed.stacker;
        image = fed.image;
        status = fed.status;
      };
    }
