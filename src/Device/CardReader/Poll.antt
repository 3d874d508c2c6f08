-- ===== src/Device/CardReader/Poll.antt =====
-- One poll of the card reader of Mitra/IO_card_reader.c in binary mode.
use mitra_15_for_simh.Prelude.{
  ℕ, zero, suc, ◌+◌, ◌%◌, ◌<◌, ◌≤◌, ◌≡◌, ◌⊎◌, inr, ◌∙◌, refl, true, false, ◌==◌, ◌||◌, arith, u16,
  if◌then◌else◌,
}
use mitra_15_for_simh.State.{CpuState, set_reg, reg_8, update}
use mitra_15_for_simh.Run.{M, done, ◌>>=◌, get, pure, ◌≔◌}
use mitra_15_for_simh.Run.Steps.{bind_done, then_done}
use mitra_15_for_simh.Memory.{word_index}
use mitra_15_for_simh.Memory.Laws.{is_refused, stored}
use mitra_15_for_simh.Memory.Bytes.{with_byte, write_byte_lem}
use mitra_15_for_simh.Deroute.Interrupt.{highest_below}
use mitra_15_for_simh.Device.Table.{write_byte_io, io_interrupt_dispatch}
use mitra_15_for_simh.Device.CardReader.{Cdr, binary_byte, emitted, polled, cdr_poll, cdr_interrupt}
use mitra_15_for_simh.Device.CardReader.Binary.{IsAt, after_byte, binary_byte-IsAt, column_of}

-- The reader is polled a number of times.
unfoldable pub card_polls : ℕ → Cdr → M Cdr
card_polls zero d = pure d
card_polls (suc n) d = do (st, d') ← cdr_poll d; card_polls n d'

-- The processor after a byte was stored.
abbrev pub byte_stored : (addr byte : ℕ) → CpuState → CpuState
byte_stored addr byte s = stored (word_index addr) (with_byte addr byte (s.mem (word_index addr))) s

-- The reader after a byte that is not the last of its card.
abbrev pub counted : ℕ → Cdr → Cdr
counted i d = record (after_byte i d) {
  mem_addr = (d.mem_addr + 1) % 4294967296;
  bytes_left = (d.bytes_left + 4294967295) % 4294967296;
}

-- The reader after the last byte.
abbrev pub over : ℕ → Cdr → Cdr
over i d = record (counted i d) {
  active = false;
  hopper = (d.hopper + 4294967295) % 4294967296;
  stacker = update d.stacker d.stacker_sel (d.stacker d.stacker_sel + 1);
  status = if d.status % 2 == 0 then 0 else d.status;
}

-- The processor after the interrupt of level 4, which sets R8 unless interrupts are masked.
abbrev pub signalled : CpuState → CpuState
signalled s = if s.ind.ma then s else set_reg reg_8 8 s

-- Byte i of a card is next, in a transfer to `addr`; the count does not end before the `left` bytes
-- that are left of the card.
pub record IsReading (bytes : ℕ → ℕ) (i addr left : ℕ) (d : Cdr) : Type 0 where
  pub is_at : IsAt bytes i d
  pub active : d.active ≡ true
  pub mode : d.mode ≡ 0
  pub blnt : d.blnt ≡ 80
  pub address : d.mem_addr ≡ addr
  pub enough : (d.bytes_left ≡ 0) ⊎ ((left ≤ d.bytes_left) × (d.bytes_left < 4294967296))

cdr_interrupt-done : (s : CpuState) → cdr_interrupt s ≡ done tt (signalled s)
unfolding cdr_interrupt io_interrupt_dispatch highest_below ◌>>=◌ get pure ◌≔◌
cdr_interrupt-done s = ground arith

module _ (bytes : ℕ → ℕ) (i addr left : ℕ) (d : Cdr) (s : CpuState)
    (h : IsReading bytes i addr left d) (small : i < 120)
    (free : is_refused (u16 addr) s ≡ false) where
  is_polled : cdr_poll d s ≡ (binary_byte d >>= λ r. emitted r.0 r.1) s
  unfolding cdr_poll polled
  is_polled = simp (h.active, h.blnt, h.mode) refl

  polled_byte : cdr_poll d s ≡ emitted (bytes i) (after_byte i d) s
  polled_byte =
      let (byte, next) = binary_byte-IsAt bytes i d s h.is_at small in
      is_polled ∙ bind_done (binary_byte d) (λ r. emitted r.0 r.1) byte

  written_byte : write_byte_io d.mem_addr (bytes i) s ≡ done tt (byte_stored (u16 addr) (bytes i) s)
  unfolding write_byte_io
  written_byte = rw h.address (write_byte_lem (u16 addr) (bytes i) s free)

  pub poll_next :
      ((d.bytes_left + 4294967295) % 4294967296 == 0) ≡ false
      → (column_of (i + 1) == 80) ≡ false
      → cdr_poll d s ≡ done (1, counted i d) (byte_stored (u16 addr) (bytes i) s)
  unfolding emitted pure
  poll_next more inside =
      polled_byte
      ∙ then_done (write_byte_io d.mem_addr (bytes i)) _ written_byte
      ∙ simp (more, h.blnt, inside) refl

  pub poll_last :
      column_of (i + 1) ≡ 80
      → cdr_poll d s ≡ done (1, over i d) (signalled (byte_stored (u16 addr) (bytes i) s))
  unfolding emitted pure
  poll_last last =
      let stop : ((d.bytes_left + 4294967295) % 4294967296 == 0 || column_of (i + 1) == d.blnt)
          ≡ true =
        let full = h.blnt in ground arith in
      polled_byte
      ∙ then_done (write_byte_io d.mem_addr (bytes i)) _ written_byte
      ∙ simp (stop) (then_done cdr_interrupt _ (cdr_interrupt-done _))

pub next-IsReading :
    (bytes : ℕ → ℕ) (i addr n : ℕ) (d : Cdr)
    → IsReading bytes i addr (suc (suc n)) d
    → IsAt bytes (i + 1) (after_byte i d)
    → addr + 1 < 4294967296
    → n < 120
    → IsReading bytes (i + 1) (addr + 1) (suc n) (counted i d)
next-IsReading bytes i addr n d h next small few =
    let address = h.address in
    let enough = h.enough in
    record {
      is_at = record {
        columns = next.columns;
        narrow = next.narrow;
        col = next.col;
        bptr = next.bptr;
      };
      active = h.active;
      mode = h.mode;
      blnt = h.blnt;
      address = omega arith;
      enough = inr (ground arith);
    }

pub column_inside : (i n : ℕ) → i + suc (suc n) ≡ 120 → (column_of (i + 1) == 80) ≡ false
unfolding column_of
column_inside i n e = ground arith

pub column_end : column_of (119 + 1) ≡ 80
unfolding column_of
column_end = refl

pub goes_on :
    (b n : ℕ)
    → (b ≡ 0) ⊎ ((suc (suc n) ≤ b) × (b < 4294967296))
    → ((b + 4294967295) % 4294967296 == 0) ≡ false
goes_on b n h = ground arith
