-- ===== src/Device/CardReader/Card.antt =====
-- A whole card of Mitra/IO_card_reader.c in binary mode, from the file to the memory.
use mitra_15_for_simh.Prelude.{
  ℕ, ◌+◌, ◌/◌, ◌%◌, ◌<◌, ◌≤◌, ◌≡◌, ◌⊎◌, ◌∙◌, refl, true, false, some, ◌==◌, arith, u8, leb, ltb,
  if◌then◌else◌,
}
use mitra_15_for_simh.State.{CpuState}
use mitra_15_for_simh.Run.{done, ◌>>=◌, pure}
use mitra_15_for_simh.Run.Steps.{bind_done}
use mitra_15_for_simh.Device.File.{File, fread}
use mitra_15_for_simh.Device.CardReader.{
  Cdr, column, cdr_read_card, cdr_start_transfer, cdr_mode, mode_selector, begun,
}
use mitra_15_for_simh.Device.CardReader.Binary.{IsAt, column_of}
use mitra_15_for_simh.Device.CardReader.Poll.{card_polls}
use mitra_15_for_simh.Device.CardReader.Copy.{IsRoom, ReadsCard, rest_of_card}

-- The bytes of the next card of a file.
abbrev pub card : File → ℕ → ℕ
card f k = u8 (f.byte (f.pos + k))

-- The reader after a card has been read in binary mode.
abbrev pub loaded : File → Cdr → Cdr
loaded f d = record d {
  image = some (record f { pos = f.pos + 120 });
  mode = 0;
  buffer = λ i. if ltb i 80 then column (card f) i else d.buffer i;
  col = 0;
  bptr = 0;
  blnt = 80;
  active = true;
}

read_card :
    (f : File) (d : Cdr) (s : CpuState)
    → d.image ≡ some f
    → f.pos + 120 ≤ f.size
    → cdr_read_card d s
      ≡ done
          (
            true,
            record d {
              image = some (record f { pos = f.pos + 120 });
              buffer = λ i. if ltb i 80 then column (card f) i else d.buffer i;
            },
          )
          s
unfolding cdr_read_card fread pure
read_card f d s image room =
    let fits : leb (f.pos + 120) f.size ≡ true = ground arith in rw image (rw fits refl)

start_transfer :
    (cmd : ℕ) (f : File) (d : Cdr) (s : CpuState)
    → cmd / 16384 % 4 ≡ 0
    → d.active ≡ false
    → (d.hopper == 0) ≡ false
    → d.image ≡ some f
    → f.pos + 120 ≤ f.size
    → cdr_start_transfer cmd d s ≡ done (loaded f d) s
unfolding cdr_start_transfer cdr_mode mode_selector begun pure
start_transfer cmd f d s binary idle cards image room =
    simp (binary, idle, cards)
      (bind_done (cdr_read_card (record d { mode = 0; active = false })) _
        (read_card f (record d { mode = 0; active = false }) s image room))

loaded-IsAt : (f : File) (d : Cdr) → IsAt (card f) 0 (loaded f d)
unfolding column_of
loaded-IsAt f d = record {
  columns = λ j lt. ground arith;
  narrow = λ k. omega arith;
  col = refl;
  bptr = refl;
}

-- A transfer that is started in binary mode at rest, with a card in the hopper, 120 bytes or
-- more left in the file, 16-bit words in memory, a byte count that is 0, which the program
-- leaves it at, or at least 120, and with 120 bytes that may be written from its address on, is
-- over after 120 polls: the bytes of the card are in memory from that address on, every other
-- byte is as before, R8 holds 8 unless interrupts are masked, and the reader is at rest behind
-- the card in the file, with one card less in the hopper, one more in the selected stacker, and
-- with status 0 where the status was even.
pub cdr_start_transfer-ReadsCard :
    (cmd : ℕ) (f : File) (d : Cdr) (s : CpuState)
    → cmd / 16384 % 4 ≡ 0
    → d.active ≡ false
    → (d.hopper == 0) ≡ false
    → d.image ≡ some f
    → f.pos + 120 ≤ f.size
    → (d.bytes_left ≡ 0) ⊎ ((120 ≤ d.bytes_left) × (d.bytes_left < 4294967296))
    → IsRoom d.mem_addr 120 s
    → ReadsCard
        (card f)
        0
        d.mem_addr
        120
        (loaded f d)
        s
        ((cdr_start_transfer cmd d >>= card_polls 120) s)
cdr_start_transfer-ReadsCard cmd f d s binary idle cards image room_in_file enough room =
    let rest =
      rest_of_card (card f) 119 0 d.mem_addr (loaded f d) s
        (record {
          is_at = loaded-IsAt f d;
          active = refl;
          mode = refl;
          blnt = refl;
          address = refl;
          enough = enough;
        })
        refl room in
    record {
      device = rest.device;
      final = rest.final;
      returns =
          bind_done (cdr_start_transfer cmd d) (card_polls 120)
            (start_transfer cmd f d s binary idle cards image room_in_file)
          ∙ rest.returns;
      copied = rest.copied;
      fed = rest.fed;
    }
