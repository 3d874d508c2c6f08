-- ===== src/Tests/Devices.antt =====
-- The invariant of the machine, the memory as an array, the suspensions, the console and the devices
-- on samples.
use mitra_15_for_simh.Prelude.{
  ◌↔◌, ◌⊎◌, ◌+◌, ℕ, ◌*◌, ◌≡◌, refl, inl, true, false, Option, none, some, List, [], ◌∷◌, arith,
}
use mitra_15_for_simh.State.{CpuState, UnitFlags, update, reg_cnt_mae, reg_curr_mae}
use mitra_15_for_simh.Run.{◌>>=◌, ◌>>◌, get, pure, modify}
use mitra_15_for_simh.Run.Steps.{Returns}
use mitra_15_for_simh.Status.{scpe_ok}
use mitra_15_for_simh.Deroute.Suspension.{mitra_suspension_request}
use mitra_15_for_simh.Deroute.Suspension.Drain.{processed, requests, IsDrained, processed-IsDrained}
use mitra_15_for_simh.Cpu.Invariant.Sound.{IsSound}
use mitra_15_for_simh.Cpu.Invariant.Instructions.{AreKept}
use mitra_15_for_simh.Cpu.Invariant.Reach.{
  power_on, Reach, start, later, suspension, deposit, Reach-IsSound,
}
use mitra_15_for_simh.Memory.{store}
use mitra_15_for_simh.Memory.Bytes.{byte_at}
use mitra_15_for_simh.Memory.Refinement.{
  Access, get_word, get_byte, put_word, put_byte, accesses, access_bytes, accesses_bytes,
  Represents, accesses-Represents,
}
use mitra_15_for_simh.Console.{cpu_dep}
use mitra_15_for_simh.Console.Size.{IsResized, cpu_set_size, cpu_set_size-IsResized}
use mitra_15_for_simh.Console.History.{History, Call, entry}
use mitra_15_for_simh.Console.History.Ring.{Shows, cpu_show_hist-Shows}
use mitra_15_for_simh.Device.Table.{Dib, Handler, plug, io_init}
use mitra_15_for_simh.Device.Table.Conflict.{ClaimsIllegal, ClaimsTwice, io_init-conflicts}
use mitra_15_for_simh.Device.Teletype.{Asr33, asr33_wd}
use mitra_15_for_simh.Device.Teletype.Transfer.{polls, Transfers, asr33_wd-Transfers}
use mitra_15_for_simh.Device.File.{File}
use mitra_15_for_simh.Device.CardReader.{Cdr, cdr_start_transfer}
use mitra_15_for_simh.Device.CardReader.Copy.{ReadsCard}
use mitra_15_for_simh.Device.CardReader.Poll.{card_polls}
use mitra_15_for_simh.Device.CardReader.Card.{card, loaded, cdr_start_transfer-ReadsCard}
use mitra_15_for_simh.Device.Dri.{Dri}
use mitra_15_for_simh.Device.Printer.{Printer}
use mitra_15_for_simh.Device.Tape.{Tape}
use mitra_15_for_simh.Device.Sagem.{Sagem}
use mitra_15_for_simh.Tests.Samples.{slave, sample_host}

abbrev options : UnitFlags
options = record { extins = true; fp = true; muldiv = true; hsint = false }

abbrev poked : CpuState
unfolding power_on
poked = record (power_on options) { mem = update (λ _. 0) 32 0x1234 }

abbrev requested : CpuState
unfolding poked power_on
requested = record poked { susp_req_bits = update (λ _. false) 9 true; susp_pending = true }

reached : Reach sample_host [] options requested
unfolding power_on poked requested mitra_suspension_request cpu_dep ◌>>◌ ◌>>=◌ get pure modify store
reached =
    later (later start (deposit {s = power_on options} {t = poked} 0x1234 0x40 scpe_ok refl))
      (suspension {s = poked} {t = requested} 9 scpe_ok refl)

no_handlers : AreKept IsSound sample_host.dio_disp
no_handlers = record { handled = λ mode handler e inst is_write. absurd (cc) }

Reach-IsSound_example : IsSound requested
Reach-IsSound_example = Reach-IsSound sample_host [] options requested no_handlers reached

processed-IsDrained_example : Returns (processed 1 slave) tt (IsDrained slave)
unfolding requests
processed-IsDrained_example = processed-IsDrained 0 slave refl (omega arith) refl

-- The sample with the key.
abbrev keyed : CpuState
keyed = record slave { ind = record { c = 1; ov = 0; ms = true; ma = false; pr = true } }

abbrev bytes : ℕ → ℕ
bytes i = byte_at i keyed

keyed-Represents : Represents keyed bytes
keyed-Represents = record { bytes = λ i lt. refl; words = λ k. ground arith; key = refl }

-- A byte is written inside a word that is then read, across the alias of the upper half.
abbrev some_accesses : List Access
some_accesses = put_word 0x40 0x1234 ∷ put_byte 0x41 0xff ∷ get_word 0x8040 ∷ get_byte 0x40 ∷ []

accesses-Represents_example :
    Returns
      (accesses some_accesses keyed)
      (accesses_bytes some_accesses bytes).0
      (λ t. Represents t (accesses_bytes some_accesses bytes).1)
accesses-Represents_example =
    accesses-Represents some_accesses keyed bytes (refl, (tt, (refl, (tt, tt)))) keyed-Represents

accesses_test : (accesses_bytes some_accesses bytes).0 ≡ 0 ∷ 0 ∷ 0x12ff ∷ 0x12 ∷ []
unfolding accesses_bytes access_bytes
accesses_test = refl

abbrev echo : Handler
echo inst is_write = pure scpe_ok

-- The devices of Mitra/mitra_sys.c up to the disk: the processor, the panel, the clock and the disk.
abbrev configured : List (Option Dib)
configured =
    some (record { dio = 0; dio_disp = some echo })
    ∷ some (record { dio = 0x15; dio_disp = some echo })
    ∷ none
    ∷ some (record { dio = 0x15; dio_disp = some echo })
    ∷ []

io_init-conflicts_example :
    ((io_init configured).0 ≡ true) ↔ (ClaimsIllegal configured ⊎ ClaimsTwice configured)
io_init-conflicts_example = io_init-conflicts configured

configured_test : (io_init configured).0 ≡ true
unfolding io_init plug
configured_test = refl

-- A teletype with a tape.
abbrev teletype : Asr33
teletype = record {
  image = some (0x41 ∷ 0x42 ∷ 0x43 ∷ []);
  active = false;
  mode = 0;
  stop_on_compare = false;
  compare_char = 0;
  mem_addr = 0;
  bytes_left = 0;
  last_char = 0;
  status = 0;
  printed = [];
}

-- R9 asks for two bytes, R10 for the address 0x101.
abbrev asking : CpuState
asking = record slave {
  reg = λ r. elim r [ reg_cnt_mae ↦ 1 | reg_curr_mae ↦ 0x100 | _ ↦ 0 ];
  mp = λ i. false;
}

asr33_wd-Transfers_example :
    Transfers 0x101
      (0x41 ∷ 0x42 ∷ [])
      (0x43 ∷ [])
      asking
      ((asr33_wd 1 3 teletype >>= λ r. polls 2 r.1) asking)
asr33_wd-Transfers_example =
    asr33_wd-Transfers 0x41 (0x42 ∷ []) (0x43 ∷ []) 3 teletype asking refl refl refl (record {
      words = λ k. ground arith;
      free = λ k lt. refl;
      fits = omega arith;
      no_wrap = omega arith;
    })

abbrev deck : File
deck = record { byte = λ i. i * 7; size = 240; pos = 120 }

abbrev reader : Cdr
reader = record {
  image = some deck;
  hopper = 1;
  stacker = λ i. 0;
  stacker_sel = 0;
  status = 0;
  mode = 0;
  active = false;
  buffer = λ i. 0;
  col = 0;
  bptr = 0;
  blnt = 0;
  mem_addr = 0;
  bytes_left = 0;
}

cdr_start_transfer-ReadsCard_example :
    ReadsCard
      (card deck)
      0
      0
      120
      (loaded deck reader)
      slave
      ((cdr_start_transfer 0x0001 reader >>= card_polls 120) slave)
cdr_start_transfer-ReadsCard_example =
    cdr_start_transfer-ReadsCard 0x0001 deck reader slave refl refl refl refl (omega arith)
      (inl refl)
      (record { words = λ k. ground arith; free = λ k lt. ground arith; no_wrap = omega arith })

abbrev printer : Printer
printer = record {
  output = none;
  status = 0;
  active = false;
  mem_addr = 0;
  bytes_left = 0;
  format_mode = 0;
  jump_code = 0;
}

abbrev tape : Tape
tape = record {
  reader = record {
    has_image = true;
    pos = 0;
    nzc = 0;
    last_char = 0;
    status = 0;
    active = false;
    mem_addr = 0;
    bytes_left = 0;
    mode = 0;
  };
  punch = record {
    has_image = false;
    pos = 0;
    status = 0;
    active = false;
    mem_addr = 0;
    bytes_left = 0;
    advance = false;
  };
}

abbrev sagem : Sagem
sagem = record {
  has_image = true;
  total_sectors = 1536;
  me = 0;
  status = 0;
  active = false;
  mem_addr = 0;
  bytes_left = 0;
  track = 0;
  sector = 0;
  mode = 0;
}

abbrev dri : Dri
dri = record {
  unit = λ n. record {
    image = some deck;
    total_sectors = 9744;
    status = 0;
    operation = 1;
    active = true;
    mem_addr = 0;
    bytes_left = 0;
    cur_ads = 0;
    susp_level = 0;
  };
  last_selected = 0;
}

-- A ring of three entries, and calls of instructions one word after the other.
abbrev ring : History
ring = record {
  hst = λ i. record { typ = 0; p = 0; a = 0; e = 0; x = 0; l = 0; g = 0; u = 0; v = 0; w = 0 };
  hst_p = 0;
  hst_lnt = 3;
  hst_exclude = 3;
}

abbrev some_calls : ℕ → Call
some_calls i = record { pc = 0x40 + 2 * i; tp = 1; cpu_mode = 0; state = slave }

cpu_show_hist-Shows_example : Shows 5 some_calls ring
unfolding entry
cpu_show_hist-Shows_example =
    cpu_show_hist-Shows 5 some_calls ring (omega arith) (omega arith) (omega arith) (λ i lt. refl)
      λ i lt. refl

cpu_set_size-IsResized_example :
    ((cpu_set_size 32768 16384 true (λ i. i)).0 ≡ scpe_ok)
    × ((cpu_set_size 32768 16384 true (λ i. i)).1 ≡ 16384)
    × IsResized 16384 (λ i. i) (cpu_set_size 32768 16384 true (λ i. i)).2
cpu_set_size-IsResized_example = cpu_set_size-IsResized 32768 16384 (λ i. i) (inl refl)
