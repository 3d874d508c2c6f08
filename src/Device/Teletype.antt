-- ===== src/Device/Teletype.antt =====
-- Mitra/IO_asr33.c: the teletype with its tape reader. The state of the device is passed along with
-- that of the processor; what comes from outside at a poll (the key typed) is an argument. The
-- scheduling of the unit by SIMH, and the copy of what is printed in the attached file, are left out.
pub mod Poll
pub mod Transfer
use mitra_15_for_simh.Prelude.{
  ℕ, zero, suc, ◌+◌, ◌-◌, ◌*◌, ◌/◌, ◌%◌, Bool, true, false, not, ◌&&◌, Option, none, some, List, [],
  ◌∷◌, ◌==◌, if◌then◌else◌, switch, bit, u8, bit_or,
}
use mitra_15_for_simh.State.{reg_a, reg_e, reg_cnt_mae, reg_curr_mae, reg_work_mae}
use mitra_15_for_simh.Run.{M, ◌>>=◌, ◌>>◌, get, pure, ◌≔◌}
use mitra_15_for_simh.Status.{
  Status, scpe_ok, scpe_ioerr, scpe_ierr, scpe_nxdev, scpe_unatt, scpe_fmt,
}
use mitra_15_for_simh.Memory.{read_byte, write_byte}
use mitra_15_for_simh.Deroute.Interrupt.{get_boot_entry_addr}
use mitra_15_for_simh.Device.Table.{Dib}
use mitra_15_for_simh.Device.Request.{request_interrupt}
use mitra_15_for_simh.Console.{cpu_reset}

-- ASR33_DEV. `image` is the part of the attached tape that is still to be read, `printed` what
-- `sim_putchar` has been given, the last character first.
pub record Asr33 : Type 0 where
  pub image : Option (List ℕ)
  pub active : Bool
  pub mode : ℕ
  pub stop_on_compare : Bool
  pub compare_char : ℕ
  pub mem_addr : ℕ
  pub bytes_left : ℕ
  pub last_char : ℕ
  pub status : ℕ
  pub printed : List ℕ

-- What `sim_poll_kbd` returns: nothing yet, Ctrl-E, -1, a character, or another code.
pub data Key : Type 0 where
  nothing_typed sim_stop end_of_file : Key
  typed : ℕ → Key
  other : Key

abbrev pub D : Type 0 → Type 0
D A = Asr33 → M (A × Asr33)

-- ASR33_INT_LEVEL.
unfoldable pub asr_interrupt : M (Unit {0})
asr_interrupt = request_interrupt 6

unfoldable pub asr33_attach : List ℕ → Asr33 → Asr33
asr33_attach tape d = record d {
  image = some tape;
  active = false;
  mode = 0;
  last_char = 0;
  status = 0;
  bytes_left = 0;
  mem_addr = 0;
}

unfoldable pub asr33_detach : Asr33 → Asr33
asr33_detach d = record d { active = false; image = none }

unfoldable pub asr33_reset : Asr33 → Asr33
asr33_reset d = record d {
  active = false;
  mode = 0;
  status = 0;
  last_char = 0;
  bytes_left = 0;
  mem_addr = 0;
}

-- A transfer of the count in R9, and of one byte more, from the address in R10, and one more.
unfoldable pub started : (mode status r9 r10 : ℕ) → Asr33 → Asr33
started mode status r9 r10 d = record d {
  mode = mode;
  active = true;
  mem_addr = r10 + 1;
  bytes_left = r9 % 32768 + 1;
  status = status;
}

unfoldable pub asr33_command : (cmd r9 r10 : ℕ) → Asr33 → Status × Asr33
unfolding started
asr33_command cmd r9 r10 d =
    let idle : Status × Asr33 = (scpe_ok, record d { active = false; mode = 0; status = 0 }) in
    let ignored : Status × Asr33 = (scpe_ok, record d { active = false; status = 0 }) in
    switch cmd
      ((0x00, idle)
        ∷ (0x04, idle)
        ∷ (0x02, (scpe_ok, started 3 2 r9 r10 d))
        ∷ (0x01, (scpe_ok, started 1 3 r9 r10 d))
        ∷ (0x03, (scpe_ok, started 2 3 r9 r10 d))
        ∷ (0x08, ignored)
        ∷ (0x09, ignored)
        ∷ (0x0a, ignored)
        ∷ [])
      (scpe_ioerr, d)

unfoldable pub asr33_wd : (e_reg a_val : ℕ) → D Status
unfolding asr33_command
asr33_wd e_reg a_val d = if not (e_reg == 1) then pure (scpe_ioerr, d) else do
  s ← get
  let r9 = s.reg reg_cnt_mae
  pure (
      asr33_command (a_val % 256) r9 (s.reg reg_curr_mae) (record d {
        stop_on_compare = r9 / 32768 % 2 == 1;
        compare_char = s.reg reg_work_mae / 256 % 256;
      }))

-- The word that RD puts in A: the state in the top three bits, or-ed with the character at bit 7.
unfoldable pub state_word : Asr33 → ℕ
state_word d = bit_or (d.status % 8 * 8192) (d.last_char % 256 * 128)

unfoldable pub asr33_rd : (e_reg : ℕ) → D Status
unfolding state_word
asr33_rd e_reg d =
    if not (e_reg == 0x10)
    then pure (scpe_ioerr, d)
    else do reg_a ≔ state_word d; pure (scpe_ok, record d { status = 0 })

unfoldable pub asr_dio_handler : (inst : ℕ) (is_write : Bool) → D Status
asr_dio_handler inst is_write d = do
  s ← get
  if is_write then asr33_wd (s.reg reg_e) (s.reg reg_a) d else asr33_rd (s.reg reg_e) d

-- The transfer stops with a status, the interrupt is requested, and the poll returns 1.
unfoldable pub stopped : (status : ℕ) → D ℕ
stopped status d = do asr_interrupt; pure (1, record d { active = false; status = status })

-- A byte goes to memory and to the low half of R11.
unfoldable pub noted_char : (c : ℕ) → D (Unit {0})
noted_char c d = do
  s ← get
  reg_work_mae ≔ s.reg reg_work_mae / 256 % 256 * 256 + u8 c
  pure (
    tt,
    record d {
      last_char = u8 c;
      mem_addr = (d.mem_addr + 1) % 4294967296;
      bytes_left = d.bytes_left - 1;
    },
  )

unfoldable pub stored_char : (c : ℕ) → D (Unit {0})
unfolding noted_char
stored_char c d = do write_byte d.mem_addr (u8 c); noted_char c d

unfoldable pub stops_on : (c : ℕ) → Asr33 → Bool
stops_on c d = d.stop_on_compare && u8 c == u8 d.compare_char

-- `(bytes_left & 0x7FFF) | (stop_on_compare << 15)`.
unfoldable pub unread : Asr33 → ℕ
unread d = d.bytes_left % 32768 + bit d.stop_on_compare * 32768

-- What a poll ends with: the transfer is over where no byte is left.
unfoldable pub finish : D ℕ
unfolding stopped
finish d =
    if d.bytes_left == 0
    then (do reg_cnt_mae ≔ 0; stopped (if d.mode == 3 then 2 else 3) d)
    else pure (1, d)

-- Where the comparison stops a transfer from the keyboard, the count goes to R9.
unfoldable pub after_typed : (c : ℕ) → D ℕ
after_typed c d = if stops_on c d then (do reg_cnt_mae ≔ unread d; stopped 3 d) else finish d

-- Where it stops one from the tape, the count goes to R11.
unfoldable pub after_frame : (c : ℕ) → D ℕ
after_frame c d = if stops_on c d then (do reg_work_mae ≔ unread d; stopped 3 d) else finish d

unfoldable pub poll_keyboard : Key → D ℕ
poll_keyboard nothing_typed d = pure (0, d)
poll_keyboard sim_stop d = pure (0, record d { active = false })
poll_keyboard end_of_file d = stopped 7 d
poll_keyboard (typed c) d = do r ← stored_char c d; after_typed c r.1
poll_keyboard other d = finish d

-- With no tape, or at its end, R9 is cleared.
unfoldable pub poll_tape : D ℕ
poll_tape d = elim d.image [
  | none ↦ (do reg_cnt_mae ≔ 0; stopped 7 d)
  | some tape ↦ elim tape [
    | [] ↦ (do reg_cnt_mae ≔ 0; stopped 7 d)
    | c ∷ rest ↦ (do r ← stored_char c (record d { image = some rest }); after_frame c r.1)
  ]
]

unfoldable pub poll_printer : D ℕ
poll_printer d = do
  ch ← read_byte d.mem_addr
  finish (record d {
    last_char = ch;
    mem_addr = (d.mem_addr + 1) % 4294967296;
    bytes_left = d.bytes_left - 1;
    printed = ch ∷ d.printed;
  })

unfoldable pub asr33_poll : Key → D ℕ
asr33_poll key d =
    if not d.active
    then pure (0, d)
    else if d.bytes_left == 0
    then finish d
    else switch d.mode ((1, poll_keyboard key d) ∷ (2, poll_tape d) ∷ (3, poll_printer d) ∷ [])
        (finish d)

unfoldable pub asr_svc : Key → D Status
asr_svc key d =
    if not d.active then pure (scpe_ok, d) else do r ← asr33_poll key d; pure (scpe_ok, r.1)

-- The leader: the frames of zero at the start of the tape.
unfoldable pub skip_leader : List ℕ → List ℕ
skip_leader [] = []
skip_leader (c ∷ tape) = if c == 0 then skip_leader tape else c ∷ tape

-- The loop that loads the rest, with the bytes that may still be loaded (ASR33_BOOT_MAX_BYTES less the
-- first); it returns what is unread.
unfoldable pub load_loop : (left addr : ℕ) → List ℕ → M (List ℕ)
load_loop zero addr tape = pure tape
load_loop (suc left) addr [] = pure []
load_loop (suc left) addr (c ∷ tape) =
    let rest = load_loop left (addr + 1) tape in do write_byte addr (u8 c); rest

-- `attached` is UNIT_ATT, `file` the whole of the attached file, `rewound` whether `fseek` succeeds.
-- The front panel's `cpu_running` is set at the end.
unfoldable pub asr33_boot :
    (devices : List (Option Dib)) (unit_num : ℕ) (attached : Bool) (file : Option (List ℕ))
    (rewound : Bool)
    → D Status
unfolding skip_leader load_loop
asr33_boot devices unit_num attached file rewound d =
    if not (unit_num == 0)
    then pure (scpe_nxdev, d)
    else if not attached
    then pure (scpe_unatt, d)
    else elim file [
      | none ↦ pure (scpe_ierr, d)
      | some tape ↦
          if not rewound
          then pure (scpe_ioerr, record d { image = some tape })
          else elim (skip_leader tape) [
            | [] ↦ pure (scpe_fmt, record d { image = some [] })
            | c ∷ rest ↦ (do
              write_byte 0 (u8 c)
              unread_tape ← load_loop 4095 1 rest
              cpu_reset devices
              asr_interrupt
              get_boot_entry_addr
              pure (scpe_ok, asr33_reset (record d { image = some unread_tape })))
          ]
    ]
