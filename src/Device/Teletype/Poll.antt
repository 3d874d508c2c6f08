-- ===== src/Device/Teletype/Poll.antt =====
-- One poll of the tape reader of Mitra/IO_asr33.c in a transfer.
use mitra_15_for_simh.Prelude.{
  ℕ, suc, ◌+◌, ◌-◌, ◌/◌, ◌*◌, ◌%◌, ◌≡◌, switch, ◌∙◌, refl, true, false, some, List, ◌∷◌, ◌==◌, u8,
  arith,
}
use mitra_15_for_simh.State.{CpuState, reg_num, set_reg, reg_work_mae, reg_cnt_mae}
use mitra_15_for_simh.Run.{done, ◌>>=◌, ◌>>◌, pure, get, ◌≔◌}
use mitra_15_for_simh.Run.Steps.{
  Returns, bind_as, bind_done, then_done, then_returns, assign_returns, pure_returns, returns_as,
}
use mitra_15_for_simh.Device.Request.{IsRequested, request_interrupt-IsRequested}
use mitra_15_for_simh.Status.{scpe_ok}
use mitra_15_for_simh.Memory.{word_index}
use mitra_15_for_simh.Memory.Laws.{is_refused, stored}
use mitra_15_for_simh.Memory.Bytes.{with_byte, write_byte_lem}
use mitra_15_for_simh.Device.Teletype.{
  Asr33, Key, asr_interrupt, noted_char, after_frame, stored_char, stops_on, finish, stopped,
  poll_tape, asr33_poll, asr_svc,
}

-- The state after one byte has been stored.
abbrev pub char_stored : (c : ℕ) → Asr33 → CpuState → CpuState
char_stored c d s =
    let t =
      stored (word_index d.mem_addr) (with_byte d.mem_addr (u8 c) (s.mem (word_index d.mem_addr)))
        s in
    set_reg reg_work_mae (t.reg reg_work_mae / 256 % 256 * 256 + u8 c) t

abbrev pub char_taken : (c : ℕ) → Asr33 → Asr33
char_taken c d = record d {
  last_char = u8 c;
  mem_addr = (d.mem_addr + 1) % 4294967296;
  bytes_left = d.bytes_left - 1;
}

noted_char-done :
    (c : ℕ) (d : Asr33) (s : CpuState)
    → noted_char c d s
      ≡ done
          (tt, char_taken c d)
          (set_reg reg_work_mae (s.reg reg_work_mae / 256 % 256 * 256 + u8 c) s)
unfolding noted_char ◌>>=◌ ◌>>◌ get ◌≔◌ pure
noted_char-done c d s = refl

stored_char-done :
    (c : ℕ) (d : Asr33) (s : CpuState)
    → is_refused d.mem_addr s ≡ false
    → stored_char c d s ≡ done (tt, char_taken c d) (char_stored c d s)
unfolding stored_char
stored_char-done c d s free =
    then_done _ (noted_char c d) (write_byte_lem d.mem_addr (u8 c) s free) ∙ noted_char-done c d _

-- The reader in the middle of a transfer that no comparison stops.
abbrev pub reading : (tape : List ℕ) (addr left : ℕ) → Asr33 → Asr33
reading tape addr left d = record d {
  image = some tape;
  active = true;
  mode = 2;
  stop_on_compare = false;
  mem_addr = addr;
  bytes_left = left;
}

nonzero : (n : ℕ) → (suc n == 0) ≡ false
nonzero n = ground arith

module _ (c : ℕ) (tape : List ℕ) (addr n : ℕ) (d : Asr33) (s : CpuState)
    (free : is_refused addr s ≡ false) where
  -- One poll in the middle of a transfer: the byte is stored, and the transfer may be over.
  svc_one :
      asr_svc Key.nothing_typed (reading (c ∷ tape) addr (suc n) d) s
      ≡ (finish (char_taken c (reading tape addr (suc n) d)) >>= λ r. pure (scpe_ok, r.1))
          (char_stored c (reading tape addr (suc n) d) s)
  unfolding asr_svc asr33_poll poll_tape after_frame stops_on switch
  svc_one = rw (nonzero n) (
      bind_as (stored_char c (reading tape addr (suc n) d) >>= λ r. after_frame c r.1)
        (finish (char_taken c (reading tape addr (suc n) d))) (λ r. pure (scpe_ok, r.1))
        (bind_done (stored_char c (reading tape addr (suc n) d)) (λ r. after_frame c r.1)
          (stored_char-done c (reading tape addr (suc n) d) s free)))

going_on :
    (c : ℕ) (tape : List ℕ) (addr n : ℕ) (d : Asr33) (t : CpuState)
    → finish (char_taken c (reading tape addr (suc (suc n)) d)) t
      ≡ done (1, char_taken c (reading tape addr (suc (suc n)) d)) t
unfolding finish pure
going_on c tape addr n d t = let e : (suc (suc n) - 1 == 0) ≡ false = ground arith in rw e refl

pub svc_next :
    (c : ℕ) (tape : List ℕ) (addr n : ℕ) (d : Asr33) (s : CpuState)
    → is_refused addr s ≡ false
    → asr_svc Key.nothing_typed (reading (c ∷ tape) addr (suc (suc n)) d) s
      ≡ done
          (scpe_ok, char_taken c (reading tape addr (suc (suc n)) d))
          (char_stored c (reading tape addr (suc (suc n)) d) s)
unfolding pure
svc_next c tape addr n d s free =
    svc_one c tape addr (suc n) d s free
    ∙ bind_done (finish (char_taken c (reading tape addr (suc (suc n)) d)))
        (λ r. pure (scpe_ok, r.1)) (going_on c tape addr n d _)

-- The end of a transfer: R9 is cleared, and the interrupt is requested.
pub record IsEnded (s t : CpuState) : Type 0 where
  pub memory : t.mem ≡ s.mem
  pub count : t.reg reg_cnt_mae ≡ 0
  pub pending : t.intrpt_pending 6 ≡ true

ended : (s t : CpuState) → IsRequested 6 (set_reg reg_cnt_mae 0 s) t → IsEnded s t
unfolding set_reg reg_num
ended s t h = record { memory = h.memory; count = h.count; pending = rw (h.pending) refl }

stopped-returns :
    (status : ℕ) (d : Asr33) (s : CpuState)
    → Returns
        ((reg_cnt_mae ≔ 0 >> stopped status d) s)
        (1, record d { active = false; status = status })
        (IsEnded s)
unfolding stopped asr_interrupt
stopped-returns status d s = assign_returns reg_cnt_mae 0 _ s (
    then_returns _ _ (request_interrupt-IsRequested 6 (set_reg reg_cnt_mae 0 s))
      λ t h. pure_returns t (ended s t h))

abbrev pub over : (c : ℕ) (tape : List ℕ) (addr : ℕ) → Asr33 → Asr33
over c tape addr d = record (char_taken c (reading tape addr 1 d)) { active = false; status = 3 }

finish-returns :
    (c : ℕ) (tape : List ℕ) (addr : ℕ) (d : Asr33) (s : CpuState)
    → Returns (finish (char_taken c (reading tape addr 1 d)) s) (1, over c tape addr d) (IsEnded s)
unfolding finish
finish-returns c tape addr d s = stopped-returns 3 (char_taken c (reading tape addr 1 d)) s

pub svc_last :
    (c : ℕ) (tape : List ℕ) (addr : ℕ) (d : Asr33) (s : CpuState)
    → is_refused addr s ≡ false
    → Returns
        (asr_svc Key.nothing_typed (reading (c ∷ tape) addr 1 d) s)
        (scpe_ok, over c tape addr d)
        (IsEnded (char_stored c (reading tape addr 1 d) s))
svc_last c tape addr d s free =
    let t = char_stored c (reading tape addr 1 d) s in
    let h = finish-returns c tape addr d t in
    returns_as
      (svc_one c tape addr 0 d s free
        ∙ bind_done (finish (char_taken c (reading tape addr 1 d))) (λ r. pure (scpe_ok, r.1))
            (h.returns))
      (pure_returns (h.final) (h.holds))
