-- ===== src/Device/Request.antt =====
-- A request of a device for an interrupt, as `asr_interrupt` of Mitra/IO_asr33.c makes it.
use mitra_15_for_simh.Prelude.{
  ℕ, ◌*◌, ◌≡◌, refl, Bool, true, false, Option, none, some, if◌then◌else◌,
}
use mitra_15_for_simh.State.{CpuState, reg_num, set_reg, reg_cnt_mae, reg_8, update}
use mitra_15_for_simh.Run.{M, done, ◌>>=◌, ◌>>◌, get, pure, ◌≔◌, modify}
use mitra_15_for_simh.Run.Steps.{
  Returns, get_returns, pure_returns, assign_last, then_done, returns_as, weaken_returns,
}
use mitra_15_for_simh.Deroute.Interrupt.{highest_below}
use mitra_15_for_simh.Device.Table.{io_interrupt_dispatch}

unfoldable pub set_pending : ℕ → M (Unit {0})
unfolding modify
set_pending level = modify λ s. record s { intrpt_pending = update s.intrpt_pending level true }

unfoldable pub request_interrupt : ℕ → M (Unit {0})
unfolding set_pending
request_interrupt level = do
  set_pending level
  s ← get
  io_interrupt_dispatch s.intrpt_pending false

-- What a request of an interrupt leaves alone, and the request.
pub record IsRequested (level : ℕ) (s t : CpuState) : Type 0 where
  pub memory : t.mem ≡ s.mem
  pub count : t.reg reg_cnt_mae ≡ s.reg reg_cnt_mae
  pub pending : t.intrpt_pending ≡ update s.intrpt_pending level true

record IsQuiet (s t : CpuState) : Type 0 where
  memory : t.mem ≡ s.mem
  count : t.reg reg_cnt_mae ≡ s.reg reg_cnt_mae
  pending : t.intrpt_pending ≡ s.intrpt_pending

quiet : (s : CpuState) → IsQuiet s s
quiet s = record { memory = refl; count = refl; pending = refl }

found-IsQuiet :
    (o : Option ℕ) (s : CpuState)
    → Returns
        ((elim o as (λ _. M (Unit {0})) [ none ↦ pure tt | some level ↦ reg_8 ≔ 2 * level ]) s)
        tt
        (IsQuiet s)
unfolding set_reg reg_num
found-IsQuiet none s = pure_returns s (quiet s)
found-IsQuiet (some level) s =
    assign_last reg_8 (2 * level) s (record { memory = refl; count = refl; pending = refl })

unmasked-IsQuiet :
    (masked : Bool) (o : Option ℕ) (s : CpuState)
    → Returns
        ((if masked
            then pure tt
            else elim o as (λ _. M (Unit {0})) [ none ↦ pure tt | some level ↦ reg_8 ≔ 2 * level ])
          s)
        tt
        (IsQuiet s)
unmasked-IsQuiet true o s = pure_returns s (quiet s)
unmasked-IsQuiet false o s = found-IsQuiet o s

dispatch-IsQuiet :
    (bits : ℕ → Bool) (s : CpuState) → Returns (io_interrupt_dispatch bits false s) tt (IsQuiet s)
unfolding io_interrupt_dispatch
dispatch-IsQuiet bits s = get_returns _ s (unmasked-IsQuiet s.ind.ma (highest_below 32 bits) s)

abbrev pended : ℕ → CpuState → CpuState
pended level s = record s { intrpt_pending = update s.intrpt_pending level true }

set_pending-done : (level : ℕ) (s : CpuState) → set_pending level s ≡ done tt (pended level s)
unfolding set_pending modify
set_pending-done level s = refl

pub request_interrupt-IsRequested :
    (level : ℕ) (s : CpuState) → Returns (request_interrupt level s) tt (IsRequested level s)
unfolding request_interrupt
request_interrupt-IsRequested level s =
    returns_as (then_done (set_pending level) _ (set_pending-done level s)) (
      get_returns _ (pended level s) (
        weaken_returns (dispatch-IsQuiet (pended level s).intrpt_pending (pended level s))
          λ t h. record { memory = h.memory; count = h.count; pending = h.pending }))
