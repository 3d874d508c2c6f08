-- ===== src/Device/Table.antt =====
-- Mitra/mitra_io.c: the table of the handlers for direct input and output, and the dispatch of an
-- interrupt request. A device is the `ctxt` of its DEVICE: nothing, or a `dib_t`.
pub mod Wiring
pub mod Conflict
use mitra_15_for_simh.Prelude.{
  ℕ, ◌*◌, ◌<◌, ◌≡◌, ◌⊎◌, inl, inr, refl, Bool, Bool-cases, true, false, Option, none, some, List,
  [], ◌∷◌, ◌==◌, leb, arith, if◌then◌else◌, u16, ◌∙◌, sym, ==_refl, ==_iff,
}
use mitra_15_for_simh.State.{update, reg_8}
use mitra_15_for_simh.Run.{M, ◌>>=◌, get, pure, modify, ◌≔◌}
use mitra_15_for_simh.Status.{Status}
use mitra_15_for_simh.Memory.{read_byte, write_byte}
use mitra_15_for_simh.Deroute.Interrupt.{highest_below}
use mitra_15_for_simh.Instr.System.{dio_n_mod}

abbrev pub Handler : Type 0
Handler = (inst : ℕ) (is_write : Bool) → M Status

-- The mode that a device claims, and its handler, where it has one.
pub record Dib : Type 0 where
  pub dio : ℕ
  pub dio_disp : Option Handler

abbrev pub Table : Type 0
Table = ℕ → Option Handler

-- The loop over `sim_devices`: whether it failed, and the table.
unfoldable pub plug : List (Option Dib) → Table → Bool × Table
plug [] table = (false, table)
plug (none ∷ devices) table = plug devices table
plug (some dib ∷ devices) table = elim dib.dio_disp [
  | none ↦ plug devices table
  | some handler ↦ elim (leb dio_n_mod dib.dio) [
    | true ↦ (true, table)
    | false ↦ elim (table dib.dio) [
      | some _ ↦ (true, table)
      | none ↦ plug devices (update table dib.dio (some handler))
    ]
  ]
]

unfoldable pub io_init : List (Option Dib) → Bool × Table
unfolding plug
io_init devices = plug devices (λ _. none)

-- R8 holds the double of the highest level requested, where interrupts are not masked.
unfoldable pub io_interrupt_dispatch : (int_req : ℕ → Bool) (high_speed : Bool) → M (Unit {0})
unfolding highest_below modify
io_interrupt_dispatch int_req high_speed =
    if high_speed then modify (λ s. record s { high_speed = true }) else do
      s ← get
      if s.ind.ma
          then pure tt
          else elim (highest_below 32 int_req) [ none ↦ pure tt | some level ↦ reg_8 ≔ 2 * level ]

unfoldable pub write_byte_io : (addr val : ℕ) → M (Unit {0})
write_byte_io addr val = write_byte (u16 addr) val

unfoldable pub read_byte_io : (addr : ℕ) → M ℕ
read_byte_io addr = read_byte (u16 addr)
