-- ===== src/Cpu/Stable/Slave.antt =====
-- The groups of opcodes that depend on the mode, and the dispatch, in slave mode.
use mitra_15_for_simh.Prelude.{
  ℕ, ◌/◌, ◌%◌, ◌≡◌, refl, inl, inr, Bool, Bool-cases, true, false, ◌&&◌, ◌||◌, ◌==◌,
}
use mitra_15_for_simh.State.{CpuState}
use mitra_15_for_simh.Run.Keeps.{
  Keeps, Keeps->>=, Keeps->>, Keeps-pure, Keeps-get, Keeps-switch_except,
}
use mitra_15_for_simh.Host.{Host}
use mitra_15_for_simh.Instr.System.{load_mem_protect, f4_master_inst}
use mitra_15_for_simh.Decode.{group_3_dl, group_3_px, group_3_p, dispatch}
use mitra_15_for_simh.Cpu.Stable.Groups.{
  dispatched, Keeps-add_x, Keeps-sub_x, Keeps-add_l, Keeps-sub_l,
}
use mitra_15_for_simh.Cpu.Stable.{IsStable, keeps, Keeps-read_word}
use mitra_15_for_simh.Cpu.Stable.Registers.{
  Keeps-case_instr_xdr, Keeps-shift_instr, Keeps-group_3_shift_dl, Keeps-group_3_shift_px,
  Keeps-group_3_shift_p,
}
use mitra_15_for_simh.Cpu.Stable.Memory.{Keeps-call_section, Keeps-test_and_set}

-- CSV, in its three addressing modes: opcodes 37, E7 and F7.
unfoldable pub is_csv : ℕ → Bool
is_csv inst =
    (inst / 4096 % 16 == 3 || inst / 4096 % 16 == 14 || inst / 4096 % 16 == 15)
    && inst / 256 % 16 == 7

top_nibble : (low top : Bool) → low ≡ true → (top && low) ≡ false → top ≡ false
top_nibble true false h e = refl
top_nibble true true h e = e
top_nibble false top h e = absurd (cc)

module _ {P : CpuState → Type 0} (stable : IsStable P)
    (slave : (s : CpuState) → P s → s.ind.ms ≡ false) where
  Keeps-ldp : (address : ℕ) → Keeps P (load_mem_protect false address)
  unfolding load_mem_protect
  Keeps-ldp address = search keeps

  ruleset on_operands = (
    Keeps->>=, Keeps->>, Keeps-pure, Keeps-add_x, Keeps-sub_x, Keeps-add_l, Keeps-sub_l, Keeps-ldp,
    Keeps-call_section, Keeps-case_instr_xdr, Keeps-shift_instr, Keeps-test_and_set,
  )

  Keeps-group_3_dl : (inst : ℕ) → (inst / 256 % 16 == 7) ≡ false → Keeps P (group_3_dl inst false)
  unfolding group_3_dl
  Keeps-group_3_dl inst no_csv = Keeps-get λ s p.
      Keeps-switch_except (λ k. k == 7) (inst / 256 % 16) _ no_csv
        (search (on_operands, Keeps-group_3_shift_dl, Keeps-read_word stable) depth 24)
        (Keeps-pure _)

  Keeps-group_3_px : (inst : ℕ) → (inst / 256 % 16 == 7) ≡ false → Keeps P (group_3_px inst false)
  unfolding group_3_px
  Keeps-group_3_px inst no_csv = Keeps-get λ s p.
      Keeps-switch_except (λ k. k == 7) (inst / 256 % 16) _ no_csv
        (search (on_operands, Keeps-group_3_shift_px) depth 24) (Keeps-pure _)

  module _ (host : Host) where
    Keeps-f4 : (inst : ℕ) → Keeps P (f4_master_inst host false inst)
    unfolding f4_master_inst
    Keeps-f4 inst = search keeps

    Keeps-group_3_p :
        (inst : ℕ) → (inst / 256 % 16 == 7) ≡ false → Keeps P (group_3_p host inst false)
    unfolding group_3_p
    Keeps-group_3_p inst no_csv =
        Keeps-switch_except (λ k. k == 7) (inst / 256 % 16) _ no_csv
          (search (on_operands, Keeps-group_3_shift_p, Keeps-f4) depth 24) (Keeps-pure _)

    pub Keeps-dispatch : (inst : ℕ) → is_csv inst ≡ false → Keeps P (dispatch host inst false)
    unfolding dispatch is_csv
    Keeps-dispatch inst no_csv = elim (Bool-cases (inst / 256 % 16 == 7)) [
      | inl seven ↦
          Keeps-switch_except (λ k. k == 3 || k == 14 || k == 15) (inst / 4096 % 16) _
            (top_nibble _ _ seven no_csv) (search (keeps, dispatched) depth 24) (Keeps-pure _)
      | inr other ↦
          search (keeps, dispatched, Keeps-group_3_dl, Keeps-group_3_px, Keeps-group_3_p, other)
            depth 24
    ]
