-- ===== src/Device/Panel.antt =====
-- Mitra/IO_front_panel.c: the front panel. Its state is in fields of CPU_STATE that the processor does
-- not read.
use mitra_15_for_simh.Prelude.{
  ℕ, ◌+◌, ◌*◌, ◌%◌, Bool, true, false, not, [], ◌∷◌, ◌==◌, if◌then◌else◌, switch, bit,
}
use mitra_15_for_simh.State.{reg_a, reg_e}
use mitra_15_for_simh.Run.{M, ◌>>=◌, ◌>>◌, get, pure, ◌≔◌}
use mitra_15_for_simh.Status.{Status, scpe_ok, scpe_ioerr, code}
use mitra_15_for_simh.Memory.{trap_ii}

pub record Panel : Type 0 where
  pub cpu_running : Bool
  pub interrupts_enabled : Bool
  pub routing_enabled : Bool
  pub panel_addr_lights : ℕ
  pub panel_data_lights : ℕ

abbrev pub D : Type 0 → Type 0
D A = Panel → M (A × Panel)

unfoldable pub panel_reset : Panel → Panel
panel_reset d = record {
  cpu_running = false;
  interrupts_enabled = false;
  routing_enabled = false;
  panel_addr_lights = 0;
  panel_data_lights = 0;
}

-- The switch on the low byte of E comes after the test of E as a whole.
unfoldable pub panel_rd : (e_reg : ℕ) → D Status
panel_rd e_reg d = if not (e_reg == 0x20) then pure (scpe_ioerr, d) else do
  s ← get
  status ←
      switch (e_reg % 256)
        ((0x00, (do reg_a ≔ d.panel_data_lights; pure scpe_ok))
          ∷ (0x10, (do reg_a ≔ 0; pure scpe_ok))
          ∷ (0x20, (do reg_a ≔ d.panel_addr_lights; pure scpe_ok))
          ∷ (
            0x40,
            (do
              reg_a ≔ bit s.ind.ma * 32768 + bit s.ind.ms * 16384 + bit s.ind.pr * 8192
              pure scpe_ok),
          )
          ∷ [])
        (pure (code trap_ii))
  pure (status, d)

unfoldable pub panel_wd : (e_reg a_val : ℕ) → Panel → Status × Panel
unfolding panel_reset
panel_wd e_reg a_val d =
    let stopped : Panel = record d {
      cpu_running = false;
      interrupts_enabled = false;
      routing_enabled = false;
    } in
    switch e_reg
      ((0, (scpe_ok, panel_reset d))
        ∷ (
          1,
          switch a_val
              ((0x060, (scpe_ok, stopped))
                ∷ (0x120, (scpe_ok, record d { cpu_running = false }))
                ∷ (0x220, (scpe_ok, record d { interrupts_enabled = true; routing_enabled = true }))
                ∷ [])
              (scpe_ioerr, d),
        )
        ∷ (0x10, (scpe_ok, record d { panel_data_lights = a_val }))
        ∷ (0x20, (scpe_ok, record d { panel_addr_lights = a_val }))
        ∷ [])
      (scpe_ioerr, d)

unfoldable pub panel_dio_handler : (inst : ℕ) (is_write : Bool) → D Status
unfolding panel_wd panel_rd
panel_dio_handler inst is_write d = do
  s ← get
  if is_write then pure (panel_wd (s.reg reg_e) (s.reg reg_a) d) else panel_rd (s.reg reg_e) d
