-- ===== src/Status.antt =====
-- What the functions of the simulator return: `t_stat` codes of SIMH, the conditional error codes
-- and trap numbers of Mitra/mitra_defs.h and Mitra/mitra_cpu.h, by name.
use mitra_15_for_simh.Prelude.{ℕ, Bool, true, false, not, ◌==◌}

pub data Status : Type 0 where
  scpe_ok scpe_arg scpe_stop : Status
  scpe_nxm scpe_rel scpe_ioerr scpe_ierr scpe_nxdev scpe_unatt scpe_fmt scpe_nofnc scpe_mem : Status
  stop_illvec : Status
  mm_prvins mm_invins : Status
  code : ℕ → Status

-- `status != SCPE_OK`.
unfoldable pub is_error : Status → Bool
is_error scpe_ok = false
is_error (code n) = not (n == 0)
is_error _ = true
