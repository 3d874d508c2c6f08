-- ===== src/Cpu/Invariant/Sound/Kept.antt =====
-- The widths and the bounds of the state, collected for rounds of the processor.
use mitra_15_for_simh.Prelude.{false}
use mitra_15_for_simh.Cpu.Invariant.{IsInvariant}
use mitra_15_for_simh.Cpu.Invariant.Sound.{
  IsSound, assign-IsSound, codes-IsSound, ind-IsSound, mask-IsSound, cause-IsSound, clear-IsSound,
  j_reg-IsSound, lock-IsSound, request-IsSound, write-IsSound, acknowledge-IsSound, level-IsSound,
  block-IsSound, settle-IsSound,
}
use mitra_15_for_simh.Cpu.Invariant.Sound.Suspension.{suspend-IsSound}

pub IsSound-IsInvariant : IsInvariant IsSound
IsSound-IsInvariant = record {
  stable = record {
    assign = assign-IsSound;
    codes = codes-IsSound;
    write = write-IsSound;
    request = request-IsSound;
    mask = mask-IsSound;
    unlock = λ index. lock-IsSound index false;
  };
  words = λ s h. h.words;
  indicators = ind-IsSound;
  lock = lock-IsSound;
  acknowledge = acknowledge-IsSound;
  level = level-IsSound;
  clear = clear-IsSound;
  j_reg = j_reg-IsSound;
  block = block-IsSound;
  cause = cause-IsSound;
  suspend = suspend-IsSound;
  settle = settle-IsSound;
}
