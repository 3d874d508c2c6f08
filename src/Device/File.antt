-- ===== src/Device/File.antt =====
-- Files that the devices read and write: C streams, opened for reading and writing, whose position
-- can be set. Reading and writing them does not fail but at their end.
use mitra_15_for_simh.Prelude.{ℕ, ◌+◌, ◌-◌, Bool, true, false, ◌&&◌, leb, ltb, if◌then◌else◌}

pub record File : Type 0 where
  pub byte : ℕ → ℕ
  pub size : ℕ
  pub pos : ℕ

unfoldable pub fseek : ℕ → File → File
fseek offset f = record f { pos = offset }

-- Whether `fread` returns all the bytes that it is asked for, and the file after it; the bytes are
-- those from the position on.
unfoldable pub fread : ℕ → File → Bool × File
fread n f =
    if leb (f.pos + n) f.size
    then (true, record f { pos = f.pos + n })
    else (false, record f { pos = if leb f.size f.pos then f.pos else f.size })

unfoldable pub fwrite : (bytes : ℕ → ℕ) (n : ℕ) → File → File
fwrite bytes n f = record f {
  byte = λ i. if leb f.pos i && ltb i (f.pos + n) then bytes (i - f.pos) else f.byte i;
  size = if leb (f.pos + n) f.size then f.size else f.pos + n;
  pos = f.pos + n;
}
