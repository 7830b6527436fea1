-- ===== src/Control/I2cDevice/Tests.antt =====
-- Devices that keep what is written to their registers.
use trik_runtime.Prelude.{
  ℕ, ◌+◌, ◌*◌, ◌^◌, refl, none, some, List, [], ◌∷◌, arith, if◌then◌else◌, ◌==◌,
}
use trik_runtime.Prelude.Int.{ℤ, pos, negsuc}
use trik_runtime.Text.{Bytes}
use trik_runtime.Hal.I2c.{I2cBus, I2cMsg}
use trik_runtime.Hal.I2c.Smbus.{TrikI2c}
use trik_runtime.Control.I2cDevice.Registers.{Stores}

abbrev Memory : Type 0
Memory = ℕ → ℕ × ℕ

store : Bytes → Memory → Memory
store (high ∷ low ∷ a ∷ b ∷ []) w r = if r == high * 2 ^ 8 + low then (a, b) else w r
store _ w r = w r

fetch : Bytes → Memory → Bytes
fetch (high ∷ low ∷ []) w = (w (high * 2 ^ 8 + low)).0 ∷ (w (high * 2 ^ 8 + low)).1 ∷ []
fetch _ w = []

access : List I2cMsg → Memory → ℤ × List Bytes × Memory
access (m ∷ []) w = (pos 1, m.buf ∷ [], store m.buf w)
access (m ∷ n ∷ []) w = (pos 2, m.buf ∷ fetch m.buf w ∷ [], w)
access _ w = (negsuc 21, [], w)

abbrev memory_bus : I2cBus
memory_bus = record {
  World = Memory;
  open_file = λ path w. (pos 4, w);
  set_slave = λ id w. (pos 0, w);
  rdwr = access;
  read_byte = λ c w. (some ((w c).0), w);
  read_word = λ c w. (some ((w c).0), w);
  read_block = λ c n w. (none, w);
  write_byte = λ c v w. (pos 0, λ r. if r == c then (v, 0) else w r);
  write_word = λ c v w. (pos 0, λ r. if r == c then (v, 0) else w r);
  close = λ w. w;
}

abbrev nothing_stored : Memory
nothing_stored r = (0, 0)

memory-Stores : Stores memory_bus 9
unfolding access store fetch
memory-Stores = record { bytes_stored = λ high low a b w. (refl, ground arith) }

abbrev start : TrikI2c Memory
start = record { device_file_descriptor = pos 4; world = nothing_stored }
