-- ===== src/Control/VirtualSensor/Commands.antt =====
-- trikControl/src/abstractVirtualSensorWorker.cpp: what becomes of the commands of a sensor.
pub mod Connecting
pub mod Stopping
pub mod Requests
use trik_runtime.Prelude.{
  ℕ, ◌≡◌, refl, sym, ap, ◌∙◌, ◌⊎◌, inl, inr, Bool, true, false, Option, none, some, and_then, List,
  [], ◌∷◌, ◌++◌, map, if◌then◌else◌, Bool-cases, append-nil, append_assoc, arith, All,
}
use trik_runtime.Prelude.Int.{ℤ}
use trik_runtime.Text.{Bytes, Decimal, codes, contains}
use trik_runtime.Control.DeviceState.{
  Status, off, starting, ready, stopping, permanent_failure, temporary_failure, is_ready, fail,
  start, become_ready, stop, become_off,
}
use trik_runtime.Hal.Fifo.{TrikFifo, close_file}
use trik_runtime.Control.VirtualSensor.{
  VirtualSensorWorker, set_status, Action, runs_script, closes_input, opens_input, writes,
  emits_stopped, Answers, Step, new, after, init, sync, send_command, stop_worker,
  launch_sensor_script, open_fifos, start_virtual_sensor, connect_sensor, deinitialize, fail_state,
}
use trik_runtime.Control.VirtualSensor.SoundSensor.{
  Request, asks_init, asks_detect, asks_volume, asks_stop, video_out, detect_command,
  volume_command, volume, detect, init_sound, serve, serve_all,
}

-- What is written to the sensor.
abbrev pub written : List Action → List Bytes
written [] = []
written (writes b ∷ actions) = b ∷ written actions
written (runs_script b ∷ actions) = written actions
written (closes_input ∷ actions) = written actions
written (opens_input ∷ actions) = written actions
written (emits_stopped ∷ actions) = written actions

abbrev pub line : Bytes → Bytes
line command = command ++ codes "\n"

pub written-append : (a b : List Action) → written (a ++ b) ≡ written a ++ written b
written-append [] b = refl
written-append (writes c ∷ a) b = ap (λ l. c ∷ l) (written-append a b)
written-append (runs_script c ∷ a) b = written-append a b
written-append (closes_input ∷ a) b = written-append a b
written-append (opens_input ∷ a) b = written-append a b
written-append (emits_stopped ∷ a) b = written-append a b

pub written-map : (q : List Bytes) → written (map (λ c. writes (line c)) q) ≡ map line q
written-map [] = refl
written-map (c ∷ q) = ap (λ l. line c ∷ l) (written-map q)

pub map-append : (p q : List Bytes) → map line (p ++ q) ≡ map line p ++ map line q
map-append [] q = refl
map-append (c ∷ p) q = ap (λ l. line c ∷ l) (map-append p q)

-- The states that are left before the next call runs.
abbrev pub is_passing : Status → Bool
is_passing starting = true
is_passing stopping = true
is_passing temporary_failure = true
is_passing _ = false

-- Between two calls: a ready sensor has its FIFO and no command that waits.
pub record Settled (w : VirtualSensorWorker) : Type 0 where
  pub not_passing : is_passing w.status ≡ false
  pub fifo : is_ready w.status ≡ true → (f : TrikFifo) × (w.output_fifo ≡ some f)
  pub flushed : is_ready w.status ≡ true → w.command_queue ≡ []

-- No exception, and what is written, with what waits, is `asked`.
pub record Delivers (asked : List Bytes) (o : Option Step) : Type 0 where
  pub step : Step
  pub result : o ≡ some step
  pub settled_after : Settled step.0
  pub all_there : written step.1 ++ map line step.0.command_queue ≡ map line asked
