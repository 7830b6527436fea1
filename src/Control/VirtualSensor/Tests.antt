-- ===== src/Control/VirtualSensor/Tests.antt =====
-- trikControl/src/soundSensorWorker.cpp: tests.
use trik_runtime.Prelude.{◌≡◌, refl, true, false, none, some, and_then, List, [], ◌∷◌, ◌++◌, map}
use trik_runtime.Prelude.Int.{pos}
use trik_runtime.Text.{codes}
use trik_runtime.Text.Decimals.{decimal, to_int}
use trik_runtime.Control.DeviceState.{
  off, ready, permanent_failure, is_ready, start, stop, become_ready, become_off,
}
use trik_runtime.Hal.Fifo.{open_file, close_file}
use trik_runtime.Control.VirtualSensor.{
  VirtualSensorWorker, Answers, Step, new, init, stop_worker, send_command, sync, connect_sensor,
  open_fifos,
}
use trik_runtime.Control.VirtualSensor.SoundSensor.{
  Request, asks_init, asks_detect, asks_volume, asks_stop, serve, serve_all, on_new_data,
  init_sound, volume, detect,
}
use trik_runtime.Control.VirtualSensor.Commands.{written, line}
use trik_runtime.Control.VirtualSensor.Commands.Requests.{commands_of, serve_all-new}
use trik_runtime.Control.VirtualSensor.Repeats.{init_twice}

abbrev works : Answers
works = record {
  files_exist = true;
  files_exist_then = true;
  script_starts = true;
  script_output = [];
  output_opens = true;
  input_opens = true;
  output_closes = true;
}

abbrev requests : List Request
requests =
    asks_detect ∷ asks_init true works ∷ asks_volume (pos 5) ∷ asks_stop works ∷ asks_detect ∷ []

serve_all-new_example :
    (t : Step) × (serve_all decimal requests (new off) ≡ some t)
    × (written t.1 ++ map line t.0.command_queue ≡ map line (commands_of decimal requests))
    × (is_ready t.0.status ≡ true → t.0.command_queue ≡ [])
serve_all-new_example = serve_all-new decimal requests (refl, (refl, (refl, (refl, (refl, _)))))

-- The last command waits.
waits :
    and_then (serve_all decimal requests (new off)) (λ t. some t.0.command_queue)
    ≡ some (codes "detect" ∷ [])
unfolding serve_all serve new init_sound init volume detect send_command sync connect_sensor
    open_fifos stop_worker start stop become_ready become_off close_file open_file
waits = refl

abbrev opened : VirtualSensorWorker
opened = record {
  status = ready;
  output_fifo = some (record { is_open = true; buffer = [] });
  is_connected = true;
  command_queue = [];
}

init_twice_example :
    (t : VirtualSensorWorker) × (init works opened ≡ some (t, []))
    × (t.status ≡ ready)
    × (t.is_connected ≡ false)
    × (and_then (stop_worker works t) (λ s. some s.0.status) ≡ some permanent_failure)
init_twice_example = init_twice works works opened refl refl

reads : on_new_data decimal (codes "sound: 3 4 5") [] ≡ some (pos 3 ∷ pos 4 ∷ pos 5 ∷ [])
unfolding on_new_data to_int
reads = refl

-- A line that is cut short reads an index out of range.
short_line : on_new_data decimal (codes "sound: 3") [] ≡ none
unfolding on_new_data
short_line = refl
