-- ===== src/Control/VirtualSensor.antt =====
-- trikControl/src/abstractVirtualSensorWorker.cpp: a sensor that is a process of its own, which
-- takes commands from one FIFO and writes its readings to another. `none` is an exception of the
-- device state.
pub mod SoundSensor
pub mod Commands
pub mod Repeats
mod Tests
use trik_runtime.Prelude.{
  ℕ, ◌≡◌, Bool, true, false, Option, none, some, and_then, List, [], ◌∷◌, ◌++◌, map, if◌then◌else◌,
  ◌&&◌,
}
use trik_runtime.Text.{Bytes, contains, codes}
use trik_runtime.Control.DeviceState.{
  Status, Outcome, done, thrown, is_ready, is_starting, settled, fail, start, become_ready, stop,
  become_off,
}
use trik_runtime.Hal.Fifo.{TrikFifo, open_file, close_file}

pub record VirtualSensorWorker : Type 0 where
  pub status : Status  -- mState
  pub output_fifo : Option TrikFifo
  pub is_connected : Bool  -- whether a new line of the output FIFO is a call of the worker
  pub command_queue : List Bytes

pub data Action : Type 0 where
  runs_script : Bytes → Action
  closes_input : Action
  opens_input : Action
  writes : Bytes → Action
  emits_stopped : Action

-- What the system answers while an operation runs.
pub record Answers : Type 0 where
  pub files_exist : Bool  -- the first time that init asks for both files
  pub files_exist_then : Bool  -- the second time
  pub script_starts : Bool
  pub script_output : Bytes
  pub output_opens : Bool
  pub input_opens : Bool
  pub output_closes : Bool

abbrev pub Step : Type 0
Step = VirtualSensorWorker × List Action

unfoldable pub new : Status → VirtualSensorWorker
new s = record { status = s; output_fifo = none; is_connected = false; command_queue = [] }

-- A failure of the device state, which throws nothing.
abbrev pub fail_state : VirtualSensorWorker → VirtualSensorWorker
fail_state w = record w { status = settled w.status (fail w.status) }

abbrev pub set_status : VirtualSensorWorker → Outcome → Option VirtualSensorWorker
set_status w (done t) = some (record w { status = t })
set_status w thrown = none

-- Actions that come before a step.
abbrev pub after : List Action → Step → Step
after actions s = (s.0, actions ++ s.1)

abbrev pub write_command : Bytes → Action
write_command command = writes (command ++ codes "\n")

unfoldable pub sync : VirtualSensorWorker → Step
sync w =
    if is_ready w.status
    then (record w { command_queue = [] }, map write_command w.command_queue)
    else (w, [])

unfoldable pub send_command : Bytes → VirtualSensorWorker → Step
unfolding sync
send_command command w = sync (record w { command_queue = w.command_queue ++ command ∷ [] })

-- launchSensorScript, whose action is the start of the script with the command.
unfoldable pub launch_sensor_script : Answers → VirtualSensorWorker → Bool × VirtualSensorWorker
launch_sensor_script a w =
    if a.script_starts
    then (if contains a.script_output (codes "error") then (false, fail_state w) else (true, w))
    else (false, fail_state w)

abbrev pub open_output : Bool → VirtualSensorWorker → VirtualSensorWorker
open_output opens w = record w {
  output_fifo = elim w.output_fifo [ none ↦ none | some f ↦ some (open_file opens false f).1 ];
  is_connected = true;
}

unfoldable pub open_fifos : Answers → VirtualSensorWorker → Step
unfolding sync
open_fifos a w =
    let v = open_output a.output_opens w in
    if a.output_opens
    then (if a.input_opens
        then after (closes_input ∷ opens_input ∷ []) (sync v)
        else (fail_state v, closes_input ∷ opens_input ∷ []))
    else (fail_state v, closes_input ∷ [])

unfoldable pub start_virtual_sensor : Answers → VirtualSensorWorker → Step
unfolding launch_sensor_script open_fifos
start_virtual_sensor a w =
    let l = launch_sensor_script a w in
    after (runs_script (codes "start") ∷ []) (if l.0 then open_fifos a l.1 else (l.1, []))

-- The tail of init: the fifos of a sensor that is starting.
unfoldable pub connect_sensor : Answers → VirtualSensorWorker → Step
unfolding start_virtual_sensor open_fifos
connect_sensor a w = if a.files_exist_then then open_fifos a w else start_virtual_sensor a w

-- AbstractVirtualSensorWorker::init: a FIFO object that is new comes first.
unfoldable pub init : Answers → VirtualSensorWorker → Option Step
unfolding connect_sensor
init a w =
    let v = record w {
      output_fifo = some (record { is_open = false; buffer = [] });
      is_connected = false;
    } in
    if is_ready v.status && a.files_exist
    then some (v, [])
    else if is_starting v.status
    then some (v, [])
    else and_then (set_status v (start v.status)) (λ u.
      let c = connect_sensor a u in
      and_then (set_status c.0 (become_ready c.0.status)) (λ t. some (t, c.1)))

-- mOutputFifo->close(); `none` is a call through a null pointer.
abbrev pub close_output : Bool → VirtualSensorWorker → Option (Bool × VirtualSensorWorker)
close_output closed w = elim w.output_fifo [
  | none ↦ none
  | some f ↦ (let c = close_file closed f in some (c.0, record w { output_fifo = some c.1 }))
]

unfoldable pub deinitialize : Answers → VirtualSensorWorker → Option Step
unfolding launch_sensor_script
deinitialize a w = and_then (close_output a.output_closes w) (λ c.
    let u = if c.0 then c.1 else fail_state c.1 in
    let l = launch_sensor_script a u in
    let t = if l.0 then l.1 else fail_state l.1 in
    and_then (set_status t (become_off t.status))
      (λ r. some (r, closes_input ∷ runs_script (codes "stop") ∷ emits_stopped ∷ [])))

-- AbstractVirtualSensorWorker::stop, which the destructor calls too.
unfoldable pub stop_worker : Answers → VirtualSensorWorker → Option Step
unfolding deinitialize
stop_worker a w =
    if is_ready w.status
    then and_then (set_status w (stop w.status)) (λ u. deinitialize a u)
    else some (w, [])
