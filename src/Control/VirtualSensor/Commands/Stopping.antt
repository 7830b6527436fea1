-- ===== src/Control/VirtualSensor/Commands/Stopping.antt =====
-- trikControl/src/abstractVirtualSensorWorker.cpp: a sensor stops.
use trik_runtime.Prelude.{
  ◌≡◌, refl, ◌⊎◌, inl, inr, Bool, false, Option, some, and_then, List, [], ◌∷◌, if◌then◌else◌,
  Bool-cases,
}
use trik_runtime.Text.{codes}
use trik_runtime.Control.DeviceState.{
  Status, off, starting, ready, stopping, permanent_failure, temporary_failure, is_ready, fail,
  stop, become_off,
}
use trik_runtime.Hal.Fifo.{close_file}
use trik_runtime.Control.VirtualSensor.{
  VirtualSensorWorker, set_status, Action, runs_script, closes_input, emits_stopped, Answers, Step,
  stop_worker, launch_sensor_script, deinitialize, fail_state,
}
use trik_runtime.Control.VirtualSensor.Commands.{is_passing, Settled, Delivers}
use trik_runtime.Control.VirtualSensor.Commands.Connecting.{launched}

-- A sensor that is not ready, between two calls.
resting :
    (w : VirtualSensorWorker) (status : Status)
    → is_passing status ≡ false
    → is_ready status ≡ false
    → Settled (record w { status = status })
resting w status p r = record { not_passing = p; fifo = λ h. cc; flushed = λ h. cc }

-- The end of deinitialize, after the FIFO has been closed.
abbrev stopped_actions : List Action
stopped_actions = closes_input ∷ runs_script (codes "stop") ∷ emits_stopped ∷ []

abbrev turns_off : Bool × VirtualSensorWorker → Option Step
unfolding become_off fail
turns_off l =
    let t = if l.0 then l.1 else fail_state l.1 in
    and_then (set_status t (become_off t.status)) (λ r. some (r, stopped_actions))

turned_off :
    (w : VirtualSensorWorker) (status : Status)
    → is_passing status ≡ false
    → is_ready status ≡ false
    → Delivers w.command_queue (some (record w { status = status }, stopped_actions))
turned_off w status p r = record {
  step = (record w { status = status }, stopped_actions);
  result = refl;
  settled_after = resting w status p r;
  all_there = refl;
}

turns_off-Delivers :
    (a : Answers) (w : VirtualSensorWorker)
    → (w.status ≡ stopping) ⊎ (w.status ≡ permanent_failure)
    → Delivers w.command_queue (turns_off (launch_sensor_script a w))
unfolding become_off fail
turns_off-Delivers a w g = elim (launched a w) [
  | inl l ↦ rw l (elim g [
    | inl s ↦ rw s (turned_off w off refl refl)
    | inr s ↦ rw s (turned_off w permanent_failure refl refl)
  ])
  | inr l ↦ rw l (turned_off w permanent_failure refl refl)
]

pub stop_worker-Delivers :
    (a : Answers) (w : VirtualSensorWorker) (status : Status)
    → Settled (record w { status = status })
    → Delivers w.command_queue (stop_worker a (record w { status = status }))
unfolding stop_worker stop deinitialize fail become_off turns_off
stop_worker-Delivers a w ready k =
    let f = (k.fifo refl).0 in
    let c = close_file a.output_closes f in
    rw (k.fifo refl).1 (elim (Bool-cases c.0) [
      | inl h ↦
          rw h (
            turns_off-Delivers a (record w { status = stopping; output_fifo = some c.1 })
              (inl refl))
      | inr h ↦ rw h (
          turns_off-Delivers a (record w { status = permanent_failure; output_fifo = some c.1 })
            (inr refl))
    ])
stop_worker-Delivers a w off k = record {
  step = (record w { status = off }, []);
  result = refl;
  settled_after = k;
  all_there = refl;
}
stop_worker-Delivers a w permanent_failure k = record {
  step = (record w { status = permanent_failure }, []);
  result = refl;
  settled_after = k;
  all_there = refl;
}
stop_worker-Delivers a w starting k = (let p = k.not_passing in cc)
stop_worker-Delivers a w stopping k = (let p = k.not_passing in cc)
stop_worker-Delivers a w temporary_failure k = (let p = k.not_passing in cc)
