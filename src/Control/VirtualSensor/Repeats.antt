-- ===== src/Control/VirtualSensor/Repeats.antt =====
-- trikControl/src/abstractVirtualSensorWorker.cpp: init of a sensor that is ready already.
use trik_runtime.Prelude.{◌≡◌, refl, ap, ◌∙◌, inl, inr, true, false, some, and_then, []}
use trik_runtime.Control.DeviceState.{ready, permanent_failure, fail, stop, become_off}
use trik_runtime.Hal.Fifo.{close_file}
use trik_runtime.Control.VirtualSensor.{
  VirtualSensorWorker, Answers, init, stop_worker, deinitialize,
}
use trik_runtime.Control.VirtualSensor.Commands.Connecting.{launched}

init-stop :
    (a b : Answers) (w : VirtualSensorWorker)
    → a.files_exist ≡ true
    → (t : VirtualSensorWorker) × (init a (record w { status = ready }) ≡ some (t, []))
      × (t.status ≡ ready)
      × (t.is_connected ≡ false)
      × (and_then (stop_worker b t) (λ s. some s.0.status) ≡ some permanent_failure)
unfolding init stop_worker stop deinitialize close_file fail become_off
init-stop a b w e =
    let t = record w {
      status = ready;
      output_fifo = some (record { is_open = false; buffer = [] });
      is_connected = false;
    } in
    rw e (
      t,
      refl,
      refl,
      refl,
      elim (launched b (record t { status = permanent_failure })) [
        | inl l ↦ rw l refl
        | inr l ↦ rw l refl
      ],
    )

-- A second init of a sensor that is ready, whose files are there, is not ignored: the sensor gets a
-- FIFO that is not open and not connected, so that no reading reaches it any more, though it is
-- still ready; and the stop that follows ends in a permanent failure, whatever the system answers.
pub init_twice :
    (a b : Answers) (w : VirtualSensorWorker)
    → w.status ≡ ready
    → a.files_exist ≡ true
    → (t : VirtualSensorWorker) × (init a w ≡ some (t, []))
      × (t.status ≡ ready)
      × (t.is_connected ≡ false)
      × (and_then (stop_worker b t) (λ s. some s.0.status) ≡ some permanent_failure)
init_twice a b w r e =
    let i = init-stop a b w e in
    (i.0, ap (λ s. init a (record w { status = s })) r ∙ i.1, i.2, i.3, i.4)
