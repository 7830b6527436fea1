-- ===== src/Control/VirtualSensor/Commands/Connecting.antt =====
-- trikControl/src/abstractVirtualSensorWorker.cpp: init leaves the commands as they were.
use trik_runtime.Prelude.{
  ◌≡◌, refl, ◌⊎◌, inl, inr, true, false, Option, some, and_then, [], Bool-cases, arith,
}
use trik_runtime.Text.{codes, contains}
use trik_runtime.Control.DeviceState.{
  Status, off, starting, ready, stopping, permanent_failure, temporary_failure, is_ready, fail,
  start, become_ready,
}
use trik_runtime.Hal.Fifo.{TrikFifo}
use trik_runtime.Control.VirtualSensor.{
  VirtualSensorWorker, set_status, Answers, Step, init, sync, launch_sensor_script, open_fifos,
  start_virtual_sensor, connect_sensor,
}
use trik_runtime.Control.VirtualSensor.Commands.{written, is_passing}

-- What a connection leaves, from a sensor that is starting.
pub record Connected (w : VirtualSensorWorker) (s : Step) : Type 0 where
  pub silent : written s.1 ≡ []
  pub queue_same : s.0.command_queue ≡ w.command_queue
  pub started : (s.0.status ≡ starting) ⊎ (s.0.status ≡ permanent_failure)
  pub has_fifo : (f : TrikFifo) × (s.0.output_fifo ≡ some f)

open_fifos-Connected :
    (a : Answers) (w : VirtualSensorWorker) (f : TrikFifo) (status : Status)
    → is_ready status ≡ false
    → (status ≡ starting) ⊎ (status ≡ permanent_failure)
    → Connected w (open_fifos a (record w { status = status; output_fifo = some f }))
unfolding open_fifos sync fail
open_fifos-Connected a w f status r g = elim (Bool-cases a.output_opens) [
  | inl o ↦ elim (Bool-cases a.input_opens) [
    | inl i ↦
        rw (o, i, r)
          (record { silent = refl; queue_same = refl; started = g; has_fifo = (_, refl) })
    | inr i ↦
        rw (o, i)
          (record { silent = refl; queue_same = refl; started = inr refl; has_fifo = (_, refl) })
  ]
  | inr o ↦
      rw o (record { silent = refl; queue_same = refl; started = inr refl; has_fifo = (_, refl) })
]

-- The script starts the sensor or the device has failed.
pub launched :
    (a : Answers) (w : VirtualSensorWorker)
    → (launch_sensor_script a w ≡ (true, w))
      ⊎ (launch_sensor_script a w ≡ (false, record w { status = permanent_failure }))
unfolding launch_sensor_script fail
launched a w = elim (Bool-cases a.script_starts) [
  | inl h ↦ elim (Bool-cases (contains a.script_output (codes "error"))) [
    | inl e ↦ inr (rw (h, e) refl)
    | inr e ↦ inl (rw (h, e) refl)
  ]
  | inr h ↦ inr (rw h refl)
]

connect_sensor-Connected :
    (a : Answers) (w : VirtualSensorWorker) (f : TrikFifo) (status : Status)
    → is_ready status ≡ false
    → (status ≡ starting) ⊎ (status ≡ permanent_failure)
    → Connected w (connect_sensor a (record w { status = status; output_fifo = some f }))
unfolding connect_sensor start_virtual_sensor
connect_sensor-Connected a w f status r g =
    let v = record w { status = status; output_fifo = some f } in
    let c = open_fifos-Connected a w f status r g in
    elim (Bool-cases a.files_exist_then) [
      | inl h ↦ rw h c
      | inr h ↦ elim (launched a v) [
        | inl l ↦
            rw (h, l)
              (record {
                silent = c.silent;
                queue_same = c.queue_same;
                started = c.started;
                has_fifo = c.has_fifo;
              })
        | inr l ↦
            rw (h, l)
              (record {
                silent = refl;
                queue_same = refl;
                started = inr refl;
                has_fifo = (_, refl);
              })
      ]
    ]

-- What init leaves: a FIFO, and the commands as they were.
pub record Inited (w : VirtualSensorWorker) (o : Option Step) : Type 0 where
  pub step : Step
  pub result : o ≡ some step
  pub silent : written step.1 ≡ []
  pub queue_same : step.0.command_queue ≡ w.command_queue
  pub not_passing : is_passing step.0.status ≡ false
  pub has_fifo : (f : TrikFifo) × (step.0.output_fifo ≡ some f)

abbrev pub closed_fifo : TrikFifo
closed_fifo = record { is_open = false; buffer = [] }

abbrev pub with_fifo : Status → VirtualSensorWorker → VirtualSensorWorker
with_fifo status w = record w {
  status = status;
  output_fifo = some closed_fifo;
  is_connected = false;
}

-- init after a start that has not thrown.
abbrev pub makes_ready : Step → Option Step
unfolding become_ready
makes_ready c = and_then (set_status c.0 (become_ready c.0.status)) (λ t. some (t, c.1))

makes_ready-Inited : (w : VirtualSensorWorker) (c : Step) → Connected w c → Inited w (makes_ready c)
unfolding become_ready
makes_ready-Inited w c k = elim k.started [
  | inl s ↦ rw s (record {
    step = (record c.0 { status = ready }, c.1);
    result = refl;
    silent = k.silent;
    queue_same = k.queue_same;
    not_passing = refl;
    has_fifo = k.has_fifo;
  })
  | inr s ↦ rw s (record {
    step = (record c.0 { status = permanent_failure }, c.1);
    result = refl;
    silent = k.silent;
    queue_same = k.queue_same;
    not_passing = refl;
    has_fifo = k.has_fifo;
  })
]

pub init-Inited :
    (a : Answers) (w : VirtualSensorWorker) (status : Status)
    → is_passing status ≡ false
    → a.files_exist ≡ true
    → Inited w (init a (record w { status = status }))
unfolding init start become_ready
init-Inited a w off h e =
    let v = with_fifo starting w in
    let i =
      makes_ready-Inited v (connect_sensor a v)
        (connect_sensor-Connected a v closed_fifo starting refl (inl refl)) in
    record {
      step = i.step;
      result = i.result;
      silent = i.silent;
      queue_same = i.queue_same;
      not_passing = i.not_passing;
      has_fifo = i.has_fifo;
    }
init-Inited a w ready h e = rw e (record {
  step = (with_fifo ready w, []);
  result = refl;
  silent = refl;
  queue_same = refl;
  not_passing = refl;
  has_fifo = (_, refl);
})
init-Inited a w permanent_failure h e =
    let v = with_fifo permanent_failure w in
    let i =
      makes_ready-Inited v (connect_sensor a v)
        (connect_sensor-Connected a v closed_fifo permanent_failure refl (inr refl)) in
    record {
      step = i.step;
      result = i.result;
      silent = i.silent;
      queue_same = i.queue_same;
      not_passing = i.not_passing;
      has_fifo = i.has_fifo;
    }
init-Inited a w starting h e = ground arith
init-Inited a w stopping h e = ground arith
init-Inited a w temporary_failure h e = ground arith
