-- ===== src/Control/VirtualSensor/Commands/Requests.antt =====
-- trikControl/src/soundSensorWorker.cpp: every command reaches the sensor once and in order.
use trik_runtime.Prelude.{
  ◌≡◌, refl, sym, ap, ◌∙◌, inl, inr, Bool, true, some, List, [], ◌∷◌, ◌++◌, map, Bool-cases,
  append-nil, append_assoc, All,
}
use trik_runtime.Text.{Bytes, Decimal}
use trik_runtime.Control.DeviceState.{off, is_ready}
use trik_runtime.Control.VirtualSensor.{
  VirtualSensorWorker, Action, writes, Answers, Step, new, after, sync, send_command,
}
use trik_runtime.Control.VirtualSensor.SoundSensor.{
  Request, asks_init, asks_detect, asks_volume, asks_stop, video_out, detect_command,
  volume_command, volume, detect, init_sound, serve, serve_all,
}
use trik_runtime.Control.VirtualSensor.Commands.{
  written, line, written-append, written-map, map-append, is_passing, Settled, Delivers,
}
use trik_runtime.Control.VirtualSensor.Commands.Connecting.{init-Inited}
use trik_runtime.Control.VirtualSensor.Commands.Stopping.{stop_worker-Delivers}

-- A command that is sent.
record Sent (command : Bytes) (w : VirtualSensorWorker) (s : Step) : Type 0 where
  status_same : s.0.status ≡ w.status
  fifo_same : s.0.output_fifo ≡ w.output_fifo
  sent_all : written s.1 ++ map line s.0.command_queue ≡ map line (w.command_queue ++ command ∷ [])
  sent_now : is_ready w.status ≡ true → s.0.command_queue ≡ []

send_command-Sent :
    (command : Bytes) (w : VirtualSensorWorker) → Sent command w (send_command command w)
unfolding send_command sync
send_command-Sent command w =
    let q = w.command_queue ++ command ∷ [] in
    elim (Bool-cases (is_ready w.status)) [
      | inl r ↦ rw r (record {
        status_same = refl;
        fifo_same = refl;
        sent_all = append-nil (written (map (λ c. writes (line c)) q)) ∙ written-map q;
        sent_now = λ h. refl;
      })
      | inr r ↦
          rw r
            (record { status_same = refl; fifo_same = refl; sent_all = refl; sent_now = λ h. cc })
    ]

silent_before : (a b : List Action) → written a ≡ [] → written (a ++ b) ≡ written b
silent_before a b h = written-append a b ∙ ap (λ l. l ++ written b) h

init_sound-Delivers :
    (b : Bool) (a : Answers) (w : VirtualSensorWorker)
    → Settled w
    → a.files_exist ≡ true
    → Delivers (w.command_queue ++ video_out b ∷ []) (init_sound b a w)
unfolding init_sound
init_sound-Delivers b a w k e =
    let i = init-Inited a w w.status k.not_passing e in
    let sent = send_command (video_out b) i.step.0 in
    let s = send_command-Sent (video_out b) i.step.0 in
    rw i.result (record {
      step = after i.step.1 sent;
      result = refl;
      settled_after = record {
        not_passing = ap is_passing s.status_same ∙ i.not_passing;
        fifo = λ h. (i.has_fifo.0, s.fifo_same ∙ i.has_fifo.1);
        flushed = λ h. s.sent_now (sym (ap is_ready s.status_same) ∙ h);
      };
      all_there =
          ap (λ l. l ++ map line sent.0.command_queue) (silent_before i.step.1 sent.1 i.silent)
          ∙ s.sent_all
          ∙ ap (λ q. map line (q ++ video_out b ∷ [])) i.queue_same;
    })

send-Delivers :
    (command : Bytes) (w : VirtualSensorWorker)
    → Settled w
    → Delivers (w.command_queue ++ command ∷ []) (some (send_command command w))
send-Delivers command w k =
    let s = send_command-Sent command w in
    record {
      step = send_command command w;
      result = refl;
      settled_after = record {
        not_passing = ap is_passing s.status_same ∙ k.not_passing;
        fifo =
            λ h. (let f = k.fifo (sym (ap is_ready s.status_same) ∙ h) in (f.0, s.fifo_same ∙ f.1));
        flushed = λ h. s.sent_now (sym (ap is_ready s.status_same) ∙ h);
      };
      all_there = s.sent_all;
    }

-- The commands of a request.
abbrev pub command_of : Decimal → Request → List Bytes
command_of d (asks_init show_on_display a) = video_out show_on_display ∷ []
command_of d asks_detect = detect_command ∷ []
command_of d (asks_volume coefficient) = volume_command d coefficient ∷ []
command_of d (asks_stop a) = []

abbrev pub commands_of : Decimal → List Request → List Bytes
commands_of d [] = []
commands_of d (r ∷ rs) = command_of d r ++ commands_of d rs

-- The files of the sensor are there when init is called.
abbrev pub has_files : Request → Bool
has_files (asks_init show_on_display a) = a.files_exist
has_files _ = true

serve-Delivers :
    (d : Decimal) (r : Request) (w : VirtualSensorWorker)
    → Settled w
    → has_files r ≡ true
    → Delivers (w.command_queue ++ command_of d r) (serve d r w)
unfolding serve detect volume
serve-Delivers d (asks_init b a) w k e = init_sound-Delivers b a w k e
serve-Delivers d asks_detect w k e = send-Delivers detect_command w k
serve-Delivers d (asks_volume c) w k e = send-Delivers (volume_command d c) w k
serve-Delivers d (asks_stop a) w k e =
    rw (append-nil w.command_queue) (stop_worker-Delivers a w w.status k)

-- Two steps, one after the other.
joined :
    (a b : List Action) (p q r t c : List Bytes)
    → written a ++ map line q ≡ map line (p ++ t)
    → written b ++ map line r ≡ map line (q ++ c)
    → written (a ++ b) ++ map line r ≡ map line (p ++ (t ++ c))
joined a b p q r t c h k =
    ap (λ l. l ++ map line r) (written-append a b)
    ∙ append_assoc (written a) (written b) (map line r)
    ∙ ap (λ l. written a ++ l) (k ∙ map-append q c)
    ∙ sym (append_assoc (written a) (map line q) (map line c))
    ∙ ap (λ l. l ++ map line c) h
    ∙ sym (map-append (p ++ t) c)
    ∙ ap (map line) (append_assoc p t c)

serve_all-Delivers :
    (d : Decimal) (rs : List Request) (w : VirtualSensorWorker)
    → Settled w
    → All (λ r. has_files r ≡ true) rs
    → Delivers (w.command_queue ++ commands_of d rs) (serve_all d rs w)
unfolding serve_all
serve_all-Delivers d [] w k e =
    rw (append-nil w.command_queue)
      (record { step = (w, []); result = refl; settled_after = k; all_there = refl })
serve_all-Delivers d (r ∷ rs) w k e =
    let s = serve-Delivers d r w k e.0 in
    let t = serve_all-Delivers d rs s.step.0 s.settled_after e.1 in
    rw (s.result, t.result)
      (record {
        step = after s.step.1 t.step;
        result = refl;
        settled_after = t.settled_after;
        all_there =
            joined s.step.1 t.step.1 w.command_queue s.step.0.command_queue t.step.0.command_queue
              (command_of d r) (commands_of d rs) s.all_there t.all_there;
      })

-- A sound sensor that was off gets through any requests without an exception of the device state,
-- provided that its files are there whenever init is called. What has been written to it, with what
-- still waits, are the commands that were asked for, each once and in order; while it is ready
-- nothing waits.
pub serve_all-new :
    (d : Decimal) (rs : List Request)
    → All (λ r. has_files r ≡ true) rs
    → (t : Step) × (serve_all d rs (new off) ≡ some t)
      × (written t.1 ++ map line t.0.command_queue ≡ map line (commands_of d rs))
      × (is_ready t.0.status ≡ true → t.0.command_queue ≡ [])
unfolding new
serve_all-new d rs e =
    let s =
      serve_all-Delivers d rs (new off)
        (record { not_passing = refl; fifo = λ h. cc; flushed = λ h. refl }) e in
    (s.step, s.result, s.all_there, s.settled_after.flushed)
