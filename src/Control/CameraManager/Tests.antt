-- ===== src/Control/CameraManager/Tests.antt =====
-- trikControl/src/cameraManager.cpp: tests.
use trik_runtime.Prelude.{
  ℕ, ◌+◌, ◌<◌, ◌≤◌, ◌≡◌, refl, arith, true, false, some, [], ◌∷◌, put, is_some,
}
use trik_runtime.Prelude.Int.{pos}
use trik_runtime.Text.{codes}
use trik_runtime.Hal.VideoDevice
use trik_runtime.Hal.VideoDevice.{VideoDevice, OpenAnswers}
use trik_runtime.Control.CameraManager.{
  Entry, Answers, device, make_entry, acquire, return_buffer, on_device_frame, replace_latest,
  get_frame, with_refs,
}
use trik_runtime.Control.CameraManager.Stopping.{release, stop_streaming}
use trik_runtime.Control.CameraManager.Frames.{
  Port, stepped, accepts, after_actions, captures, gets, acquires,
}
use trik_runtime.Control.CameraManager.States.{claim, bit, sign}
use trik_runtime.Control.CameraManager.Runs.{
  Run, done, after, fresh, queued_alone, in_one_place, driver_goes_on, stops_succeed,
}

abbrev camera : Entry
camera = make_entry (codes "video0") true (codes "/dev/video0") (codes "NV16") (pos 1) 0

abbrev works : Answers
works = record {
  inits = true;
  is_mapped = true;
  opening = record {
    opens = true;
    capable = true;
    sets_format = true;
    size_image = 153600;
    requested = some 3;
    maps = λ i. true;
    stops = true;
  };
  accepts = λ i. true;
  streams = true;
}

abbrev webcam : Entry
webcam = make_entry (codes "usb0") true (codes "/dev/video2") (codes "YUYV") (pos 0) 1

fixed_before_stream :
    (acquire works webcam).1
    ≡ device VideoDevice.sets_webcam_defaults
      ∷ device VideoDevice.fixes_exposure
      ∷ device (VideoDevice.queues 0)
      ∷ device (VideoDevice.queues 1)
      ∷ device (VideoDevice.queues 2)
      ∷ device VideoDevice.streams_on
      ∷ []
unfolding make_entry acquire VideoDevice.open_device VideoDevice.set_user_ptr_buffers
    VideoDevice.new VideoDevice.start_streaming VideoDevice.fix_exposure
fixed_before_stream = refl

abbrev acquired : Port
acquired =
    stepped (fresh camera)
      (acquire (record works { accepts = accepts (λ i. true) (λ i. false) }) camera)

abbrev filled : Port
filled = record acquired { queued = put 0 false acquired.queued }

abbrev captured : Port
captured =
    stepped filled (replace_latest (accepts (λ i. true) filled.queued) 0 153600 acquired.entry)

abbrev gotten : Port
gotten = record captured {
  entry = record captured.entry { tokens = with_refs 0 2 captured.entry.tokens };
  held = put 0 1 captured.held;
}

-- The stream does not start, but the buffers stay with the driver.
abbrev refused : Port
refused =
    stepped (fresh camera) (
      acquire (record works { accepts = accepts (λ i. true) (λ i. false); streams = false }) camera)

-- The next acquire fails, too, although the driver would start the stream now.
retry_refused :
    (refused.queued 0 ≡ true)
    × ((acquire
          (record works { accepts = accepts (λ i. true) refused.queued })
          refused.entry).0.is_streaming
        ≡ false)
unfolding make_entry acquire VideoDevice.open_device VideoDevice.set_user_ptr_buffers
    VideoDevice.new VideoDevice.start_streaming VideoDevice.fix_exposure
retry_refused = (refl, refl)

-- The camera is acquired, and the driver fills the first buffer.
acquired-queued : (acquired.queued 0 ≡ true) × (acquired.entry.is_streaming ≡ true)
unfolding make_entry acquire VideoDevice.open_device VideoDevice.set_user_ptr_buffers
    VideoDevice.new VideoDevice.start_streaming VideoDevice.fix_exposure
acquired-queued = (refl, refl)

acquired-captures :
    on_device_frame (accepts (λ i. true) filled.queued) 0 153600 acquired.entry
    ≡ some (replace_latest (accepts (λ i. true) filled.queued) 0 153600 acquired.entry)
unfolding make_entry acquire on_device_frame VideoDevice.open_device
    VideoDevice.set_user_ptr_buffers VideoDevice.new VideoDevice.start_streaming
    VideoDevice.fix_exposure
acquired-captures = refl

abbrev run : Run true (fresh camera) captured
run =
    after {q = acquired}
      (after {q = fresh camera} done (acquires {p = fresh camera} works (λ y i. refl)))
      (captures {p = acquired} (λ i. true) 0 153600
        (replace_latest (accepts (λ i. true) filled.queued) 0 153600 acquired.entry) (λ y i. refl)
        acquired-queued.0 acquired-queued.1 acquired-captures)

-- Another buffer is with the driver then, and a client gets the frame.
captured-queued : captured.queued 1 ≡ true
unfolding make_entry acquire VideoDevice.open_device VideoDevice.set_user_ptr_buffers
    VideoDevice.new VideoDevice.start_streaming VideoDevice.fix_exposure
captured-queued = refl

gotten-runs : get_frame 0 captured.entry ≡ some (0, gotten.entry)
unfolding make_entry acquire get_frame VideoDevice.open_device VideoDevice.set_user_ptr_buffers
    VideoDevice.new VideoDevice.start_streaming VideoDevice.fix_exposure
gotten-runs = refl

abbrev run_on : Run true (fresh camera) gotten
run_on = after {q = captured} run (gets {p = captured} 0 0 gotten.entry gotten-runs)

abbrev opened : VideoDevice
opened = record {
  is_open = true;
  is_streaming = true;
  is_webcam = false;
  exposure_fixed = false;
  use_user_ptr = true;
  user_ptr_count = 3;
  user_ptr_size = 153600;
  buffer_count = 3;
  buffers = 3;
  size_image = 153600;
}

gotten-opened : (gotten.entry.dev ≡ some opened) × (gotten.entry.is_streaming ≡ true)
unfolding make_entry acquire VideoDevice.open_device VideoDevice.set_user_ptr_buffers
    VideoDevice.new VideoDevice.start_streaming VideoDevice.fix_exposure
gotten-opened = (refl, refl)

captured-opened : (captured.entry.dev ≡ some opened) × (captured.entry.is_streaming ≡ true)
unfolding make_entry acquire VideoDevice.open_device VideoDevice.set_user_ptr_buffers
    VideoDevice.new VideoDevice.start_streaming VideoDevice.fix_exposure
captured-opened = (refl, refl)

-- A buffer that the driver refuses when the next frame replaces it is in no place.
refused_lost :
    (let s =
        replace_latest
          (accepts (λ i. false) (put 1 false captured.queued))
          1
          153600
          captured.entry in
      bit (after_actions s.1 captured.queued 0) + sign (s.0.tokens 0).refs ≡ 0)
unfolding make_entry acquire VideoDevice.open_device VideoDevice.set_user_ptr_buffers
    VideoDevice.new VideoDevice.start_streaming VideoDevice.fix_exposure return_buffer
    VideoDevice.release
refused_lost = refl

queued_alone_example :
    (captured.held 1 ≡ 0)
    × (captured.posted 1 ≡ 0)
    × (claim captured.entry.latest 1 ≡ 0)
    × (is_some (on_device_frame (accepts (λ i. true) captured.queued) 1 153600 captured.entry)
        ≡ true)
queued_alone_example =
    queued_alone true (codes "video0") true (codes "/dev/video0") (codes "NV16") (pos 1) 0 captured
      run (accepts (λ i. true) captured.queued) 1 153600 captured-queued

in_one_place_example :
    ((gotten.entry.tokens 0).refs ≡ claim gotten.entry.latest 0 + gotten.held 0)
    × (gotten.posted 0 + bit (gotten.queued 0) + sign (gotten.entry.tokens 0).refs ≤ 1)
    × (true ≡ true
        → gotten.posted 0 + bit (gotten.queued 0) + sign (gotten.entry.tokens 0).refs ≡ 1)
in_one_place_example =
    in_one_place true (codes "video0") true (codes "/dev/video0") (codes "NV16") (pos 1) 0 gotten
      run_on opened 0 gotten-opened.1 gotten-opened.0 (omega arith)

driver_goes_on_example : (i : ℕ) × (i < 3) × (captured.queued i ≡ true)
driver_goes_on_example =
    driver_goes_on true (codes "video0") true (codes "/dev/video0") (codes "NV16") (pos 1) 0
      captured run opened refl captured-opened.1 captured-opened.0 (omega arith) (λ i. (refl, refl))

stops_succeed_example :
    (is_some (release false captured.entry) ≡ true)
    × (is_some (stop_streaming false captured.entry) ≡ true)
stops_succeed_example =
    stops_succeed true (codes "video0") true (codes "/dev/video0") (codes "NV16") (pos 1) 0 captured
      run false (λ i. (refl, refl))
