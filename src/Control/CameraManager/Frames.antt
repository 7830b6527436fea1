-- ===== src/Control/CameraManager/Frames.antt =====
-- trikControl/src/cameraManager.cpp: one port with its clients and the queue of the driver.
use trik_runtime.Prelude.{
  ℕ, suc, ◌-◌, ◌<◌, ◌≤◌, ◌≡◌, Bool, true, false, some, List, [], ◌∷◌, not, ◌&&◌, put,
}
use trik_runtime.Hal.VideoDevice
use trik_runtime.Hal.VideoDevice.{VideoDevice, OpenAnswers}
use trik_runtime.Control.CameraManager.{
  Entry, Answers, Action, device, inits_sensor, disconnects, Step, on_device_frame, get_frame,
  copy_frame, release_frame, return_buffer, acquire,
}
use trik_runtime.Control.CameraManager.Stopping.{release, stop_streaming, tear_down_port}

pub record Port : Type 0 where
  pub entry : Entry
  pub held : ℕ → ℕ  -- how many frames of clients stand for a buffer
  pub posted : ℕ → ℕ  -- how many of its returns wait in the manager's thread
  pub queued : ℕ → Bool  -- whether the driver may fill it

-- What the actions do to the queue of the driver, as V4L2 documents it.
abbrev pub after_device : VideoDevice.Action → (ℕ → Bool) → ℕ → Bool
after_device (VideoDevice.queues i) q = put i true q
after_device VideoDevice.streams_off q = λ i. false
after_device VideoDevice.frees q = λ i. false
after_device VideoDevice.closes q = λ i. false
after_device _ q = q

abbrev pub after_actions : List Action → (ℕ → Bool) → ℕ → Bool
after_actions [] q = q
after_actions (device a ∷ actions) q = after_actions actions (after_device a q)
after_actions (inits_sensor ∷ actions) q = after_actions actions q
after_actions (disconnects ∷ actions) q = after_actions actions q

-- Whether QBUF succeeds: the driver refuses a buffer that it has, and may refuse any other one.
abbrev pub accepts : (ℕ → Bool) → (ℕ → Bool) → ℕ → Bool
accepts answers q i = answers i && not (q i)

-- The answers of a driver; a reliable one accepts every buffer that it does not have.
abbrev pub Allows : Bool → (ℕ → Bool) → Type 0
Allows reliable answers = reliable ≡ true → (i : ℕ) → answers i ≡ true

-- No client has a frame, and no return waits.
abbrev pub AllIdle : (ℕ → ℕ) → (ℕ → ℕ) → Type 0
AllIdle held posted = (i : ℕ) → (held i ≡ 0) × (posted i ≡ 0)

abbrev pub IsIdle : Port → Type 0
IsIdle p = AllIdle p.held p.posted

abbrev pub stepped : Port → Step → Port
stepped p s = record p { entry = s.0; queued = after_actions s.1 p.queued }

abbrev pub posts : Bool → ℕ → (ℕ → ℕ) → ℕ → ℕ
posts true i posted = put i (suc (posted i)) posted
posts false i posted = posted

-- What happens at a port whose driver is reliable or not, where STREAMOFF may fail. Where a call stops
-- the stream, no client holds a frame and no return waits.
pub data Next (w : Bool) : Port → Port → Type 0 where
  captures :
      {p : Port} (answers : ℕ → Bool) (i size : ℕ) (s : Step)
      → Allows w answers
      → p.queued i ≡ true
      → p.entry.is_streaming ≡ true
      → on_device_frame (accepts answers (put i false p.queued)) i size p.entry ≡ some s
      → Next w p (stepped (record p { queued = put i false p.queued }) s)
  gets :
      {p : Port} (after_seq i : ℕ) (e : Entry)
      → get_frame after_seq p.entry ≡ some (i, e)
      → Next w p (record p { entry = e; held = put i (suc (p.held i)) p.held })
  copies :
      {p : Port} (i : ℕ)
      → 0 < p.held i
      → Next w p (record p { entry = copy_frame i p.entry; held = put i (suc (p.held i)) p.held })
  drops :
      {p : Port} (i : ℕ)
      → 0 < p.held i
      → Next w p (record p {
        entry = (release_frame i p.entry).0;
        held = put i (p.held i - 1) p.held;
        posted = posts (release_frame i p.entry).1 i p.posted;
      })
  returns :
      {p : Port} (answers : ℕ → Bool) (i : ℕ)
      → Allows w answers
      → 0 < p.posted i
      → Next w p (record p {
        posted = put i (p.posted i - 1) p.posted;
        queued = after_actions (return_buffer (accepts answers p.queued) i p.entry) p.queued;
      })
  acquires :
      {p : Port} (a : Answers)
      → Allows w a.accepts
      → Next w p (stepped p (acquire (record a { accepts = accepts a.accepts p.queued }) p.entry))
  releases :
      {p : Port} (answer : Bool) (s : Step)
      → release answer p.entry ≡ some s
      → (p.entry.ref_count ≡ 1 → IsIdle p)
      → Next w p (stepped p s)
  stops :
      {p : Port} (answer : Bool) (s : Step)
      → stop_streaming answer p.entry ≡ some s
      → (p.entry.ref_count ≤ 1 → IsIdle p)
      → Next w p (stepped p s)
  closes :
      {p : Port} (answer : Bool) → IsIdle p → Next w p (stepped p (tear_down_port answer p.entry))
