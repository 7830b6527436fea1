-- ===== src/Control/CameraManager/Openings.antt =====
-- trikControl/src/cameraManager.cpp: openDeviceLocked leaves no buffer with the driver.
use trik_runtime.Prelude.{
  ℕ, ◌≤◌, ◌≡◌, refl, ap, subst, sym, ◌∙◌, arith, Bool, true, false, some, List, [], ◌∷◌, ◌++◌,
  if◌then◌else◌, not, Bool-cases, inl, inr, ◌&&◌, ◌||◌, map,
}
use trik_runtime.Hal.VideoDevice
use trik_runtime.Hal.VideoDevice.{VideoDevice, queue_from}
use trik_runtime.Control.CameraManager.{
  Entry, Answers, Action, device, Step, open_new, opened_with, inits_sensor, init_sensor,
  make_device, is_video_port,
}
use trik_runtime.Control.CameraManager.Frames.{after_actions}
use trik_runtime.Control.CameraManager.Streams.{after-append}
use trik_runtime.Control.CameraManager.Devices.{
  Opened, open_device-Opened, after-quiet, quiet, quiet-append, quiet-open,
}

-- Actions that leave an empty queue of the driver empty.
abbrev pub IsQuiet : List Action → Type 0
IsQuiet actions =
    (q : ℕ → Bool) → ((j : ℕ) → q j ≡ false) → (j : ℕ) → after_actions actions q j ≡ false

-- A new device is open, or the port is as it was but for the sensor.
pub data Opening (e : Entry) : Bool × Step → Type 0 where
  fails :
      (b : Bool) (actions : List Action)
      → IsQuiet actions
      → Opening e (false, (record e { sensor_initialized = b }, actions))
  opens :
      (b : Bool) (d : VideoDevice) (actions : List Action)
      → Opened d
      → IsQuiet actions
      → Opening e (true, (record e { dev = some d; sensor_initialized = b }, actions))

sensor :
    (a : Answers) (e : Entry)
    → (b : Bool) × (actions : List Action) × (init_sensor a e
        ≡ (record e { sensor_initialized = b }, actions))
      × ((q : ℕ → Bool) → after_actions actions q ≡ q)
sensor a e = elim (Bool-cases (is_video_port e && not e.sensor_initialized)) [
  | inl h ↦ (
    a.inits,
    inits_sensor ∷ [],
    ap (λ c. if c then (record e { sensor_initialized = a.inits }, inits_sensor ∷ []) else (e, []))
        h,
    λ q. refl,
  )
  | inr h ↦ (
    e.sensor_initialized,
    [],
    ap (λ c. if c then (record e { sensor_initialized = a.inits }, inits_sensor ∷ []) else (e, []))
        h,
    λ q. refl,
  )
]

exposed :
    (d : VideoDevice)
    → Opened d
    → Opened (VideoDevice.fix_exposure d).0 × (quiet (VideoDevice.fix_exposure d).1 ≡ true)
unfolding VideoDevice.fix_exposure
exposed d o = elim (Bool-cases (not d.is_webcam || d.exposure_fixed)) [
  | inl h ↦ rw h (o, refl)
  | inr h ↦ rw h (record { few = o.few; opened = o.opened; silent = o.silent }, refl)
]

made :
    (a : Answers) (e : Entry)
    → let d = make_device a e in
      (d.is_open ≡ false) × (d.is_streaming ≡ false) × (d.buffer_count ≤ 3) × (d.user_ptr_count ≤ 3)
unfolding VideoDevice.new VideoDevice.set_user_ptr_buffers
made a e = elim (Bool-cases a.is_mapped) [
  | inl h ↦ rw h (refl, refl, omega arith, omega arith)
  | inr h ↦ rw h (refl, refl, omega arith, omega arith)
]

-- The actions of a device after those of the sensor.
quiet_after :
    (actions : List Action) (x : List VideoDevice.Action)
    → ((q : ℕ → Bool) → after_actions actions q ≡ q)
    → quiet x ≡ true
    → IsQuiet (actions ++ map device x)
quiet_after actions x s h q f j =
    ap (λ g. g j) (after-append actions (map device x) q ∙ ap (after_actions (map device x)) (s q))
    ∙ after-quiet x q h f j

pub open_new-Opening : (a : Answers) (e : Entry) → Opening e (open_new a e)
unfolding open_new
open_new-Opening a e =
    let s = sensor a e in
    let m = made a e in
    let d = make_device a e in
    let o = VideoDevice.open_device a.opening d in
    subst (λ i. Opening e (opened_with i o)) (sym s.2)
      (elim (Bool-cases o.0) [
        | inl h ↦
            let x = exposed o.1.0 (open_device-Opened a.opening d m.0 m.1 m.2 m.3 h) in
            let y = VideoDevice.fix_exposure o.1.0 in
            rw h (
              opens s.0 y.0 (s.1 ++ map device (o.1.1 ++ y.1)) x.0 (
                quiet_after s.1 (o.1.1 ++ y.1) s.3
                  (quiet-append o.1.1 y.1 (quiet-open a.opening d) x.1)))
        | inr h ↦ rw h (
            fails s.0 (s.1 ++ map device o.1.1)
              (quiet_after s.1 o.1.1 s.3 (quiet-open a.opening d)))
      ])
