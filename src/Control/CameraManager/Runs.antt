-- ===== src/Control/CameraManager/Runs.antt =====
-- trikControl/src/cameraManager.cpp: what holds at a port after any calls, frames and returns.
use trik_runtime.Prelude.{
  ℕ, zero, suc, ◌+◌, ◌<◌, ◌≤◌, ◌≡◌, refl, ap, subst, sym, ◌∙◌, arith, Bool, true, false, Option,
  none, some, ltb, lt→ltb, is_some,
}
use trik_runtime.Prelude.Int.{ℤ}
use trik_runtime.Text.{Bytes}
use trik_runtime.Hal.VideoDevice.{VideoDevice}
use trik_runtime.Control.CameraManager.{Entry, make_entry, on_device_frame}
use trik_runtime.Control.CameraManager.Stopping.{release, stop_streaming}
use trik_runtime.Control.CameraManager.Frames.{Port, IsIdle, Next}
use trik_runtime.Control.CameraManager.States.{
  Inv, closed, parked, flowing, Balanced, refs_of, claim, bit, sign,
}
use trik_runtime.Control.CameraManager.Captures.{filled}
use trik_runtime.Control.CameraManager.Releases.{release-Succeeds}
use trik_runtime.Control.CameraManager.Stops.{stop_streaming-Succeeds}
use trik_runtime.Control.CameraManager.Safety.{step-Inv}

-- What happens at a port whose driver is reliable or not.
pub data Run (w : Bool) : Port → Port → Type 0 where
  done : {p : Port} → Run w p p
  after : {p q r : Port} → Run w p q → Next w q r → Run w p r

-- A port before its first use.
abbrev pub fresh : Entry → Port
fresh e = record { entry = e; held = λ i. 0; posted = λ i. 0; queued = λ i. false }

steps-Inv : {w : Bool} (p q : Port) → Inv w p → Run w p q → Inv w q
steps-Inv p q k done = k
steps-Inv p q k (after {q = r} s t) = step-Inv r q (steps-Inv p r k s) t

queued-Inv :
    {w : Bool} (p : Port) (accepts : ℕ → Bool) (i size : ℕ)
    → Inv w p
    → p.queued i ≡ true
    → (p.held i ≡ 0)
      × (p.posted i ≡ 0)
      × (claim p.entry.latest i ≡ 0)
      × (is_some (on_device_frame accepts i size p.entry) ≡ true)
unfolding on_device_frame
queued-Inv p a i size (closed e held posted q f b c) h =
    ((f i).not_held, (f i).not_posted, refl, refl)
queued-Inv p a i size (parked e d held posted q n f b) h =
    ((f i).not_held, (f i).not_posted, refl, refl)
queued-Inv p a i size (flowing e d latest tokens held posted q n b) h =
    let f = filled d.buffers i (refs_of tokens) held posted q latest h b in
    let inside : ltb i 3 ≡ true = ground (arith, f.2) in (f.0, f.1, f.3, rw inside refl)

streaming-Inv :
    {w : Bool} (p : Port) (d : VideoDevice) (i : ℕ)
    → Inv w p
    → p.entry.is_streaming ≡ true
    → p.entry.dev ≡ some d
    → Balanced w d.buffers p.entry.latest (refs_of p.entry.tokens) p.held p.posted p.queued i
streaming-Inv p d i (closed e held posted q f b c) h k = cc
streaming-Inv p d i (parked e x held posted q n f b) h k = cc
streaming-Inv {w = w} p d i (flowing e x latest tokens held posted q n b) h k =
    let same : record x { is_streaming = true; is_open = true } ≡ d = cc in
    let size : x.buffers ≡ d.buffers = ap (λ t. t.buffers) same in
    subst (λ m. Balanced w m latest (refs_of tokens) held posted q i) size (b i)

-- One of the first two buffers is not the frame of the manager.
not_latest : (latest : Option ℕ) → (i : ℕ) × (i < 2) × (claim latest i ≡ 0)
not_latest none = (0, omega arith, refl)
not_latest (some zero) = (1, omega arith, refl)
not_latest (some (suc k)) = (0, omega arith, ground arith)

with_driver : (r : ℕ) (q : Bool) → r ≡ 0 → 0 + bit q + sign r ≡ 1 → q ≡ true
with_driver zero true h k = refl
with_driver zero false h k = absurd (omega (arith, k))
with_driver (suc r) q h k = absurd (omega (arith, h))

unclaimed :
    (w : Bool) (n i : ℕ) (latest : Option ℕ) (refs held posted : ℕ → ℕ) (q : ℕ → Bool)
    → Balanced w n latest refs held posted q i
    → w ≡ true
    → i < n
    → held i ≡ 0
    → posted i ≡ 0
    → claim latest i ≡ 0
    → q i ≡ true
unclaimed w n i latest refs held posted q b y l h k c =
    with_driver (refs i) (q i) (omega (arith, b.counts)) (
      ap (λ x. x + bit (q i) + sign (refs i)) (sym k) ∙ b.one_place.exact y ∙ ap bit (lt→ltb i n l))

fresh-Inv :
    {w : Bool} (port : Bytes) (configured : Bool) (dev_file format : Bytes) (bus : ℤ) (region : ℕ)
    → Inv w (fresh (make_entry port configured dev_file format bus region))
unfolding make_entry
fresh-Inv port configured dev_file format bus region =
    closed (make_entry port configured dev_file format bus region) (λ i. 0) (λ i. 0) (λ i. false)
      (λ i. record { no_refs = refl; not_held = refl; not_posted = refl }) (λ i. refl) refl

-- A run of the port of a camera, whose driver is reliable or not.
module _ (w : Bool) (port : Bytes) (configured : Bool) (dev_file format : Bytes) (bus : ℤ)
    (region : ℕ) (p : Port)
    (run : Run w (fresh (make_entry port configured dev_file format bus region)) p) where
  run-Inv : Inv w p
  run-Inv =
      steps-Inv (fresh (make_entry port configured dev_file format bus region)) p
        (fresh-Inv port configured dev_file format bus region) run

  -- At the port of a camera, after any calls, frames and returns in which no client holds a
  -- frame, and no return of one waits, at a call that stops the stream: a buffer that the driver
  -- may fill is neither in the hands of a client nor the frame that the manager keeps, no return
  -- of it waits, and filling it stays within the tokens of the port.
  pub queued_alone :
      (accepts : ℕ → Bool) (i size : ℕ)
      → p.queued i ≡ true
      → (p.held i ≡ 0)
        × (p.posted i ≡ 0)
        × (claim p.entry.latest i ≡ 0)
        × (is_some (on_device_frame accepts i size p.entry) ≡ true)
  queued_alone accepts i size h = queued-Inv p accepts i size run-Inv h

  -- At the port of a camera, after any calls, frames and returns in which no client holds a
  -- frame, and no return of one waits, at a call that stops the stream, while the port has a
  -- stream: the count of a token is the claim of the manager with the frames that clients hold,
  -- and each buffer of the device is in at most one place: with the driver, on its way there, or
  -- claimed. It is in exactly one if the driver has refused no buffer but those that it had
  -- (QBUF); else a refused buffer may be in none.
  pub in_one_place :
      (d : VideoDevice) (i : ℕ)
      → p.entry.is_streaming ≡ true
      → p.entry.dev ≡ some d
      → i < d.buffers
      → ((p.entry.tokens i).refs ≡ claim p.entry.latest i + p.held i)
        × (p.posted i + bit (p.queued i) + sign (p.entry.tokens i).refs ≤ 1)
        × (w ≡ true → p.posted i + bit (p.queued i) + sign (p.entry.tokens i).refs ≡ 1)
  in_one_place d i h k l =
      let b = streaming-Inv p d i run-Inv h k in
      let inside = ap bit (lt→ltb i d.buffers l) in
      (b.counts, omega (arith, b.one_place.below, inside), λ r. b.one_place.exact r ∙ inside)

  -- At the port of a camera, after any calls, frames and returns in which no client holds a
  -- frame, and no return of one waits, at a call that stops the stream, and in which the driver
  -- has refused no buffer but those that it had (QBUF), when clients have dropped their frames
  -- and no return waits: the driver of a port with a stream may fill a buffer, if the device has
  -- two of them or more.
  pub driver_goes_on :
      (d : VideoDevice)
      → w ≡ true
      → p.entry.is_streaming ≡ true
      → p.entry.dev ≡ some d
      → 2 ≤ d.buffers
      → IsIdle p
      → (i : ℕ) × (i < d.buffers) × (p.queued i ≡ true)
  driver_goes_on d y h k l idle =
      let u = not_latest p.entry.latest in
      let b = streaming-Inv p d u.0 run-Inv h k in
      let inside : u.0 < d.buffers = omega (arith, u.1) in
      (
        u.0,
        inside,
        unclaimed w d.buffers u.0 p.entry.latest (refs_of p.entry.tokens) p.held p.posted p.queued b
            y inside (idle u.0).0 (idle u.0).1 u.2,
      )

  -- At the port of a camera, after any calls, frames and returns in which no client holds a
  -- frame, and no return of one waits, at a call that stops the stream, when clients have dropped
  -- their frames and no return waits: release and stopStreaming come to an end without a call
  -- through a null pointer.
  pub stops_succeed :
      (off : Bool)
      → IsIdle p
      → (is_some (release off p.entry) ≡ true) × (is_some (stop_streaming off p.entry) ≡ true)
  stops_succeed off idle = (
    ap is_some (release-Succeeds off p run-Inv (λ c. idle)).result,
    ap is_some (stop_streaming-Succeeds off p run-Inv (λ c. idle)).result,
  )
