-- ===== src/Control/CameraManager.antt =====
-- trikControl/src/cameraManager.cpp: the cameras, and the frames that clients hold. `none` is a call
-- through a null pointer or an index outside the tokens of a port.
pub mod Stopping
pub mod Frames
pub mod States
pub mod Captures
pub mod Claims
pub mod Streams
pub mod Devices
pub mod Openings
pub mod Acquisitions
pub mod Stops
pub mod Releases
pub mod Fills
pub mod Safety
pub mod Runs
pub mod Ports
mod Tests
use trik_runtime.Prelude.{
  ℕ, zero, suc, ◌+◌, ◌-◌, ◌*◌, ◌%◌, ◌^◌, Bool, true, false, Option, none, some, List, [], ◌∷◌, ◌++◌,
  map, if◌then◌else◌, ltb, leb, ◌==◌, ◌&&◌, ◌||◌, not, put, get_elem?, set, length, is_some,
  is_empty, list_eq, and_then,
}
use trik_runtime.Prelude.Int.{ℤ, pos, negsuc, leb_ℤ}
use trik_runtime.Text.{Bytes, starts_with, codes}
use trik_runtime.Hal.VideoDevice
use trik_runtime.Hal.VideoDevice.{VideoDevice, OpenAnswers}

-- A token of Frame, which stands for the buffer of its index.
pub record Token : Type 0 where
  pub refs : ℕ  -- fetch_sub is for a count that is not 0
  pub captured : Bool
  pub seq : ℕ
  pub size : ℕ

pub record Entry : Type 0 where
  pub port_name : Bytes
  pub dev_file : Bytes
  pub i2c_bus : ℤ
  pub is_ready : Bool
  pub input_region : ℕ
  pub dev : Option VideoDevice
  pub ref_count : ℕ
  pub stop_latched : Bool
  pub is_streaming : Bool
  pub sensor_initialized : Bool
  pub capture_seq : ℕ
  pub tokens : ℕ → Token
  pub latest : Option ℕ  -- the index of the token

pub data Action : Type 0 where
  device : VideoDevice.Action → Action
  inits_sensor : Action
  disconnects : Action

abbrev pub Step : Type 0
Step = Entry × List Action

-- dspInputBuffersPerRegion and dspInputFrameSize.
abbrev pub buffers_per_region : ℕ
buffers_per_region = 3

abbrev pub input_frame_size : ℕ
input_frame_size = 320 * 240 * 2

abbrev pub new_token : Token
new_token = record { refs = 0; captured = false; seq = 0; size = 0 }

-- makeEntry, for the values of the configuration; `configured` tells whether width and height are
-- numbers, and `format` is the text of the format.
unfoldable pub make_entry : Bytes → Bool → Bytes → Bytes → ℤ → ℕ → Entry
make_entry port configured dev_file format i2c_bus region = record {
  port_name = port;
  dev_file = dev_file;
  i2c_bus = if starts_with (codes "video") port then i2c_bus else pos 0;
  is_ready = configured && (not (is_empty dev_file) && not (is_empty format));
  input_region = region;
  dev = none;
  ref_count = 0;
  stop_latched = false;
  is_streaming = false;
  sensor_initialized = false;
  capture_seq = 0;
  tokens = λ i. new_token;
  latest = none;
}

-- What an acquisition meets.
pub record Answers : Type 0 where
  pub inits : Bool  -- initVideoSensor
  pub is_mapped : Bool  -- mInputMap
  pub opening : OpenAnswers
  pub accepts : ℕ → Bool  -- QBUF
  pub streams : Bool  -- STREAMON

abbrev pub is_video_port : Entry → Bool
is_video_port e = starts_with (codes "video") e.port_name

-- The sensor of an analog camera is initialized once.
abbrev pub init_sensor : Answers → Entry → Step
init_sensor a e =
    if is_video_port e && not e.sensor_initialized
    then (record e { sensor_initialized = a.inits }, inits_sensor ∷ [])
    else (e, [])

abbrev pub make_device : Answers → Entry → VideoDevice
make_device a e =
    let d = VideoDevice.new buffers_per_region (not (is_video_port e)) in
    if a.is_mapped
    then VideoDevice.set_user_ptr_buffers buffers_per_region input_frame_size d
    else d

-- What openDeviceLocked makes of the initialization of the sensor and the opening of the device.
abbrev pub opened_with : Step → Bool × VideoDevice.Step → Bool × Step
opened_with i o =
    if o.0
    then (let x = VideoDevice.fix_exposure o.1.0 in
        (true, (record i.0 { dev = some x.0 }, i.1 ++ map device (o.1.1 ++ x.1))))
    else (false, (i.0, i.1 ++ map device o.1.1))

-- openDeviceLocked for a port without a device.
unfoldable pub open_new : Answers → Entry → Bool × Step
open_new a e = opened_with (init_sensor a e) (VideoDevice.open_device a.opening (make_device a e))

unfoldable pub open_device_locked : Answers → Entry → Bool × Step
unfolding open_new
open_device_locked a e = elim e.dev [ some d ↦ (true, (e, [])) | none ↦ open_new a e ]

abbrev pub with_refs : ℕ → ℕ → (ℕ → Token) → ℕ → Token
with_refs i n tokens = put i (record (tokens i) { refs = n }) tokens

-- The manager's claim of a token is dropped; the second result tells whether it was the last one.
abbrev pub drop_claim : ℕ → Entry → Entry × Bool
drop_claim i e =
    (record e { tokens = with_refs i ((e.tokens i).refs - 1) e.tokens }, (e.tokens i).refs == 1)

abbrev pub forget : (ℕ → Token) → ℕ → Token
forget tokens i =
    if ltb i buffers_per_region then record (tokens i) { captured = false } else tokens i

unfoldable pub drop_latest : Entry → Entry
drop_latest e =
    let dropped : Entry = elim e.latest [ none ↦ e | some i ↦ (drop_claim i e).0 ] in
    record dropped { latest = none; tokens = forget dropped.tokens }

-- returnBufferToDriver and returnBufferToDriverById.
unfoldable pub return_buffer : (ℕ → Bool) → ℕ → Entry → List Action
return_buffer accepts i e = elim e.dev [
  | none ↦ []
  | some d ↦ map device (VideoDevice.release (accepts i) i d)
]

-- The new token is the latest one, and the manager's claim of the old one is dropped.
abbrev pub replace_latest : (ℕ → Bool) → ℕ → ℕ → Entry → Step
replace_latest accepts i size e =
    let seq = suc e.capture_seq % 2 ^ 32 in
    let t = record e {
      capture_seq = seq;
      tokens = put i (record { refs = 1; captured = true; seq = seq; size = size }) e.tokens;
      latest = some i;
    } in
    elim e.latest [
      | none ↦ (t, [])
      | some old ↦
          (let d = drop_claim old t in
            if d.1
            then (
              record d.0 {
                tokens = put old (record (d.0.tokens old) { captured = false }) d.0.tokens;
              },
              return_buffer accepts old d.0,
            )
            else (d.0, []))
    ]

unfoldable pub on_device_frame : (ℕ → Bool) → ℕ → ℕ → Entry → Option Step
unfolding return_buffer
on_device_frame accepts i size e =
    if not e.is_streaming || not (is_some e.dev)
    then some (e, [])
    else if ltb i buffers_per_region
    then some (replace_latest accepts i size e)
    else none

-- What getFrame finds when it looks; `none` is that it waits or returns an empty frame.
unfoldable pub get_frame : ℕ → Entry → Option (ℕ × Entry)
get_frame after_seq e = elim e.latest [
  | none ↦ none
  | some i ↦
      if ltb after_seq (e.tokens i).seq
      then some (i, record e { tokens = with_refs i (suc (e.tokens i).refs) e.tokens })
      else none
]

-- A copy of a Frame.
unfoldable pub copy_frame : ℕ → Entry → Entry
copy_frame i e = record e { tokens = with_refs i (suc (e.tokens i).refs) e.tokens }

-- Frame::release; the second result tells whether the return of the buffer is posted to the manager.
unfoldable pub release_frame : ℕ → Entry → Entry × Bool
release_frame i e = drop_claim i e

abbrev pub counted : Entry → Entry
counted e = record e { is_streaming = true; ref_count = suc e.ref_count }

-- acquire, with a device that is open; it is not open if e.dev is a null pointer, which openDeviceLocked
-- excludes.
abbrev pub acquire_open : Answers → Step → Step
acquire_open a o = if o.0.is_streaming then (counted o.0, o.1) else elim o.0.dev [
  | none ↦ o
  | some d ↦
      (let s = VideoDevice.start_streaming a.accepts a.streams d in
        let t = record o.0 { dev = some s.1.0 } in
        (if s.0 then counted t else t, o.1 ++ map device s.1.1))
]

-- acquire, after what openDeviceLocked has answered.
abbrev pub acquire_opened : Answers → Bool × Step → Step
acquire_opened a o = if not o.0 then o.1 else acquire_open a o.1

unfoldable pub acquire : Answers → Entry → Step
unfolding open_device_locked
acquire a e = if not e.is_ready then (e, []) else acquire_opened a (open_device_locked a e)

-- initSensors, for one port.
unfoldable pub init_sensors : Bool → Entry → Step
init_sensors inits e =
    if not e.is_ready || (leb_ℤ e.i2c_bus (pos 0) || e.sensor_initialized)
    then (e, [])
    else (record e { sensor_initialized = inits }, inits_sensor ∷ [])
