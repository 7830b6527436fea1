-- ===== src/Control/CameraManager/Stopping.antt =====
-- trikControl/src/cameraManager.cpp: release, stopStreaming and tearDownPort, with the answer of the
-- driver to STREAMOFF.
use trik_runtime.Prelude.{
  zero, suc, Bool, true, false, Option, none, some, List, [], ◌∷◌, ◌++◌, map, if◌then◌else◌, ltb,
  leb, not, is_some, and_then,
}
use trik_runtime.Hal.VideoDevice
use trik_runtime.Hal.VideoDevice.{VideoDevice, OpenAnswers}
use trik_runtime.Control.CameraManager.{Entry, Action, device, disconnects, Step, drop_latest}

-- The stream is stopped, if it is on.
abbrev pub stop_stream : Bool → Entry → Option Step
stop_stream stops e =
    if e.is_streaming
    then elim e.dev [
      | none ↦ none
      | some d ↦
          (let s = VideoDevice.stop_streaming stops d in
            some (drop_latest (record e { dev = some s.0; is_streaming = false }), map device s.1))
    ]
    else some (e, [])

abbrev pub close_device : Bool → Entry → Option Step
close_device stops e = elim e.dev [
  | none ↦ none
  | some d ↦ some (record e { dev = none }, map device (VideoDevice.close stops d).1)
]

unfoldable pub release : Bool → Entry → Option Step
unfolding drop_latest
release stops e = if not e.is_ready then some (e, []) else elim e.ref_count [
  | zero ↦ some (e, [])
  | suc n ↦
      (let t = record e { ref_count = n } in
        if ltb 0 n
        then some (t, [])
        else and_then (stop_stream stops t) (λ s.
          if s.0.stop_latched
          then some s
          else and_then (close_device stops s.0) (λ c. some (c.0, s.1 ++ c.1))))
]

unfoldable pub stop_streaming : Bool → Entry → Option Step
unfolding drop_latest
stop_streaming stops e =
    if is_some e.dev
    then (let t = record e { stop_latched = true } in
        if leb t.ref_count 1 then stop_stream stops t else some (t, []))
    else some (e, [])

abbrev pub torn_down : Bool → VideoDevice → List Action
torn_down stops d =
    let s = VideoDevice.stop_streaming stops d in
    disconnects ∷ map device (s.1 ++ (VideoDevice.close stops s.0).1)

unfoldable pub tear_down_port : Bool → Entry → Step
unfolding drop_latest
tear_down_port stops e = (
  record (drop_latest e) { dev = none; is_streaming = false; ref_count = 0; stop_latched = false },
  elim e.dev [ none ↦ [] | some d ↦ torn_down stops d ],
)
