-- ===== src/Control/CameraManager/Ports.antt =====
-- trikControl/src/cameraManager.cpp: the operations of the manager by the id or the name of a port.
use trik_runtime.Prelude.{
  ℕ, suc, Bool, Option, none, some, List, [], ◌∷◌, ◌++◌, if◌then◌else◌, get_elem?, set, list_eq,
  and_then,
}
use trik_runtime.Prelude.Int.{ℤ, pos, negsuc}
use trik_runtime.Text.{Bytes}
use trik_runtime.Control.CameraManager.{Entry, Action, Answers, Step, acquire}
use trik_runtime.Control.CameraManager.Stopping.{release, stop_streaming, tear_down_port}

-- mEntries, by the id of a port; an id that is not there does nothing.
abbrev pub at_port : (Entry → Option Step) → ℤ → List Entry → Option (List Entry × List Action)
at_port f (negsuc n) entries = some (entries, [])
at_port f (pos id) entries = elim (get_elem? entries id) [
  | none ↦ some (entries, [])
  | some e ↦ and_then (f e) (λ s. some (set entries id s.0, s.1))
]

-- portId.
abbrev pub id_from : ℕ → Bytes → List Entry → ℤ
id_from i port [] = negsuc 0
id_from i port (e ∷ es) =
    let rest = id_from (suc i) port es in if list_eq e.port_name port then pos i else rest

unfoldable pub port_id : Bytes → List Entry → ℤ
port_id port entries = id_from 0 port entries

unfoldable pub acquire_port : Answers → ℤ → List Entry → Option (List Entry × List Action)
unfolding acquire
acquire_port a id entries = at_port (λ e. some (acquire a e)) id entries

unfoldable pub release_port : Bool → ℤ → List Entry → Option (List Entry × List Action)
unfolding release
release_port stops id entries = at_port (release stops) id entries

unfoldable pub stop_streaming_port : Bool → Bytes → List Entry → Option (List Entry × List Action)
unfolding stop_streaming port_id
stop_streaming_port stops port entries =
    at_port (stop_streaming stops) (port_id port entries) entries

unfoldable pub close_port : Bool → Bytes → List Entry → Option (List Entry × List Action)
unfolding tear_down_port port_id
close_port stops port entries =
    at_port (λ e. some (tear_down_port stops e)) (port_id port entries) entries

-- Every port has its own answer to STREAMOFF.
unfoldable pub close_all : (ℕ → Bool) → List Entry → List Entry × List Action
unfolding tear_down_port
close_all stops [] = ([], [])
close_all stops (e ∷ es) =
    let t = tear_down_port (stops 0) e in
    let rest = close_all (λ i. stops (suc i)) es in (t.0 ∷ rest.0, t.1 ++ rest.1)
