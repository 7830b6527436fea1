-- ===== src/Network/Connection/Disconnects.antt =====
-- A connection reports its end once.
use trik_runtime.Prelude.{ℕ, ◌+◌, ◌≤◌, ◌≡◌, ◌++◌, Bool, List, [], ◌∷◌, if◌then◌else◌, arith}
use trik_runtime.Text.{Bytes, Decimal}
use trik_runtime.Network.Connection.{
  Connection, Protocol, new, Effect, Step, disconnected, Event, connects, accepts, sends, receives,
  socket_changes, socket_connects, socket_disconnects, keepalive_timeout, heartbeat_timeout, send,
  handle_incoming_data, handle_all, process_by, process, ready_read, keep_alive, do_disconnect,
  on_connect, on_disconnect, on_heartbeat_timeout, init_outgoing, init_incoming, step, run,
}

abbrev is_report : Effect → ℕ
is_report disconnected = 1
is_report _ = 0

-- How often `disconnected` was emitted.
abbrev pub reports : List Effect → ℕ
reports [] = 0
reports (e ∷ es) = is_report e + reports es

reports-append : (xs ys : List Effect) → reports (xs ++ ys) ≡ reports xs + reports ys
reports-append [] ys = omega arith
reports-append (x ∷ xs) ys = omega (arith, reports-append xs ys)

abbrev pub reported : Connection → ℕ
reported c = if c.disconnect_reported then 1 else 0

-- A step's reports are what its flag gained.
abbrev Counted : Connection → Step → Type 0
Counted c (c', out) = reports out + reported c ≡ reported c'

module _ (d : Decimal) where
  send-Counted : (c : Connection) (m : Bytes) → Counted c (send d c m)
  unfolding send
  send-Counted c m = ground arith

  handle_incoming_data-Counted :
      (c : Connection) (m : Bytes) → Counted c (handle_incoming_data d c m)
  unfolding handle_incoming_data send
  handle_incoming_data-Counted c m = ground arith

  handle_all-Counted : (c : Connection) (ms : List Bytes) → Counted c (handle_all d c ms)
  unfolding handle_all
  handle_all-Counted c [] = omega arith
  handle_all-Counted c (m ∷ ms) =
      let (c', out) = handle_incoming_data d c m in
      omega (
        arith,
        handle_incoming_data-Counted c m,
        handle_all-Counted c' ms,
        reports-append out (handle_all d c' ms).1,
      )

  process_by-Counted : (p : Protocol) (c : Connection) → Counted c (process_by d p c)
  unfolding process_by
  process_by-Counted Protocol.message_length c = handle_all-Counted _ _
  process_by-Counted Protocol.end_of_line_separator c = handle_all-Counted _ _

  step-Counted : (c : Connection) (e : Event) → Counted c (step d c e)
  unfolding step init_outgoing init_incoming ready_read process do_disconnect on_connect
      on_disconnect keep_alive on_heartbeat_timeout
  step-Counted c (connects answered) = ground arith
  step-Counted c (accepts accepted) = ground arith
  step-Counted c (sends message) = send-Counted c message
  step-Counted c (receives chunk) = process_by-Counted c.protocol _
  step-Counted c (socket_changes s) = omega arith
  step-Counted c socket_connects = ground arith
  step-Counted c socket_disconnects = ground arith
  step-Counted c keepalive_timeout = send-Counted c _
  step-Counted c heartbeat_timeout = ground arith

  pub run-Counted : (c : Connection) (es : List Event) → Counted c (run d c es)
  unfolding run
  run-Counted c [] = omega arith
  run-Counted c (e ∷ es) =
      let (c', out) = step d c e in
      omega (arith, step-Counted c e, run-Counted c' es, reports-append out (run d c' es).1)

  -- Over any sequence of calls and signals a new connection emits `disconnected` at most once, and
  -- exactly once where its end has been reported.
  pub reports-run :
      (p : Protocol) (heartbeat : Bool) (es : List Event)
      → let (c, out) = run d (new p heartbeat) es in
        (reports out ≤ 1) × (reports out ≡ (if c.disconnect_reported then 1 else 0))
  unfolding new
  reports-run p heartbeat es = ground (arith, run-Counted (new p heartbeat) es)
