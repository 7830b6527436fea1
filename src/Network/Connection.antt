-- ===== src/Network/Connection.antt =====
-- trikNetwork/src/connection.cpp and include/trikNetwork/connection.h: one end of a connection.
-- A slot takes the connection and returns it with what it did, in order. What the socket answers is
-- an argument.
pub mod Disconnects
pub mod Sending
mod Tests
use Prim.Native.String.{String}
use Prim.Native.Char.{code}
use trik_runtime.Prelude.{
  ℕ, suc, ◌++◌, Bool, true, false, Option, none, some, List, [], ◌∷◌, map, if◌then◌else◌, list_eq,
  not, ◌&&◌,
}
use trik_runtime.Prelude.Int.{ℤ}
use trik_runtime.Text.{Bytes, Decimal, codes}
use trik_runtime.Network.Framing.{Buffer, fresh, packet, process_buffer}
use trik_runtime.Network.Lines.{take_lines}

pub data Protocol : Type 0 where
  message_length end_of_line_separator : Protocol

-- What the connection asks its QTcpSocket: isValid(), isOpen(), state() == ConnectedState.
pub record Socket : Type 0 where
  pub is_valid : Bool
  pub is_open : Bool
  pub is_connected : Bool

-- A timer is made by restartKeepalive.
pub data Timer : Type 0 where
  absent stopped running : Timer

pub record Connection : Type 0 where
  pub protocol : Protocol
  pub use_heartbeat : Bool
  pub incoming : Buffer
  pub socket : Option Socket
  pub keep_alive_timer : Timer
  pub heartbeat_timer : Timer
  pub disconnect_reported : Bool

pub data Effect : Type 0 where
  written : Bytes → Effect  -- mSocket->write
  processed : Bytes → Effect  -- processData of the subclass
  connected : Effect
  disconnected : Effect
  closing : Effect  -- mSocket->disconnectFromHost

abbrev pub Step : Type 0
Step = Connection × List Effect

-- The constructor.
unfoldable pub new : Protocol → Bool → Connection
new p heartbeat = record {
  protocol = p;
  use_heartbeat = heartbeat;
  incoming = fresh;
  socket = none;
  keep_alive_timer = absent;
  heartbeat_timer = absent;
  disconnect_reported = false;
}

abbrev socket_valid : Option Socket → Bool
socket_valid none = false
socket_valid (some s) = s.is_valid

abbrev socket_open : Option Socket → Bool
socket_open none = false
socket_open (some s) = s.is_open

abbrev socket_connected : Option Socket → Bool
socket_connected none = false
socket_connected (some s) = s.is_connected

unfoldable pub is_valid : Connection → Bool
is_valid c = socket_valid c.socket

-- isConnected.
unfoldable pub is_connected : Connection → Bool
unfolding is_valid
is_connected c = is_valid c && socket_open c.socket

abbrev pub keepalive_text : Bytes
keepalive_text = codes "keepalive"

abbrev pub version_text : Bytes
version_text = codes "version"

-- trikKernel::version, after "version: ".
abbrev pub version_reply : Bytes
version_reply = codes "version: 3.1.4"

-- What was read is in the buffer, and the heartbeat timer starts again.
abbrev pub received : Connection → Bytes → Connection
received c chunk = record c {
  heartbeat_timer = if c.use_heartbeat then running else c.heartbeat_timer;
  incoming = record {
    buffer = c.incoming.buffer ++ chunk;
    expected_bytes = c.incoming.expected_bytes;
  };
}

module _ (d : Decimal) where
  abbrev framed : Protocol → Bytes → Bytes
  framed message_length message = packet d message
  framed end_of_line_separator message = message

  unfoldable pub send : Connection → Bytes → Step
  unfolding is_valid
  send c message =
      if is_valid c && socket_connected c.socket
      then (
        record c { keep_alive_timer = if c.use_heartbeat then running else c.keep_alive_timer },
        written (framed c.protocol message) ∷ [],
      )
      else (c, [])

  unfoldable pub handle_incoming_data : Connection → Bytes → Step
  handle_incoming_data c message =
      if list_eq message keepalive_text
      then (c, [])
      else if list_eq message version_text
      then send c version_reply
      else (c, processed message ∷ [])

  unfoldable pub handle_all : Connection → List Bytes → Step
  handle_all c [] = (c, [])
  handle_all c (m ∷ ms) =
      let (c', out) = handle_incoming_data c m in
      let (c'', more) = handle_all c' ms in (c'', out ++ more)

  -- processBuffer. Handling a message does not touch the buffer, so the messages of the whole
  -- buffer are handled after it was cut.
  unfoldable pub process_by : Protocol → Connection → Step
  process_by message_length c =
      let (rest, messages) = process_buffer d c.incoming in
      handle_all (record c { incoming = rest }) messages
  process_by end_of_line_separator c =
      let (rest, messages) = take_lines c.incoming.buffer in
      handle_all
        (record c {
          incoming = record { buffer = rest; expected_bytes = c.incoming.expected_bytes };
        })
        messages

  unfoldable pub process : Connection → Step
  process c = process_by c.protocol c

  -- onReadyRead.
  unfoldable pub ready_read : Connection → Bytes → Step
  ready_read c chunk = process (received c chunk)

  -- keepAlive, the timeout of the keepalive timer.
  unfoldable pub keep_alive : Connection → Step
  keep_alive c = send c keepalive_text

-- A timer that hears `disconnected`.
abbrev stop_timer : Timer → Timer
stop_timer absent = absent
stop_timer stopped = stopped
stop_timer running = stopped

-- doDisconnect. Its signal stops both timers.
unfoldable pub do_disconnect : Connection → Step
do_disconnect c = if c.disconnect_reported then (c, []) else (
  record c {
    disconnect_reported = true;
    keep_alive_timer = stop_timer c.keep_alive_timer;
    heartbeat_timer = stop_timer c.heartbeat_timer;
  },
  disconnected ∷ [],
)

-- onConnect.
unfoldable pub on_connect : Connection → Step
on_connect c =
    if c.use_heartbeat
    then (record c { keep_alive_timer = running; heartbeat_timer = running }, [])
    else (c, [])

-- onDisconnect, and onError after its log line.
unfoldable pub on_disconnect : Connection → Step
on_disconnect c = do_disconnect c

-- onHeartbeatTimeout.
unfoldable pub on_heartbeat_timeout : Connection → Step
on_heartbeat_timeout c = elim c.socket [ none ↦ (c, []) | some s ↦ (c, closing ∷ []) ]

-- restartKeepalive.
unfoldable pub restart_keepalive : Connection → Connection
restart_keepalive c =
    if c.use_heartbeat
    then record c { keep_alive_timer = running; heartbeat_timer = running }
    else c

-- resetSocket: a new QTcpSocket, neither valid nor open.
unfoldable pub reset_socket : Connection → Connection
reset_socket c = record c {
  socket = some (record { is_valid = false; is_open = false; is_connected = false });
}

abbrev established : Socket
established = record { is_valid = true; is_open = true; is_connected = true }

-- init with an address and a port: the answer of waitForConnected is given. A socket that
-- connects signals it while the call waits.
unfoldable pub init_outgoing : Connection → Bool → Step
unfolding reset_socket restart_keepalive on_connect do_disconnect
init_outgoing c answered =
    let ready = restart_keepalive (reset_socket c) in
    if answered
    then ((on_connect (record ready { socket = some established })).0, connected ∷ [])
    else do_disconnect ready

-- init with a socket descriptor: the answer of setSocketDescriptor is given.
unfoldable pub init_incoming : Connection → Bool → Step
unfolding reset_socket restart_keepalive
init_incoming c accepted =
    let fresh_socket = reset_socket c in
    if accepted
    then (restart_keepalive (record fresh_socket { socket = some established }), [])
    else (fresh_socket, [])

-- What can happen to a connection.
pub data Event : Type 0 where
  connects : Bool → Event
  accepts : Bool → Event
  sends : Bytes → Event
  receives : Bytes → Event
  socket_changes : Socket → Event  -- the state that the socket reports
  socket_connects socket_disconnects keepalive_timeout heartbeat_timeout : Event

module _ (d : Decimal) where
  unfoldable pub step : Connection → Event → Step
  step c (connects answered) = init_outgoing c answered
  step c (accepts accepted) = init_incoming c accepted
  step c (sends message) = send d c message
  step c (receives chunk) = ready_read d c chunk
  step c (socket_changes s) = (record c { socket = some s }, [])
  step c socket_connects = on_connect c
  step c socket_disconnects = on_disconnect c
  step c keepalive_timeout = keep_alive d c
  step c heartbeat_timeout = on_heartbeat_timeout c

  unfoldable pub run : Connection → List Event → Step
  run c [] = (c, [])
  run c (e ∷ es) = let (c', out) = step c e in let (c'', more) = run c' es in (c'', out ++ more)
