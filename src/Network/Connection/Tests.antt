-- ===== src/Network/Connection/Tests.antt =====
-- Runs of a connection.
use trik_runtime.Prelude.{◌≡◌, refl, ◌≤◌, [], ◌∷◌, List, arith, true, if◌then◌else◌, flatten}
use trik_runtime.Text.{Bytes, codes}
use trik_runtime.Text.Decimals.{decimal, number, to_int}
use trik_runtime.Network.Framing.{packet, process_buffer, round}
use trik_runtime.Network.Connection.{
  Connection, Protocol, Event, new, send, is_valid, ready_read, process, process_by, handle_all,
  handle_incoming_data, init_incoming, init_outgoing, run, keepalive_text, version_text,
}
use trik_runtime.Network.Connection.Disconnects.{reports, reports-run}
use trik_runtime.Network.Connection.Sending.{
  processed_of, written_bytes, send_all, ready_reads, ready_reads-send_all,
}

abbrev server : Connection
unfolding init_incoming new
server = (init_incoming (new Protocol.message_length true) true).0

abbrev client : Connection
unfolding init_outgoing new
client = (init_outgoing (new Protocol.message_length true) true).0

abbrev messages : List Bytes
messages = codes "self:3" ∷ keepalive_text ∷ [] ∷ version_text ∷ codes "data:hi" ∷ []

-- "6:self:39:keepalive0:7:version7:data:hi", in three reads.
abbrev chunks : List Bytes
chunks = codes "6:sel" ∷ codes "f:39:keepalive0:7:v" ∷ codes "ersion7:data:hi" ∷ []

ready_reads-send_all_example :
    processed_of (ready_reads decimal server chunks).1 ≡ codes "self:3" ∷ codes "data:hi" ∷ []
unfolding server client packet number flatten send_all send is_valid init_incoming init_outgoing new
ready_reads-send_all_example =
    ready_reads-send_all decimal client server messages chunks refl refl refl refl (omega arith)
      refl

-- The version is answered while the messages are handled.
version_run : written_bytes (ready_reads decimal server chunks).1 ≡ codes "14:version: 3.1.4"
unfolding server ready_reads ready_read process process_by handle_all handle_incoming_data send
    is_valid process_buffer round to_int packet number init_incoming new
version_run = refl

abbrev ending : List Event
ending =
    Event.connects true
    ∷ Event.socket_disconnects
    ∷ Event.sends (codes "late")
    ∷ Event.socket_disconnects
    ∷ []

reports-run_example :
    let (c, out) = run decimal (new Protocol.message_length true) ending in
    (reports out ≤ 1) × (reports out ≡ (if c.disconnect_reported then 1 else 0))
reports-run_example = reports-run decimal Protocol.message_length true ending
