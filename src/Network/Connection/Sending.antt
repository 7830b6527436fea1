-- ===== src/Network/Connection/Sending.antt =====
-- From one end of a connection to the other.
use trik_runtime.Prelude.{
  ◌<◌, ◌^◌, ◌≡◌, refl, ap, ap₂, subst, sym, ◌∙◌, ◌++◌, true, List, [], ◌∷◌, if◌then◌else◌, arith,
  ◌&&◌, map, flatten, length, All, list_eq, append_assoc, append-nil,
}
use trik_runtime.Text.{Bytes, Decimal}
use trik_runtime.Network.Framing.{fresh, packet, reads, on_ready_read, process_buffer}
use trik_runtime.Network.Framing.RoundTrip.{not_empty, reads-packets}
use trik_runtime.Network.Connection.{
  Connection, Protocol, Effect, Step, written, processed, connected, disconnected, closing,
  is_valid, socket_connected, send, handle_incoming_data, handle_all, process_by, process, received,
  ready_read, keepalive_text, version_text, version_reply,
}

-- The bytes that were written to the socket.
abbrev pub written_bytes : List Effect → Bytes
written_bytes [] = []
written_bytes (written b ∷ es) = b ++ written_bytes es
written_bytes (processed b ∷ es) = written_bytes es
written_bytes (connected ∷ es) = written_bytes es
written_bytes (disconnected ∷ es) = written_bytes es
written_bytes (closing ∷ es) = written_bytes es

-- The messages that reached processData.
abbrev pub processed_of : List Effect → List Bytes
processed_of [] = []
processed_of (processed b ∷ es) = b ∷ processed_of es
processed_of (written b ∷ es) = processed_of es
processed_of (connected ∷ es) = processed_of es
processed_of (disconnected ∷ es) = processed_of es
processed_of (closing ∷ es) = processed_of es

processed_of-append :
    (xs ys : List Effect) → processed_of (xs ++ ys) ≡ processed_of xs ++ processed_of ys
processed_of-append [] ys = refl
processed_of-append (processed b ∷ es) ys = ap (◌∷◌ b) (processed_of-append es ys)
processed_of-append (written b ∷ es) ys = processed_of-append es ys
processed_of-append (connected ∷ es) ys = processed_of-append es ys
processed_of-append (disconnected ∷ es) ys = processed_of-append es ys
processed_of-append (closing ∷ es) ys = processed_of-append es ys

-- The messages that the connection does not answer itself.
abbrev pub for_subclass : List Bytes → List Bytes
for_subclass [] = []
for_subclass (m ∷ ms) =
    let rest = for_subclass ms in
    if list_eq m keepalive_text then rest else if list_eq m version_text then rest else m ∷ rest

for_subclass-append :
    (xs ys : List Bytes) → for_subclass (xs ++ ys) ≡ for_subclass xs ++ for_subclass ys
for_subclass-append [] ys = refl
for_subclass-append (m ∷ ms) ys = ground (arith, for_subclass-append ms ys)

-- A socket through which `send` writes.
abbrev pub CanSend : Connection → Type 0
CanSend c = (is_valid c && socket_connected c.socket) ≡ true

written_bytes-append :
    (xs ys : List Effect) → written_bytes (xs ++ ys) ≡ written_bytes xs ++ written_bytes ys
written_bytes-append [] ys = refl
written_bytes-append (written b ∷ es) ys =
    ap (◌++◌ b) (written_bytes-append es ys)
    ∙ sym (append_assoc b (written_bytes es) (written_bytes ys))
written_bytes-append (processed b ∷ es) ys = written_bytes-append es ys
written_bytes-append (connected ∷ es) ys = written_bytes-append es ys
written_bytes-append (disconnected ∷ es) ys = written_bytes-append es ys
written_bytes-append (closing ∷ es) ys = written_bytes-append es ys

module _ (d : Decimal) where
  unfoldable pub send_all : Connection → List Bytes → Step
  send_all c [] = (c, [])
  send_all c (m ∷ ms) =
      let (c', out) = send d c m in let (c'', more) = send_all c' ms in (c'', out ++ more)

  unfoldable pub ready_reads : Connection → List Bytes → Step
  ready_reads c [] = (c, [])
  ready_reads c (b ∷ bs) =
      let (c', out) = ready_read d c b in let (c'', more) = ready_reads c' bs in (c'', out ++ more)

  -- A message goes out as one packet, whole, where the socket is valid and connected, and is
  -- dropped with no other change where it is not.
  pub send_cases :
      (c : Connection) (m : Bytes)
      → c.protocol ≡ Protocol.message_length
      → written_bytes (send d c m).1
        ≡ (if is_valid c && socket_connected c.socket then packet d m else [])
  unfolding send
  send_cases c m p = ground (arith, append-nil (packet d m))

  send_keeps :
      (c : Connection) (m : Bytes)
      → ((send d c m).0.socket ≡ c.socket)
        × ((send d c m).0.protocol ≡ c.protocol)
        × ((send d c m).0.incoming ≡ c.incoming)
        × (processed_of (send d c m).1 ≡ [])
  unfolding send
  send_keeps c m = ground arith

  CanSend-send : (c : Connection) (m : Bytes) → CanSend c → CanSend (send d c m).0
  unfolding is_valid
  CanSend-send c m s = rw (send_keeps c m).0 s

  written_bytes-send_all :
      (c : Connection) (ms : List Bytes)
      → c.protocol ≡ Protocol.message_length
      → CanSend c
      → written_bytes (send_all c ms).1 ≡ flatten (map (packet d) ms)
  unfolding send_all flatten
  written_bytes-send_all c [] p s = refl
  written_bytes-send_all c (m ∷ ms) p s =
      let (c', out) = send d c m in
      rw (written_bytes-append out (send_all c' ms).1) (
        ap₂ ◌++◌ (send_cases c m p ∙ rw s)
          (written_bytes-send_all c' ms ((send_keeps c m).1 ∙ p) (CanSend-send c m s)))

  handle_incoming_data-processed_of :
      (c : Connection) (m : Bytes)
      → (processed_of (handle_incoming_data d c m).1 ≡ for_subclass (m ∷ []))
        × ((handle_incoming_data d c m).0.protocol ≡ c.protocol)
        × ((handle_incoming_data d c m).0.incoming ≡ c.incoming)
  unfolding handle_incoming_data
  handle_incoming_data-processed_of c m = ground (arith, send_keeps c version_reply)

  handle_all-processed_of :
      (c : Connection) (ms : List Bytes)
      → (processed_of (handle_all d c ms).1 ≡ for_subclass ms)
        × ((handle_all d c ms).0.protocol ≡ c.protocol)
        × ((handle_all d c ms).0.incoming ≡ c.incoming)
  unfolding handle_all
  handle_all-processed_of c [] = (refl, refl, refl)
  handle_all-processed_of c (m ∷ ms) =
      let (c', out) = handle_incoming_data d c m in
      let rest = handle_all-processed_of c' ms in
      let first = handle_incoming_data-processed_of c m in
      (
        processed_of-append out (handle_all d c' ms).1
            ∙ ap₂ ◌++◌ first.0 rest.0
            ∙ sym (for_subclass-append (m ∷ []) ms),
        rest.1 ∙ first.1,
        rest.2 ∙ first.2,
      )

  abbrev Reads : Connection → Bytes → Step → Type 0
  Reads c b (c', out) =
      (processed_of out ≡ for_subclass (on_ready_read d c.incoming b).1)
      × (c'.protocol ≡ Protocol.message_length)
      × (c'.incoming ≡ (on_ready_read d c.incoming b).0)

  process_by-Reads :
      (c : Connection) (b : Bytes)
      → c.protocol ≡ Protocol.message_length
      → Reads c b (process_by d Protocol.message_length (received c b))
  unfolding process_by on_ready_read
  process_by-Reads c b p =
      let (rest, messages) = process_buffer d (received c b).incoming in
      let run = handle_all-processed_of (record (received c b) { incoming = rest }) messages in
      (run.0, run.1 ∙ p, run.2)

  ready_read-Reads :
      (c : Connection) (b : Bytes)
      → c.protocol ≡ Protocol.message_length
      → Reads c b (ready_read d c b)
  unfolding ready_read process
  ready_read-Reads c b p =
      subst (λ q. Reads c b (process_by d q (received c b))) (sym p) (process_by-Reads c b p)

  ready_reads-processed_of :
      (c : Connection) (bs : List Bytes)
      → c.protocol ≡ Protocol.message_length
      → processed_of (ready_reads c bs).1 ≡ for_subclass (reads d c.incoming bs).1
  unfolding ready_reads reads
  ready_reads-processed_of c [] p = refl
  ready_reads-processed_of c (b ∷ bs) p =
      let (c', out) = ready_read d c b in
      let first = ready_read-Reads c b p in
      processed_of-append out (ready_reads c' bs).1
      ∙ ap₂ ◌++◌ first.0 (ready_reads-processed_of c' bs first.1 ∙ rw first.2)
      ∙ sym (for_subclass-append (on_ready_read d c.incoming b).1 _)

  -- Whatever one end sends through a connected socket reaches the subclass at the other end: every
  -- message but the empty ones and the two that the connection answers itself, in order, however
  -- the stream is cut. Both ends use the length framing, the receiver's buffer is fresh, and the
  -- messages are shorter than 2 ^ 31 bytes.
  pub ready_reads-send_all :
      (sender receiver : Connection) (ms cs : List Bytes)
      → sender.protocol ≡ Protocol.message_length
      → CanSend sender
      → receiver.protocol ≡ Protocol.message_length
      → receiver.incoming ≡ fresh
      → All (λ m. length m < 2 ^ 31) ms
      → flatten cs ≡ written_bytes (send_all sender ms).1
      → processed_of (ready_reads receiver cs).1 ≡ for_subclass (not_empty ms)
  ready_reads-send_all sender receiver ms cs p s q f h e =
      ready_reads-processed_of receiver cs q
      ∙ rw (f, reads-packets d ms cs h (e ∙ written_bytes-send_all sender ms p s))
