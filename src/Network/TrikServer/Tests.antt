-- ===== src/Network/TrikServer/Tests.antt =====
-- Histories of a server. A host is a number.
use trik_runtime.Prelude.{ℕ, ◌≡◌, refl, false, true, some, [], ◌∷◌, not, is_empty}
use trik_runtime.Prelude.Int.{pos}
use trik_runtime.Network.TrikServer.{
  Link, TrikServer, connected, disconnected, new, on_started, on_connection_closed,
}
use trik_runtime.Network.TrikServer.Signals.{follow, History, begin, start, close, follow-History}

abbrev link : Link ℕ
link = record {
  id = 4;
  is_valid = true;
  is_connected = true;
  peer_address = 7;
  peer_port = pos 50000;
  ip = 0;
  port = pos 0;
  is_started = true;
  thread_finished = false;
}

abbrev opened : TrikServer ℕ
opened = (on_started new 11 link).0

visit : History (on_connection_closed opened link).0 (connected ∷ disconnected ∷ [])
unfolding new on_started on_connection_closed
visit = close 11 link refl (start 11 link (begin new refl))

follow-History_example :
    follow false (connected ∷ disconnected ∷ [])
    ≡ some (not (is_empty (on_connection_closed opened link).0.connections))
follow-History_example = follow-History visit
