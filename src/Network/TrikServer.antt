-- ===== src/Network/TrikServer.antt =====
-- trikNetwork/src/trikServer.cpp: the connections that a server keeps.

pub mod Signals
mod Tests
use trik_runtime.Prelude.{
  ℕ, suc, ◌≡◌, Bool, true, false, Option, none, some, List, [], ◌∷◌, if◌then◌else◌, ◌==◌, ◌&&◌, not,
  Eq, is_empty,
}
use trik_runtime.Prelude.Int.{ℤ, eq_ℤ}

-- A connection as the server asks it. `ip` and `port` are those that preinitConnection stored.
pub record Link (Host : Type 0) : Type 0 where
  pub id : ℕ
  pub is_valid : Bool
  pub is_connected : Bool
  pub peer_address : Host
  pub peer_port : ℤ
  pub ip : Host
  pub port : ℤ
  pub is_started : Bool
  pub thread_finished : Bool

-- mConnections, by the thread of each connection, and notPreparedConnections.
pub record TrikServer (Host : Type 0) : Type 0 where
  pub connections : List (ℕ × Link Host)
  pub not_prepared : List (Link Host)

pub data Signal : Type 0 where
  connected disconnected : Signal

module _ {Host : Type 0} where
  -- The constructor.
  unfoldable pub new : TrikServer Host
  new = record { connections = []; not_prepared = [] }

  abbrev pub put : ℕ → Link Host → List (ℕ × Link Host) → List (ℕ × Link Host)
  put thread c [] = (thread, c) ∷ []
  put thread c ((t, l) ∷ rest) =
      if t == thread then (thread, c) ∷ rest else (t, l) ∷ put thread c rest

  -- The slot of startedConnection.
  unfoldable pub on_started : TrikServer Host → ℕ → Link Host → TrikServer Host × List Signal
  on_started s thread c = (
    record s { connections = put thread c s.connections },
    if is_empty s.connections then connected ∷ [] else [],
  )

  abbrev pub without_link : ℕ → List (Link Host) → List (Link Host)
  without_link id [] = []
  without_link id (l ∷ ls) = let rest = without_link id ls in if l.id == id then rest else l ∷ rest

  -- mConnections.key(connection): its thread, or a null thread.
  abbrev pub thread_of : ℕ → List (ℕ × Link Host) → Option ℕ
  thread_of id [] = none
  thread_of id ((t, l) ∷ rest) = if l.id == id then some t else thread_of id rest

  abbrev pub without_thread : ℕ → List (ℕ × Link Host) → List (ℕ × Link Host)
  without_thread thread [] = []
  without_thread thread ((t, l) ∷ rest) =
      let others = without_thread thread rest in if t == thread then others else (t, l) ∷ others

  abbrev pub drop_thread : Option ℕ → List (ℕ × Link Host) → List (ℕ × Link Host)
  drop_thread none connections = connections
  drop_thread (some thread) connections = without_thread thread connections

  -- onConnectionClosed, for a connection that has a thread in mConnections; the thread that is
  -- told to quit is the second result, `none` where the source calls through a null pointer.
  unfoldable pub on_connection_closed :
      TrikServer Host → Link Host → TrikServer Host × Option ℕ × List Signal
  on_connection_closed s c =
      let thread = thread_of c.id s.connections in
      let rest = drop_thread thread s.connections in
      (
        record s { connections = rest; not_prepared = without_link c.id s.not_prepared },
        thread,
        if is_empty rest then disconnected ∷ [] else [],
      )

  -- preinitConnection.
  unfoldable pub preinit_connection : TrikServer Host → Link Host → TrikServer Host
  preinit_connection s c = record s { not_prepared = c ∷ without_link c.id s.not_prepared }

  abbrev pub count_connections : List (ℕ × Link Host) → ℕ
  count_connections [] = 0
  count_connections (_ ∷ rest) = suc (count_connections rest)

  -- activeConnections.
  unfoldable pub active_connections : TrikServer Host → ℕ
  active_connections s = count_connections s.connections

module _ {Host : Type 0} ⦃e : Eq Host⦄ where
  abbrev pub is_peer : Host → ℤ → Link Host → Bool
  is_peer ip port l = l.is_valid && (e.beq l.peer_address ip && eq_ℤ l.peer_port port)

  abbrev pub is_awaited : Host → ℤ → Link Host → Bool
  is_awaited ip port l =
      (eq_ℤ l.port port && e.beq l.ip ip) && (not l.thread_finished && not l.is_started)

  abbrev pub find_peer : Host → ℤ → List (ℕ × Link Host) → Option (Link Host)
  find_peer ip port [] = none
  find_peer ip port ((t, l) ∷ rest) = if is_peer ip port l then some l else find_peer ip port rest

  abbrev pub find_awaited : Host → ℤ → List (Link Host) → Option (Link Host)
  find_awaited ip port [] = none
  find_awaited ip port (l ∷ rest) =
      if is_awaited ip port l then some l else find_awaited ip port rest

  abbrev pub or_else : Option (Link Host) → Option (Link Host) → Option (Link Host)
  or_else none b = b
  or_else (some l) b = some l

  -- connection(ip, port).
  unfoldable pub connection : TrikServer Host → Host → ℤ → Option (Link Host)
  connection s ip port =
      or_else (find_peer ip port s.connections) (find_awaited ip port s.not_prepared)

  abbrev pub find_address : Host → List (ℕ × Link Host) → Option (Link Host)
  find_address ip [] = none
  find_address ip ((t, l) ∷ rest) =
      if l.is_valid && e.beq l.peer_address ip then some l else find_address ip rest

  -- connection(ip).
  unfoldable pub connection_at : TrikServer Host → Host → Option (Link Host)
  connection_at s ip = find_address ip s.connections
