-- ===== src/Network/MailboxServer/Calls.antt =====
-- trikNetwork/src/mailboxServer.cpp: the calls that reach other robots. What is asked of a
-- connection is a value; QMetaObject::invokeMethod queues it in the thread of the connection.
pub mod Invariant
pub mod Newcomers
mod Tests
use trik_runtime.Prelude.{
  ℕ, suc, ◌+◌, ◌≡◌, Bool, true, false, Option, none, some, List, [], ◌∷◌, ◌++◌, if◌then◌else◌, ◌==◌,
  ◌&&◌, not, Eq, is_empty, list_eq, zero, ◌%◌,
}
use trik_runtime.Prelude.Int.{ℤ, pos, negsuc, eq_ℤ}
use trik_runtime.Text.{Bytes}
use trik_runtime.Network.TrikServer.{TrikServer, Link, connection, preinit_connection}
use trik_runtime.Network.MailboxServer.{
  Endpoint, Robots, MailboxServer, minus_one, same_endpoint, key, contains_pair, is_self,
  on_connection_info, on_new_data, receive, dequeue,
}

pub data Request (Host : Type 0) : Type 0 where
  send_connection_info : Host → ℤ → ℤ → Request Host
  send_self_info : ℤ → Request Host
  send_data : Bytes → Request Host

-- What a call does: a request to a connection, now or when it gets connected; a connection that is
-- started; settings that are saved.
pub data Effect (Host : Type 0) : Type 0 where
  invoked : ℕ → Request Host → Effect Host
  deferred : ℕ → Endpoint Host → ℤ → Request Host → Effect Host
  started : ℕ → Host → ℤ → Effect Host
  saved_settings : ℤ → Host → ℤ → Host → Effect Host

pub data Call (Host : Type 0) : Type 0 where
  joins : List Host → Bool → Bool → ℤ → ℤ → Call Host
  connects : List Host → Bool → ℤ → Call Host
  sets_hull_number : ℤ → Call Host
  sends : ℤ → Bytes → Call Host
  is_connected_to : Link Host → Endpoint Host → ℤ → Request Host → Call Host
  hears_connection : Host → ℤ → ℤ → ℤ → Call Host
  hears_info : Host → ℤ → ℤ → Call Host
  hears_data : Host → ℤ → Bytes → Call Host
  receives : Call Host
  links : TrikServer Host → Call Host

abbrev pub Step : Type 0 → Type 0
Step Host = MailboxServer Host × List (Effect Host)

abbrev pub has_key : ℤ → List ℤ → Bool
has_key k [] = false
has_key k (j ∷ js) = if eq_ℤ j k then true else has_key k js

module _ {Host : Type 0} where
  abbrev pub continue : Step Host → (MailboxServer Host → Step Host) → Step Host
  continue (m, out) f = let (m', more) = f m in (m', out ++ more)

  -- mKnownRobots.uniqueKeys().
  abbrev pub unique_keys : Robots Host → List ℤ
  unique_keys [] = []
  unique_keys ((k, r) ∷ rest) =
      let others = unique_keys rest in if has_key k others then others else k ∷ others

  -- mKnownRobots.values(key) and mKnownRobots.values().
  abbrev pub values : ℤ → Robots Host → List (Endpoint Host)
  values k [] = []
  values k ((j, r) ∷ rest) = let more = values k rest in if eq_ℤ j k then r ∷ more else more

  abbrev pub all_values : Robots Host → List (Endpoint Host)
  all_values [] = []
  all_values ((j, r) ∷ rest) = r ∷ all_values rest

-- `null` is QHostAddress().
module _ {Host : Type 0} ⦃e : Eq Host⦄ (null : Host) where
  -- A connection that connectionFactory makes.
  abbrev pub new_link : MailboxServer Host → Host → ℤ → Link Host
  new_link m ip port = record {
    id = m.next_id;
    is_valid = false;
    is_connected = false;
    peer_address = null;
    peer_port = minus_one;
    ip = ip;
    port = port;
    is_started = false;
    thread_finished = false;
  }

  -- connectTo with an address: the connection, or none where it would be to ourselves.
  unfoldable pub connect_to_address : MailboxServer Host → Host → ℤ → Step Host × Option (Link Host)
  connect_to_address m ip port =
      if is_self m ip port && m.is_listening
      then ((m, []), none)
      else (elim (connection m.server ip port) [
        | some l ↦ ((m, []), some l)
        | none ↦
            let l = new_link m ip port in
            (
              (
                record m { server = preinit_connection m.server l; next_id = suc m.next_id },
                started l.id ip port ∷ [],
              ),
              some l,
            )
      ])

  -- prepareConnection.
  unfoldable pub prepare_connection :
      MailboxServer Host → Endpoint Host → Step Host × Option (Link Host)
  prepare_connection m r =
      let fresh = connect_to_address m r.ip r.server_port in
      if eq_ℤ r.connected_port minus_one
      then fresh
      else (elim (connection m.server r.ip r.connected_port) [
        | some l ↦ ((m, []), some l)
        | none ↦ fresh
      ])

  -- The body of the loops of forEveryConnection, with the connection that was prepared.
  unfoldable pub deliver :
      MailboxServer Host → ℤ → Endpoint Host → Request Host → Option (Link Host) → Step Host
  deliver m k r a none = (m, [])
  deliver m k r a (some l) =
      if l.is_connected
      then (on_connection_info m l.peer_address r.server_port k l.peer_port, invoked l.id a ∷ [])
      else (m, deferred l.id r k a ∷ [])

  unfoldable pub reach : MailboxServer Host → ℤ → Endpoint Host → Request Host → Step Host
  reach m k r a =
      let (prepared, l) = prepare_connection m r in continue prepared (λ m'. deliver m' k r a l)

  unfoldable pub reach_values :
      MailboxServer Host → ℤ → List (Endpoint Host) → Request Host → Step Host
  reach_values m k [] a = (m, [])
  reach_values m k (r ∷ rs) a = continue (reach m k r a) (λ m'. reach_values m' k rs a)

  unfoldable pub reach_keys : MailboxServer Host → ℤ → List ℤ → Request Host → Step Host
  reach_keys m hull [] a = (m, [])
  reach_keys m hull (k ∷ ks) a =
      let skipped = reach_keys m hull ks a in
      let done =
        continue (reach_values m k (values k m.known_robots) a) (λ m'. reach_keys m' hull ks a) in
      if not (eq_ℤ hull minus_one) && not (eq_ℤ k hull) then skipped else done

  -- forEveryConnection.
  unfoldable pub for_every_connection : MailboxServer Host → Request Host → ℤ → Step Host
  for_every_connection m a hull = reach_keys m hull (unique_keys m.known_robots) a

  -- The slot of `connected` that forEveryConnection leaves behind.
  unfoldable pub on_connected :
      MailboxServer Host → Link Host → Endpoint Host → ℤ → Request Host → Step Host
  on_connected m l r k a =
      (on_connection_info m l.peer_address r.server_port k l.peer_port, invoked l.id a ∷ [])

  -- send with a hull number; -1 sends to all.
  unfoldable pub send : MailboxServer Host → ℤ → Bytes → Step Host
  send m hull message = for_every_connection m (send_data message) hull

  -- saveSettings.
  unfoldable pub save_settings : MailboxServer Host → List (Effect Host)
  save_settings m = saved_settings m.hull_number m.server_ip m.server_port m.my_ip ∷ []

  -- setHullNumber.
  unfoldable pub set_hull_number : MailboxServer Host → ℤ → Step Host
  set_hull_number m hull =
      let m' = record m { hull_number = hull } in
      continue (m', save_settings m')
        (λ s. for_every_connection s (send_connection_info s.my_ip s.my_port hull) minus_one)

  -- connectTo with a name: `addresses` is what QHostInfo::fromName finds for it, and `same` tells
  -- whether the name is the text of the server's address.
  unfoldable pub connect_to : MailboxServer Host → List Host → Bool → ℤ → Step Host
  connect_to m addresses same port =
      if same && eq_ℤ m.server_port port
      then (connect_to_address m m.server_ip m.server_port).0
      else (elim addresses [
        | [] ↦ (m, [])
        | ip ∷ _ ↦
            let m' = record m { server_ip = ip; server_port = port } in
            continue (m', save_settings m') (λ s. (connect_to_address s ip port).0)
      ])

  abbrev pub join_to : List Host → Bool → Bool → ℤ → MailboxServer Host → Step Host
  join_to addresses same given port m =
      if given
      then connect_to m addresses same (if eq_ℤ port minus_one then m.my_port else port)
      else (m, [])

  -- joinNetwork, where `given` tells whether the name is not empty.
  unfoldable pub join_network : MailboxServer Host → List Host → Bool → Bool → ℤ → ℤ → Step Host
  join_network m addresses same given port hull =
      continue (if eq_ℤ hull minus_one then (m, []) else set_hull_number m hull)
        (join_to addresses same given port)

  -- The infos about the known robots that a new connection gets.
  abbrev pub introductions : ℕ → Robots Host → List (Endpoint Host) → List (Effect Host)
  introductions id robots [] = []
  introductions id robots (r ∷ rs) =
      invoked id (send_connection_info r.ip r.server_port (key r robots))
      ∷ introductions id robots rs

  abbrev pub welcome :
      MailboxServer Host
      → Host
      → ℤ
      → ℤ
      → ℤ
      → Bool
      → List (Endpoint Host)
      → Option (Link Host)
      → Step Host
  welcome m ip client_port server_port hull known endpoints none = (m, [])
  welcome m ip client_port server_port hull known endpoints (some l) = (
    if known then m else on_connection_info m ip server_port hull client_port,
    introductions l.id m.known_robots endpoints
        ++ (invoked l.id (send_self_info m.hull_number) ∷ []),
  )

  -- Propagates the news of a robot that was not known.
  abbrev pub spread : MailboxServer Host → Host → ℤ → ℤ → Bool → Step Host
  spread m ip server_port hull true = (m, [])
  spread m ip server_port hull false =
      for_every_connection m (send_connection_info ip server_port hull) minus_one

  abbrev pub is_known : MailboxServer Host → Host → ℤ → ℤ → ℤ → Bool
  is_known m ip client_port server_port hull =
      contains_pair hull
        (record { ip = ip; server_port = server_port; connected_port = client_port }) m.known_robots

  abbrev pub greet : Host → ℤ → ℤ → ℤ → Bool → List (Endpoint Host) → MailboxServer Host → Step Host
  greet ip client_port server_port hull known endpoints m =
      welcome m ip client_port server_port hull known endpoints (connection m.server ip client_port)

  -- onNewConnection.
  unfoldable pub on_new_connection : MailboxServer Host → Host → ℤ → ℤ → ℤ → Step Host
  on_new_connection m ip client_port server_port hull =
      let known = is_known m ip client_port server_port hull in
      if is_self m ip server_port
      then (m, [])
      else continue (spread m ip server_port hull known)
          (greet ip client_port server_port hull known (all_values m.known_robots))

  -- What can happen to a mailbox while its own address and port stay as they are. `links` is the
  -- environment: connections start, get connected and go.
  unfoldable pub step : MailboxServer Host → Call Host → Step Host
  step m (joins addresses same given port hull) = join_network m addresses same given port hull
  step m (connects addresses same port) = connect_to m addresses same port
  step m (sets_hull_number hull) = set_hull_number m hull
  step m (sends hull message) = send m hull message
  step m (is_connected_to l r k a) = on_connected m l r k a
  step m (hears_connection ip client_port server_port hull) =
      on_new_connection m ip client_port server_port hull
  step m (hears_info ip server_port hull) = (on_connection_info m ip server_port hull minus_one, [])
  step m (hears_data ip port message) = ((on_new_data m ip port message).0, [])
  step m receives = ((receive m).0, [])
  step m (links server) = (record m { server = server }, [])

  unfoldable pub run : MailboxServer Host → List (Call Host) → Step Host
  run m [] = (m, [])
  run m (c ∷ cs) = continue (step m c) (λ m'. run m' cs)

  -- renewIp, with the address that determineMyIp finds.
  unfoldable pub renew_ip : MailboxServer Host → Host → MailboxServer Host
  renew_ip m ip = record m { my_ip = ip }
