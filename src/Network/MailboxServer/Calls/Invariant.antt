-- ===== src/Network/MailboxServer/Calls/Invariant.antt =====
-- Every call keeps what the mailbox knows consistent.
use trik_runtime.Prelude.{
  Bool, true, false, Option, none, some, List, [], ◌∷◌, if◌then◌else◌, Eq, arith, Bool-cases, inl,
  inr, not, ◌&&◌,
}
use trik_runtime.Prelude.Int.{ℤ, eq_ℤ}
use trik_runtime.Network.TrikServer.{Link, connection}
use trik_runtime.Network.MailboxServer.{
  Endpoint, MailboxServer, minus_one, on_new_data, receive, is_self,
}
use trik_runtime.Network.MailboxServer.Robots.{Inv, on_connection_info-Inv}
use trik_runtime.Network.MailboxServer.Calls.{
  Request, Step, Call, joins, connects, sets_hull_number, sends, is_connected_to, hears_connection,
  hears_info, hears_data, receives, links, step, run, continue, values, unique_keys, all_values,
  connect_to_address, prepare_connection, deliver, reach, reach_values, reach_keys,
  for_every_connection, on_connected, send, set_hull_number, connect_to, join_network, welcome,
  spread, greet, is_known, join_to, on_new_connection,
}

module _ {Host : Type 0} ⦃e : Eq Host⦄ (null : Host) where
  continue-Inv :
      (s : Step Host) (f : MailboxServer Host → Step Host)
      → Inv s.0
      → ((m : MailboxServer Host) → Inv m → Inv (f m).0)
      → Inv (continue s f).0
  continue-Inv (m, out) f v keep = keep m v

  connect_to_address-Inv :
      (m : MailboxServer Host) (ip : Host) (port : ℤ)
      → Inv m
      → Inv (connect_to_address null m ip port).0.0
  unfolding connect_to_address
  connect_to_address-Inv m ip port v = ground (arith, v.distinct, v.not_self)

  prepare_connection-Inv :
      (m : MailboxServer Host) (r : Endpoint Host) → Inv m → Inv (prepare_connection null m r).0.0
  unfolding prepare_connection
  prepare_connection-Inv m r v = ground (arith, connect_to_address-Inv m r.ip r.server_port v)

  deliver-Inv :
      (m : MailboxServer Host) (k : ℤ) (r : Endpoint Host) (a : Request Host)
      (l : Option (Link Host))
      → Inv m
      → Inv (deliver null m k r a l).0
  unfolding deliver
  deliver-Inv m k r a none v = v
  deliver-Inv m k r a (some l) v =
      ground (arith, on_connection_info-Inv m l.peer_address r.server_port k l.peer_port v)

  reach_values-Inv :
      (k : ℤ) (rs : List (Endpoint Host)) (a : Request Host) (m : MailboxServer Host)
      → Inv m
      → Inv (reach_values null m k rs a).0
  unfolding reach_values reach
  reach_values-Inv k [] a m v = v
  reach_values-Inv k (r ∷ rs) a m v =
      let (prepared, l) = prepare_connection null m r in
      continue-Inv (continue prepared (λ m'. deliver null m' k r a l))
        (λ m'. reach_values null m' k rs a)
        (deliver-Inv prepared.0 k r a l (prepare_connection-Inv m r v)) (reach_values-Inv k rs a)

  reach_keys-Inv :
      (hull : ℤ) (ks : List ℤ) (a : Request Host) (m : MailboxServer Host)
      → Inv m
      → Inv (reach_keys null m hull ks a).0
  unfolding reach_keys
  reach_keys-Inv hull [] a m v = v
  reach_keys-Inv hull (k ∷ ks) a m v =
      elim (Bool-cases (not (eq_ℤ hull minus_one) && not (eq_ℤ k hull))) [
        | inl q ↦ rw q (reach_keys-Inv hull ks a m v)
        | inr q ↦
            rw q (reach_keys-Inv hull ks a _ (reach_values-Inv k (values k m.known_robots) a m v))
      ]

  pub for_every_connection-Inv :
      (m : MailboxServer Host) (a : Request Host) (hull : ℤ)
      → Inv m
      → Inv (for_every_connection null m a hull).0
  unfolding for_every_connection
  for_every_connection-Inv m a hull v = reach_keys-Inv hull (unique_keys m.known_robots) a m v

  set_hull_number-Inv :
      (m : MailboxServer Host) (hull : ℤ) → Inv m → Inv (set_hull_number null m hull).0
  unfolding set_hull_number
  set_hull_number-Inv m hull v =
      for_every_connection-Inv (record m { hull_number = hull }) _ minus_one
        (record { distinct = v.distinct; not_self = v.not_self })

  connect_to-Inv :
      (m : MailboxServer Host) (addresses : List Host) (same : Bool) (port : ℤ)
      → Inv m
      → Inv (connect_to null m addresses same port).0
  unfolding connect_to
  connect_to-Inv m [] same port v =
      ground (arith, connect_to_address-Inv m m.server_ip m.server_port v)
  connect_to-Inv m (ip ∷ ips) same port v = ground (
    arith,
    connect_to_address-Inv m m.server_ip m.server_port v,
    connect_to_address-Inv (record m { server_ip = ip; server_port = port }) ip port
        (record { distinct = v.distinct; not_self = v.not_self }),
  )

  welcome-Inv :
      (m : MailboxServer Host) (ip : Host) (client_port server_port hull : ℤ) (known : Bool)
      (endpoints : List (Endpoint Host)) (l : Option (Link Host))
      → Inv m
      → Inv (welcome null m ip client_port server_port hull known endpoints l).0
  welcome-Inv m ip client_port server_port hull known endpoints none v = v
  welcome-Inv m ip client_port server_port hull true endpoints (some l) v = v
  welcome-Inv m ip client_port server_port hull false endpoints (some l) v =
      on_connection_info-Inv m ip server_port hull client_port v

  if-Inv : (b : Bool) (s t : Step Host) → Inv s.0 → Inv t.0 → Inv (if b then s else t).0
  if-Inv true s t v w = v
  if-Inv false s t v w = w

  spread-Inv :
      (m : MailboxServer Host) (ip : Host) (server_port hull : ℤ) (known : Bool)
      → Inv m
      → Inv (spread null m ip server_port hull known).0
  spread-Inv m ip server_port hull true v = v
  spread-Inv m ip server_port hull false v = for_every_connection-Inv m _ minus_one v

  on_new_connection-Inv :
      (m : MailboxServer Host) (ip : Host) (client_port server_port hull : ℤ)
      → Inv m
      → Inv (on_new_connection null m ip client_port server_port hull).0
  unfolding on_new_connection
  on_new_connection-Inv m ip client_port server_port hull v =
      let known = is_known null m ip client_port server_port hull in
      let news = spread null m ip server_port hull known in
      let answer = greet null ip client_port server_port hull known (all_values m.known_robots) in
      if-Inv (is_self m ip server_port) (m, []) (continue news answer) v
        (continue-Inv news answer (spread-Inv m ip server_port hull known v) (λ s w.
          welcome-Inv s ip client_port server_port hull known (all_values m.known_robots)
            (connection s.server ip client_port) w))

  join_network-Inv :
      (m : MailboxServer Host) (addresses : List Host) (same given : Bool) (port hull : ℤ)
      → Inv m
      → Inv (join_network null m addresses same given port hull).0
  unfolding join_network
  join_network-Inv m addresses same given port hull v =
      let renamed = set_hull_number null m hull in
      continue-Inv (if eq_ℤ hull minus_one then (m, []) else renamed)
        (join_to null addresses same given port)
        (if-Inv (eq_ℤ hull minus_one) (m, []) renamed v (set_hull_number-Inv m hull v))
        (λ s w.
          let to = if eq_ℤ port minus_one then s.my_port else port in
          if-Inv given (connect_to null s addresses same to) (s, [])
            (connect_to-Inv s addresses same to w) w)

  receive-Inv : (m : MailboxServer Host) → Inv m → Inv (receive m).0
  unfolding receive
  receive-Inv m v = ground (arith, v.distinct, v.not_self)

  pub step-Inv : (m : MailboxServer Host) (c : Call Host) → Inv m → Inv (step null m c).0
  unfolding step on_connected on_new_data send
  step-Inv m (joins addresses same given port hull) v =
      join_network-Inv m addresses same given port hull v
  step-Inv m (connects addresses same port) v = connect_to-Inv m addresses same port v
  step-Inv m (sets_hull_number hull) v = set_hull_number-Inv m hull v
  step-Inv m (sends hull message) v = for_every_connection-Inv m _ hull v
  step-Inv m (is_connected_to l r k a) v =
      on_connection_info-Inv m l.peer_address r.server_port k l.peer_port v
  step-Inv m (hears_connection ip client_port server_port hull) v =
      on_new_connection-Inv m ip client_port server_port hull v
  step-Inv m (hears_info ip server_port hull) v =
      on_connection_info-Inv m ip server_port hull minus_one v
  step-Inv m (hears_data ip port message) v = record {
    distinct = v.distinct;
    not_self = v.not_self;
  }
  step-Inv m receives v = receive-Inv m v
  step-Inv m (links server) v = record { distinct = v.distinct; not_self = v.not_self }

  -- Whatever calls, messages and connections come, in whatever order, a mailbox that knows each
  -- other robot at most once and does not know itself stays so.
  pub run-Inv : (m : MailboxServer Host) (cs : List (Call Host)) → Inv m → Inv (run null m cs).0
  unfolding run
  run-Inv m [] v = v
  run-Inv m (c ∷ cs) v =
      continue-Inv (step null m c) (λ s. run null s cs) (step-Inv m c v) (λ s w. run-Inv s cs w)
