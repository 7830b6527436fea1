-- ===== src/Network/MailboxServer/Calls/Newcomers.antt =====
-- A robot that registers, and who its messages are attributed to.
use trik_runtime.Prelude.{
  ◌≡◌, refl, true, false, Option, none, some, List, [], ◌∷◌, Eq, Bool-cases, inl, inr, All,
}
use trik_runtime.Prelude.Int.{ℤ}
use trik_runtime.Text.{Bytes}
use trik_runtime.Network.TrikServer.{Link}
use trik_runtime.Network.MailboxServer.{
  Endpoint, Robots, MailboxServer, minus_one, is_self, on_new_data, sender_of,
}
use trik_runtime.Network.MailboxServer.Senders.{fits}
use trik_runtime.Network.MailboxServer.Calls.{welcome, is_known, on_new_connection}

module _ {Host : Type 0} ⦃e : Eq Host⦄ (null : Host) where
  welcome_known :
      (m : MailboxServer Host) (ip : Host) (client_port server_port hull : ℤ)
      (endpoints : List (Endpoint Host)) (l : Option (Link Host))
      → (welcome null m ip client_port server_port hull true endpoints l).0 ≡ m
  welcome_known m ip client_port server_port hull endpoints none = refl
  welcome_known m ip client_port server_port hull endpoints (some l) = refl

  on_new_connection_known :
      (m : MailboxServer Host) (ip : Host) (client_port server_port hull : ℤ)
      → is_known null m ip client_port server_port hull ≡ true
      → (on_new_connection null m ip client_port server_port hull).0 ≡ m
  unfolding on_new_connection
  on_new_connection_known m ip client_port server_port hull h =
      elim (Bool-cases (is_self m ip server_port)) [
        | inl q ↦ rw q
        | inr q ↦ rw (q, h) (welcome_known m ip client_port server_port hull _ _)
      ]

  sender_of_none :
      (ip : Host) (port start : ℤ) (all rest : Robots Host)
      → All (λ entry. fits ip port entry.1 ≡ false) rest
      → sender_of ip port start all rest ≡ start
  unfolding sender_of
  sender_of_none ip port start all [] h = refl
  sender_of_none ip port start all ((k, r) ∷ rest) h =
      rw h.0 (sender_of_none ip port start all rest h.1)

  -- A robot that is known under this hull number, address and server port and that registers again
  -- through a new port stays known under its old port: what it sends through the new one is
  -- attributed to -1, where no robot is known through that port.
  pub reconnect_unknown :
      (m : MailboxServer Host) (ip : Host) (client_port server_port hull : ℤ) (message : Bytes)
      → is_known null m ip client_port server_port hull ≡ true
      → All (λ entry. fits ip client_port entry.1 ≡ false) m.known_robots
      → (on_new_data
          (on_new_connection null m ip client_port server_port hull).0
          ip
          client_port
          message).1
        ≡ minus_one
  unfolding on_new_data
  reconnect_unknown m ip client_port server_port hull message h none_fits =
      rw (on_new_connection_known m ip client_port server_port hull h)
        (sender_of_none ip client_port minus_one m.known_robots m.known_robots none_fits)
