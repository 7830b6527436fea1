-- ===== src/Network/MailboxServer/Robots.antt =====
-- What the mailbox knows of other robots stays consistent.
use trik_runtime.Prelude.{
  ◌≡◌, refl, ap, subst, ◌∙◌, true, false, [], ◌∷◌, if◌then◌else◌, is_some, ◌&&◌, Eq, Bool-cases,
  inl, inr, Option-cases, arith,
}
use trik_runtime.Prelude.Int.{ℤ, pos, eq_ℤ, eq_ℤ_iff}
use trik_runtime.Network.TrikServer.{TrikServer, connection}
use trik_runtime.Network.MailboxServer.{
  Endpoint, Robots, MailboxServer, minus_one, same_robot, port_or, connected_port_of, is_self,
  on_connection_info,
}
use trik_runtime.Network.MailboxServer.Entries.{
  others, entries, Distinct, others_idem, remove_all-to_delete, entries-others, same_robot_refl,
  same_robot→eq, entries-cons_same, entries-others_nil, Distinct-others,
}

module _ {Host : Type 0} ⦃e : Eq Host⦄ where
  -- The port through which the mailbox is still connected to a robot with these entries, or -1.
  abbrev pub open_port : TrikServer Host → Host → Robots Host → ℤ
  open_port s ip [] = minus_one
  open_port s ip ((k, r) ∷ rest) =
      if is_some (connection s ip r.connected_port) then r.connected_port else minus_one

  -- The port of a robot for which the news give a port or -1.
  abbrev pub chosen_port : TrikServer Host → Host → ℤ → Robots Host → ℤ
  chosen_port s ip given robots = if eq_ℤ given minus_one then open_port s ip robots else given

  connected_port_of-unknown :
      (s : TrikServer Host) (ip : Host) (port given : ℤ) (robots : Robots Host)
      → entries ip port robots ≡ []
      → connected_port_of s ip port given robots ≡ given
  unfolding connected_port_of
  connected_port_of-unknown s ip port given [] h = refl
  connected_port_of-unknown s ip port given ((k, r) ∷ rest) h =
      elim (Bool-cases (same_robot ip port r)) [
        | inl q ↦ absurd (ground (arith, h, q))
        | inr q ↦ rw q (connected_port_of-unknown s ip port given rest (ground (arith, h, q)))
      ]

  port_or-open :
      (s : TrikServer Host) (ip : Host) (k : ℤ) (r : Endpoint Host) (rest : Robots Host)
      → port_or r.connected_port (connection s ip r.connected_port) ≡ open_port s ip ((k, r) ∷ rest)
  port_or-open s ip k r rest = elim (Option-cases (connection s ip r.connected_port)) [
    | inl e ↦ rw e refl
    | inr (l, e) ↦ rw e refl
  ]

  connected_port_of-Distinct :
      (s : TrikServer Host) (ip : Host) (port given : ℤ) (robots : Robots Host)
      → Distinct robots
      → connected_port_of s ip port given robots ≡ chosen_port s ip given (entries ip port robots)
  unfolding connected_port_of
  connected_port_of-Distinct s ip port given [] d = elim (Bool-cases (eq_ℤ given minus_one)) [
    | inl m ↦ rw m ((eq_ℤ_iff given minus_one).0 m)
    | inr m ↦ rw m refl
  ]
  connected_port_of-Distinct s ip port given ((k, r) ∷ rest) d =
      elim (Bool-cases (same_robot ip port r)) [
        | inl q ↦
            let (i, p) = same_robot→eq ip port r q in
            let alone : entries ip port rest ≡ [] =
              subst (λ a. entries a port rest ≡ []) i
                (subst (λ b. entries r.ip b rest ≡ []) p d.0) in
            elim (Bool-cases (eq_ℤ given minus_one)) [
              | inl m ↦
                  rw (q, m)
                    (connected_port_of-unknown s ip port _ rest alone ∙ port_or-open s ip k r rest)
              | inr m ↦ rw (q, m) (connected_port_of-unknown s ip port given rest alone)
            ]
        | inr q ↦ rw q (connected_port_of-Distinct s ip port given rest d.1)
      ]

  -- News of the mailbox itself change nothing at all. After news of another robot there is exactly one
  -- entry for it, under the hull number of the news, with the port of the news; where that is -1, with
  -- the port through which a connection to the robot is still open, or -1 if there is none. The entries
  -- of all other robots stay as they were. Each robot is known once before.
  pub on_connection_info_lem :
      (m : MailboxServer Host) (ip : Host) (port hull given : ℤ)
      → is_self m ip port ≡ false
      → Distinct m.known_robots
      → let robots = (on_connection_info m ip port hull given).known_robots in
        (on_connection_info m m.my_ip m.my_port hull given ≡ m)
        × (entries ip port robots
            ≡ (
              hull,
              record {
                ip = ip;
                server_port = port;
                connected_port = chosen_port m.server ip given (entries ip port m.known_robots);
              },
            )
              ∷ [])
        × (others ip port robots ≡ others ip port m.known_robots)
  unfolding on_connection_info
  on_connection_info_lem m ip port hull given q d =
      let same = same_robot_refl (record { ip = ip; server_port = port; connected_port = pos 0 }) in
      let itself : is_self m m.my_ip m.my_port ≡ true =
        same_robot_refl
          (record { ip = m.my_ip; server_port = m.my_port; connected_port = pos 0 }) in
      (
        rw itself refl,
        rw (q, remove_all-to_delete ip port m.known_robots)
            (entries-cons_same ip port hull _ (others ip port m.known_robots) same
                (entries-others ip port m.known_robots)
              ∙ ap (λ c. (hull, record { ip = ip; server_port = port; connected_port = c }) ∷ [])
                  (connected_port_of-Distinct m.server ip port given m.known_robots d)),
        rw (q, remove_all-to_delete ip port m.known_robots)
            (rw same (others_idem ip port m.known_robots)),
      )

  -- Each robot is known once, and the mailbox does not know itself.
  pub record Inv (m : MailboxServer Host) : Type 0 where
    pub distinct : Distinct m.known_robots
    pub not_self : entries m.my_ip m.my_port m.known_robots ≡ []

  not_self-cons :
      (i j : Host) (p q k : ℤ) (c : ℤ) (robots : Robots Host)
      → (e.beq i j && eq_ℤ p q) ≡ false
      → entries j q robots ≡ []
      → entries j q ((k, record { ip = i; server_port = p; connected_port = c }) ∷ robots) ≡ []
  not_self-cons i j p q k c robots h n = rw h n

  pub on_connection_info-Inv :
      (m : MailboxServer Host) (ip : Host) (port hull connected : ℤ)
      → Inv m
      → Inv (on_connection_info m ip port hull connected)
  unfolding on_connection_info
  on_connection_info-Inv m ip port hull connected v = elim (Bool-cases (is_self m ip port)) [
    | inl q ↦ rw q v
    | inr q ↦
        rw (q, remove_all-to_delete ip port m.known_robots)
          (record {
            distinct = (
              entries-others ip port m.known_robots,
              Distinct-others ip port m.known_robots v.distinct,
            );
            not_self =
                not_self-cons ip m.my_ip port m.my_port hull _ _ q
                  (entries-others_nil m.my_ip ip m.my_port port m.known_robots v.not_self);
          })
  ]
