-- ===== src/Network/MailboxServer/Senders.antt =====
-- Who sent a message.
use trik_runtime.Prelude.{
  ◌≡◌, refl, subst, ◌++◌, ◌∙◌, ◌⊎◌, inl, inr, Bool, true, false, [], ◌∷◌, ◌&&◌, Eq, arith,
  Bool-cases, All,
}
use trik_runtime.Prelude.Int.{ℤ, eq_ℤ, eq_ℤ_iff}
use trik_runtime.Text.{Bytes}
use trik_runtime.Network.MailboxServer.{
  Endpoint, Robots, MailboxServer, minus_one, same_robot, same_endpoint, key, sender_of,
  on_new_data,
}
use trik_runtime.Network.MailboxServer.Entries.{entries, Distinct, same_robot_refl}

module _ {Host : Type 0} ⦃e : Eq Host⦄ where
  abbrev pub Known : ℤ → Endpoint Host → Robots Host → Type 0
  Known k r [] = ⊥
  Known k r ((j, s) ∷ rest) = ((j ≡ k) × (s ≡ r)) ⊎ Known k r rest

  -- An entry through which a message from this address and port comes.
  abbrev pub fits : Host → ℤ → Endpoint Host → Bool
  fits ip port r = e.beq r.ip ip && eq_ℤ r.connected_port port

  entries-Known :
      (k : ℤ) (r : Endpoint Host) (ip : Host) (port : ℤ) (robots : Robots Host)
      → Known k r robots
      → same_robot ip port r ≡ true
      → entries ip port robots ≡ []
      → ⊥
  entries-Known k r ip port [] n s h = n
  entries-Known k r ip port ((j, t) ∷ rest) (inl (p, q)) s h = ground arith
  entries-Known k r ip port ((j, t) ∷ rest) (inr n) s h =
      ground (arith, entries-Known k r ip port rest n s)

  same_robot_sym :
      (r t : Endpoint Host) → same_endpoint t r ≡ true → same_robot t.ip t.server_port r ≡ true
  same_robot_sym r t h = ground (
    arith,
    e.beq_iff t.ip r.ip,
    e.beq_iff r.ip t.ip,
    eq_ℤ_iff t.server_port r.server_port,
    eq_ℤ_iff r.server_port t.server_port,
  )

  -- Where each robot is known once, an endpoint leads back to the hull number it is known under.
  pub key-Known :
      (k : ℤ) (r : Endpoint Host) (robots : Robots Host)
      → Distinct robots
      → Known k r robots
      → key r robots ≡ k
  key-Known k r [] d n = absurd n
  key-Known k r ((j, t) ∷ rest) d (inl (p, q)) =
      rw (subst (λ u. same_endpoint t u ≡ true) q (same_robot_refl t)) p
  key-Known k r ((j, t) ∷ rest) d (inr n) = elim (Bool-cases (same_endpoint t r)) [
    | inl q ↦ absurd (entries-Known k r t.ip t.server_port rest n (same_robot_sym r t q) d.0)
    | inr q ↦ rw q (key-Known k r rest d.1 n)
  ]

  -- The sender that the loop ends with, from the sender that it starts with.
  abbrev pub Found : Host → ℤ → Robots Host → Robots Host → ℤ → ℤ → Type 0
  Found ip port all rest start found =
      ((found ≡ start) × All (λ entry. fits ip port entry.1 ≡ false) rest)
      ⊎ ((k : ℤ) × (r : Endpoint Host) × Known k r all × (fits ip port r ≡ true) × (found ≡ k))

  sender_of-Found :
      (ip : Host) (port start : ℤ) (all rest : Robots Host)
      → Distinct all
      → ((k : ℤ) (r : Endpoint Host) → Known k r rest → Known k r all)
      → Found ip port all rest start (sender_of ip port start all rest)
  unfolding sender_of
  sender_of-Found ip port start all [] d sub = inl (refl, tt)
  sender_of-Found ip port start all ((k, r) ∷ rest) d sub = elim (Bool-cases (fits ip port r)) [
    | inl q ↦
        let here = sub k r (inl (refl, refl)) in
        rw q (elim (sender_of-Found ip port (key r all) all rest d (λ j t n. sub j t (inr n))) [
          | inl (same, _) ↦ inr (k, r, here, q, same ∙ key-Known k r all d here)
          | inr found ↦ inr found
        ])
    | inr q ↦ rw q (elim (sender_of-Found ip port start all rest d (λ j t n. sub j t (inr n))) [
      | inl (same, none_fits) ↦ inl (same, (refl, none_fits))
      | inr found ↦ inr found
    ])
  ]

  -- A message joins the end of the queue and changes nothing that is known of the robots. Its sender
  -- is the hull number under which a robot with this address and connected port is known, or it is
  -- -1 and no robot with them is known. Each robot is known once.
  pub on_new_data_lem :
      (m : MailboxServer Host) (ip : Host) (port : ℤ) (message : Bytes)
      → Distinct m.known_robots
      → let (m', sender) = on_new_data m ip port message in
        (m'.messages ≡ m.messages ++ (message ∷ []))
        × (m'.known_robots ≡ m.known_robots)
        × Found ip port m.known_robots m.known_robots minus_one sender
  unfolding on_new_data
  on_new_data_lem m ip port message d =
      (refl, refl, sender_of-Found ip port minus_one m.known_robots m.known_robots d (λ k r n. n))
