-- ===== src/Network/MailboxServer/Entries.antt =====
-- trikNetwork/src/mailboxServer.cpp: the entries of robots that the mailbox knows.
use trik_runtime.Prelude.{
  ◌≡◌, refl, sym, ap, ◌∙◌, true, false, List, [], ◌∷◌, if◌then◌else◌, Eq, arith, Bool-cases, inl,
  inr, All,
}
use trik_runtime.Prelude.Int.{ℤ, eq_ℤ, eq_ℤ_iff}
use trik_runtime.Network.MailboxServer.{
  Endpoint, Robots, same_robot, same_endpoint, keys, remove_pair, remove_keys, remove_all,
  to_delete,
}

module _ {Host : Type 0} ⦃e : Eq Host⦄ where
  -- The entries of other robots than the one with this address and server port.
  abbrev pub others : Host → ℤ → Robots Host → Robots Host
  others ip port [] = []
  others ip port ((k, r) ∷ rest) =
      let more = others ip port rest in if same_robot ip port r then more else (k, r) ∷ more

  -- The entries of this robot.
  abbrev pub entries : Host → ℤ → Robots Host → Robots Host
  entries ip port [] = []
  entries ip port ((k, r) ∷ rest) =
      let more = entries ip port rest in if same_robot ip port r then (k, r) ∷ more else more

  -- Each robot is known once.
  abbrev pub Distinct : Robots Host → Type 0
  Distinct [] = Unit {0}
  Distinct ((k, r) ∷ rest) = (entries r.ip r.server_port rest ≡ []) × Distinct rest

  pub remove_pair_comm :
      (j k : ℤ) (r : Endpoint Host) (robots : Robots Host)
      → remove_pair j r (remove_pair k r robots) ≡ remove_pair k r (remove_pair j r robots)
  remove_pair_comm j k r [] = refl
  remove_pair_comm j k r ((i, s) ∷ rest) = ground (arith, remove_pair_comm j k r rest)

  pub remove_keys-remove_pair :
      (ks : List ℤ) (j : ℤ) (r : Endpoint Host) (robots : Robots Host)
      → remove_keys ks r (remove_pair j r robots) ≡ remove_pair j r (remove_keys ks r robots)
  remove_keys-remove_pair [] j r robots = refl
  remove_keys-remove_pair (k ∷ ks) j r robots =
      ap (remove_keys ks r) (remove_pair_comm k j r robots)
      ∙ remove_keys-remove_pair ks j r (remove_pair k r robots)

  pub remove_pair-others :
      (k : ℤ) (r : Endpoint Host) (robots : Robots Host)
      → remove_pair k r (others r.ip r.server_port robots) ≡ others r.ip r.server_port robots
  remove_pair-others k r [] = refl
  remove_pair-others k r ((j, s) ∷ rest) = ground (arith, remove_pair-others k r rest)

  pub remove_keys-cons_ne :
      (ks : List ℤ) (j : ℤ) (s r : Endpoint Host) (rest : Robots Host)
      → same_endpoint s r ≡ false
      → remove_keys ks r ((j, s) ∷ rest) ≡ (j, s) ∷ remove_keys ks r rest
  remove_keys-cons_ne [] j s r rest h = refl
  remove_keys-cons_ne (k ∷ ks) j s r rest h = elim (Bool-cases (eq_ℤ j k)) [
    | inl q ↦ rw (q, h) (remove_keys-cons_ne ks j s r (remove_pair k r rest) h)
    | inr q ↦ rw q (remove_keys-cons_ne ks j s r (remove_pair k r rest) h)
  ]

  pub remove_pair_head :
      (j : ℤ) (s r : Endpoint Host) (rest : Robots Host)
      → same_endpoint s r ≡ true
      → remove_pair j r ((j, s) ∷ rest) ≡ remove_pair j r rest
  remove_pair_head j s r rest h = ground (arith, (eq_ℤ_iff j j).1 refl)

  pub remove_keys-keys :
      (r : Endpoint Host) (robots : Robots Host)
      → remove_keys (keys r robots) r robots ≡ others r.ip r.server_port robots
  remove_keys-keys r [] = refl
  remove_keys-keys r ((j, s) ∷ rest) = elim (Bool-cases (same_endpoint s r)) [
    | inl q ↦ rw q (
        ap (remove_keys (keys r rest) r) (remove_pair_head j s r rest q)
        ∙ remove_keys-remove_pair (keys r rest) j r rest
        ∙ ap (remove_pair j r) (remove_keys-keys r rest)
        ∙ remove_pair-others j r rest)
    | inr q ↦
        rw q (
          remove_keys-cons_ne (keys r rest) j s r rest q
          ∙ ap (◌∷◌ (j, s)) (remove_keys-keys r rest))
  ]

  pub same_robot→eq :
      (ip : Host) (port : ℤ) (r : Endpoint Host)
      → same_robot ip port r ≡ true
      → (r.ip ≡ ip) × (r.server_port ≡ port)
  same_robot→eq ip port r h = ground (arith, e.beq_iff r.ip ip, eq_ℤ_iff r.server_port port)

  pub others_idem :
      (ip : Host) (port : ℤ) (robots : Robots Host)
      → others ip port (others ip port robots) ≡ others ip port robots
  others_idem ip port [] = refl
  others_idem ip port ((k, r) ∷ rest) = ground (arith, others_idem ip port rest)

  pub All-to_delete :
      (ip : Host) (port : ℤ) (robots : Robots Host)
      → All (λ r. same_robot ip port r ≡ true) (to_delete ip port robots)
  unfolding to_delete
  All-to_delete ip port [] = tt
  All-to_delete ip port ((k, r) ∷ rest) = ground (arith, All-to_delete ip port rest)

  pub remove_all-others :
      (ip : Host) (port : ℤ) (rs : List (Endpoint Host)) (robots : Robots Host)
      → All (λ r. same_robot ip port r ≡ true) rs
      → remove_all rs (others ip port robots) ≡ others ip port robots
  unfolding remove_all
  remove_all-others ip port [] robots h = refl
  remove_all-others ip port (r ∷ rs) robots h =
      let (i, p) = same_robot→eq ip port r h.0 in
      ap (remove_all rs)
        (remove_keys-keys r (others ip port robots) ∙ rw (i, p) (others_idem ip port robots))
      ∙ remove_all-others ip port rs robots h.1

  pub others-to_delete_nil :
      (ip : Host) (port : ℤ) (robots : Robots Host)
      → to_delete ip port robots ≡ []
      → others ip port robots ≡ robots
  unfolding to_delete
  others-to_delete_nil ip port [] h = refl
  others-to_delete_nil ip port ((k, r) ∷ rest) h = ground (arith, others-to_delete_nil ip port rest)

  pub remove_all_some :
      (ip : Host) (port : ℤ) (rs : List (Endpoint Host)) (robots : Robots Host)
      → All (λ r. same_robot ip port r ≡ true) rs
      → (rs ≡ [] → others ip port robots ≡ robots)
      → remove_all rs robots ≡ others ip port robots
  unfolding remove_all
  remove_all_some ip port [] robots h none_left = sym (none_left refl)
  remove_all_some ip port (r ∷ rs) robots h none_left =
      let (i, p) = same_robot→eq ip port r h.0 in
      ap (remove_all rs) (remove_keys-keys r robots ∙ rw (i, p))
      ∙ remove_all-others ip port rs robots h.1

  pub remove_all-to_delete :
      (ip : Host) (port : ℤ) (robots : Robots Host)
      → remove_all (to_delete ip port robots) robots ≡ others ip port robots
  remove_all-to_delete ip port robots =
      remove_all_some ip port (to_delete ip port robots) robots (All-to_delete ip port robots)
        (others-to_delete_nil ip port robots)

  pub entries-others :
      (ip : Host) (port : ℤ) (robots : Robots Host) → entries ip port (others ip port robots) ≡ []
  entries-others ip port [] = refl
  entries-others ip port ((k, r) ∷ rest) = ground (arith, entries-others ip port rest)

  pub same_robot_refl : (r : Endpoint Host) → same_robot r.ip r.server_port r ≡ true
  same_robot_refl r =
      ground (arith, (e.beq_iff r.ip r.ip).1 refl, (eq_ℤ_iff r.server_port r.server_port).1 refl)

  pub entries-cons_same :
      (ip : Host) (port : ℤ) (k : ℤ) (r : Endpoint Host) (rest : Robots Host)
      → same_robot ip port r ≡ true
      → entries ip port rest ≡ []
      → entries ip port ((k, r) ∷ rest) ≡ (k, r) ∷ []
  entries-cons_same ip port k r rest h q = rw (h, q)

  pub entries-others_nil :
      (i j : Host) (p q : ℤ) (robots : Robots Host)
      → entries i p robots ≡ []
      → entries i p (others j q robots) ≡ []
  entries-others_nil i j p q [] h = refl
  entries-others_nil i j p q ((k, r) ∷ rest) h = ground (arith, entries-others_nil i j p q rest)

  pub Distinct-others :
      (ip : Host) (port : ℤ) (robots : Robots Host)
      → Distinct robots
      → Distinct (others ip port robots)
  Distinct-others ip port [] h = tt
  Distinct-others ip port ((k, r) ∷ rest) h = ground (
    arith,
    Distinct-others ip port rest h.1,
    entries-others_nil r.ip ip r.server_port port rest h.0,
  )
