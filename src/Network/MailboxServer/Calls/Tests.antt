-- ===== src/Network/MailboxServer/Calls/Tests.antt =====
-- Runs of a mailbox. A host is the number of its address, and 0 is no address.
use trik_runtime.Prelude.{ℕ, ◌≡◌, refl, true, List, [], ◌∷◌, ◌++◌, Eq, ◌==◌, ==_iff}
use trik_runtime.Prelude.Int.{pos}
use trik_runtime.Text.{codes}
use trik_runtime.Network.TrikServer.{new}
use trik_runtime.Network.MailboxServer.{
  Endpoint, MailboxServer, minus_one, on_connection_info, on_new_data, connected_port_of,
  remove_all, to_delete, sender_of,
}
use trik_runtime.Network.MailboxServer.Entries.{entries, others}
use trik_runtime.Network.MailboxServer.Robots.{Inv, chosen_port, on_connection_info_lem}
use trik_runtime.Network.MailboxServer.Senders.{Found, on_new_data_lem}
use trik_runtime.Network.MailboxServer.Calls.{
  Call, hears_info, hears_connection, hears_data, sets_hull_number, sends, run,
}
use trik_runtime.Network.MailboxServer.Calls.Invariant.{run-Inv}

instance abbrev host_eq : Eq ℕ
host_eq = record { beq = ◌==◌; beq_iff = ==_iff }

abbrev first_robot : Endpoint ℕ
first_robot = record { ip = 7; server_port = pos 8889; connected_port = pos 50001 }

abbrev second_robot : Endpoint ℕ
second_robot = record { ip = 8; server_port = pos 8889; connected_port = pos 50002 }

abbrev mailbox : MailboxServer ℕ
unfolding new
mailbox = record {
  hull_number = pos 1;
  my_ip = 5;
  saved_ip = 5;
  my_port = pos 8889;
  server_ip = 5;
  server_port = pos 8889;
  known_robots = (pos 2, first_robot) ∷ (pos 3, second_robot) ∷ [];
  messages = [];
  server = new;
  is_listening = true;
  next_id = 0;
}

mailbox-Inv : Inv mailbox
unfolding new
mailbox-Inv = record { distinct = (refl, (refl, tt)); not_self = refl }

abbrev calls : List (Call ℕ)
calls =
    hears_connection 9 (pos 50003) (pos 8889) (pos 4)
    ∷ hears_info 7 (pos 8889) (pos 6)
    ∷ sends (pos 6) (codes "go")
    ∷ hears_data 8 (pos 50002) (codes "hi")
    ∷ sets_hull_number (pos 10)
    ∷ []

run-Inv_example : Inv (run 0 mailbox calls).0
run-Inv_example = run-Inv 0 mailbox calls mailbox-Inv

on_connection_info_lem_example :
    let robots = (on_connection_info mailbox 7 (pos 8889) (pos 6) minus_one).known_robots in
    (on_connection_info mailbox 5 (pos 8889) (pos 6) minus_one ≡ mailbox)
    × (entries 7 (pos 8889) robots
        ≡ (
          pos 6,
          record {
            ip = 7;
            server_port = pos 8889;
            connected_port =
                chosen_port mailbox.server 7 minus_one (entries 7 (pos 8889) mailbox.known_robots);
          },
        )
          ∷ [])
    × (others 7 (pos 8889) robots ≡ others 7 (pos 8889) mailbox.known_robots)
unfolding mailbox
on_connection_info_lem_example =
    on_connection_info_lem mailbox 7 (pos 8889) (pos 6) minus_one refl mailbox-Inv.distinct

info_run :
    (on_connection_info mailbox 7 (pos 8889) (pos 6) (pos 50009)).known_robots
    ≡ (pos 6, record { ip = 7; server_port = pos 8889; connected_port = pos 50009 })
      ∷ (pos 3, second_robot)
      ∷ []
unfolding on_connection_info remove_all to_delete connected_port_of new
info_run = refl

on_new_data_lem_example :
    let (m', sender) = on_new_data mailbox 8 (pos 50002) (codes "hi") in
    (m'.messages ≡ mailbox.messages ++ (codes "hi" ∷ []))
    × (m'.known_robots ≡ mailbox.known_robots)
    × Found 8 (pos 50002) mailbox.known_robots mailbox.known_robots minus_one sender
unfolding new
on_new_data_lem_example = on_new_data_lem mailbox 8 (pos 50002) (codes "hi") (refl, (refl, tt))

sender_run : (on_new_data mailbox 8 (pos 50002) (codes "hi")).1 ≡ pos 3
unfolding on_new_data sender_of new
sender_run = refl
