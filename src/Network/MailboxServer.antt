-- ===== src/Network/MailboxServer.antt =====
-- trikNetwork/src/mailboxServer.cpp: the robots that a mailbox knows, and its queue of messages.
pub mod Entries
pub mod Robots
pub mod Senders
pub mod Calls
use trik_runtime.Prelude.{
  ℕ, suc, ◌≡◌, Bool, true, false, Option, none, some, List, [], ◌∷◌, ◌++◌, if◌then◌else◌, ◌==◌,
  ◌&&◌, not, Eq, is_empty,
}
use trik_runtime.Prelude.Int.{ℤ, pos, negsuc, eq_ℤ}
use trik_runtime.Text.{Bytes}
use trik_runtime.Network.TrikServer.{TrikServer, Link, connection}

pub record Endpoint (Host : Type 0) : Type 0 where
  pub ip : Host
  pub server_port : ℤ
  pub connected_port : ℤ

-- mKnownRobots, a QMultiHash: the entries in the order in which it is walked, the newest of one
-- key first.
abbrev pub Robots : Type 0 → Type 0
Robots Host = List (ℤ × Endpoint Host)

pub record MailboxServer (Host : Type 0) : Type 0 where
  pub hull_number : ℤ
  pub my_ip : Host
  pub saved_ip : Host
  pub my_port : ℤ
  pub server_ip : Host
  pub server_port : ℤ
  pub known_robots : Robots Host
  pub messages : List Bytes  -- mMessagesQueue, the next one first
  pub server : TrikServer Host
  pub is_listening : Bool
  pub next_id : ℕ  -- names the connections that this server makes

-- -1.
abbrev pub minus_one : ℤ
minus_one = negsuc 0

module _ {Host : Type 0} ⦃e : Eq Host⦄ where
  -- operator == of Endpoint: the connected port does not count.
  abbrev pub same_robot : Host → ℤ → Endpoint Host → Bool
  same_robot ip port r = e.beq r.ip ip && eq_ℤ r.server_port port

  abbrev pub same_endpoint : Endpoint Host → Endpoint Host → Bool
  same_endpoint a b = same_robot b.ip b.server_port a

  -- mKnownRobots.key(endpoint): the key of the first entry that is equal, or 0.
  abbrev pub key : Endpoint Host → Robots Host → ℤ
  key r [] = pos 0
  key r ((k, s) ∷ rest) = if same_endpoint s r then k else key r rest

  -- mKnownRobots.keys(endpoint).
  abbrev pub keys : Endpoint Host → Robots Host → List ℤ
  keys r [] = []
  keys r ((k, s) ∷ rest) = let more = keys r rest in if same_endpoint s r then k ∷ more else more

  -- mKnownRobots.remove(key, endpoint).
  abbrev pub remove_pair : ℤ → Endpoint Host → Robots Host → Robots Host
  remove_pair k r [] = []
  remove_pair k r ((j, s) ∷ rest) =
      let others = remove_pair k r rest in
      if eq_ℤ j k && same_endpoint s r then others else (j, s) ∷ others

  abbrev pub remove_keys : List ℤ → Endpoint Host → Robots Host → Robots Host
  remove_keys [] r robots = robots
  remove_keys (k ∷ ks) r robots = remove_keys ks r (remove_pair k r robots)

  -- The second loop of onConnectionInfo.
  unfoldable pub remove_all : List (Endpoint Host) → Robots Host → Robots Host
  remove_all [] robots = robots
  remove_all (r ∷ rs) robots = remove_all rs (remove_keys (keys r robots) r robots)

  -- mKnownRobots.contains(key, endpoint).
  abbrev pub contains_pair : ℤ → Endpoint Host → Robots Host → Bool
  contains_pair k r [] = false
  contains_pair k r ((j, s) ∷ rest) =
      if eq_ℤ j k && same_endpoint s r then true else contains_pair k r rest

  -- The entries that the first loop of onConnectionInfo collects.
  unfoldable pub to_delete : Host → ℤ → Robots Host → List (Endpoint Host)
  to_delete ip port [] = []
  to_delete ip port ((k, r) ∷ rest) =
      let more = to_delete ip port rest in if same_robot ip port r then r ∷ more else more

  abbrev pub port_or : ℤ → Option (Link Host) → ℤ
  port_or port none = minus_one
  port_or port (some l) = port

  -- The connected port that the first loop ends with: a robot that is still connected keeps its
  -- port where none is given.
  unfoldable pub connected_port_of : TrikServer Host → Host → ℤ → ℤ → Robots Host → ℤ
  connected_port_of s ip port connected [] = connected
  connected_port_of s ip port connected ((k, r) ∷ rest) =
      connected_port_of s ip port
        (if same_robot ip port r && eq_ℤ connected minus_one
          then port_or r.connected_port (connection s ip r.connected_port)
          else connected)
        rest

  -- Ourselves.
  abbrev pub is_self : MailboxServer Host → Host → ℤ → Bool
  is_self m ip port = e.beq ip m.my_ip && eq_ℤ port m.my_port

  -- onConnectionInfo.
  unfoldable pub on_connection_info : MailboxServer Host → Host → ℤ → ℤ → ℤ → MailboxServer Host
  on_connection_info m ip port hull connected = if is_self m ip port then m else record m {
    known_robots =
        (
          hull,
          record {
            ip = ip;
            server_port = port;
            connected_port = connected_port_of m.server ip port connected m.known_robots;
          },
        )
        ∷ remove_all (to_delete ip port m.known_robots) m.known_robots;
  }

  -- The loop of onNewData: the last entry that fits decides.
  unfoldable pub sender_of : Host → ℤ → ℤ → Robots Host → Robots Host → ℤ
  sender_of ip port sender all [] = sender
  sender_of ip port sender all ((k, r) ∷ rest) =
      sender_of ip port (if e.beq r.ip ip && eq_ℤ r.connected_port port then key r all else sender)
        all rest

  -- onNewData: the hull number of the signal newMessage.
  unfoldable pub on_new_data : MailboxServer Host → Host → ℤ → Bytes → MailboxServer Host × ℤ
  on_new_data m ip port message = (
    record m { messages = m.messages ++ (message ∷ []) },
    sender_of ip port minus_one m.known_robots m.known_robots,
  )

  unfoldable pub has_messages : MailboxServer Host → Bool
  has_messages m = not (is_empty m.messages)

  abbrev pub dequeue : MailboxServer Host → List Bytes → MailboxServer Host × Bytes
  dequeue m [] = (m, [])
  dequeue m (x ∷ xs) = (record m { messages = xs }, x)

  unfoldable pub receive : MailboxServer Host → MailboxServer Host × Bytes
  receive m = dequeue m m.messages
