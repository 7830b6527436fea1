-- ===== src/Network/MailboxConnection.antt =====
-- trikNetwork/src/mailboxConnection.cpp: the texts that mailboxes exchange.
pub mod RoundTrip
mod Tests
use trik_runtime.Prelude.{
  ℕ, ◌≡◌, Bool, true, false, Option, none, some, List, [], ◌∷◌, ◌++◌, if◌then◌else◌, drop, All,
  ◌==◌, not, length, ◌<◌,
}
use trik_runtime.Prelude.Int.{ℤ}
use trik_runtime.Text.{Bytes, Decimal, codes, split, starts_with}
use trik_runtime.Network.Framing.{colon}

-- What the mailbox relies on in QHostAddress and in the UTF-8 conversions of QString.
pub record Codecs (Host : Type 0) : Type 0 where
  -- QHostAddress::toString, QHostAddress(text)
  pub host_text : Host → Bytes
  pub host_of : Bytes → Host
  pub host_of-host_text : (h : Host) → host_of (host_text h) ≡ h
  pub is_ipv4 : Host → Bool
  -- dotted decimal text
  pub ipv4_no_colon : (h : Host) → is_ipv4 h ≡ true → All (λ c. (c == colon) ≡ false) (host_text h)
  pub ipv4_ascii : (h : Host) → is_ipv4 h ≡ true → All (λ c. c < 128) (host_text h)
  -- QString::toUtf8, QString::fromUtf8, and the texts that UTF-8 can write
  pub to_utf8 : Bytes → Bytes
  pub from_utf8 : Bytes → Bytes
  pub is_text : Bytes → Bool
  pub from_utf8-to_utf8 : (t : Bytes) → is_text t ≡ true → from_utf8 (to_utf8 t) ≡ t
  pub is_text_ascii : (t : Bytes) → All (λ c. c < 128) t → is_text t ≡ true

abbrev pub register_command : Bytes
register_command = codes "register:"

abbrev pub connection_command : Bytes
connection_command = codes "connection:"

abbrev pub self_command : Bytes
self_command = codes "self:"

abbrev pub data_command : Bytes
data_command = codes "data:"

-- The signals of processData.
pub data Signal (Host : Type 0) : Type 0 where
  new_connection : Host → ℤ → ℤ → ℤ → Signal Host  -- peer address and port, server port, hull number
  connection_info : Host → ℤ → ℤ → Signal Host  -- address, server port, hull number
  new_data : Host → ℤ → Bytes → Signal Host  -- peer address and port, message

module _ {Host : Type 0} (d : Decimal) (k : Codecs Host) where
  -- The texts that connect, sendConnectionInfo, sendSelfInfo and MailboxServer::send give to send.
  unfoldable pub register_message : ℤ → ℤ → Bytes
  register_message port hull =
      k.to_utf8 (register_command ++ (d.number port ++ (colon ∷ d.number hull)))

  unfoldable pub connection_message : Host → ℤ → ℤ → Bytes
  connection_message ip port hull =
      k.to_utf8 (
        connection_command
        ++ (k.host_text ip ++ (colon ∷ d.number port ++ (colon ∷ d.number hull))))

  unfoldable pub self_message : ℤ → Bytes
  self_message hull = k.to_utf8 (self_command ++ d.number hull)

  unfoldable pub data_message : Bytes → Bytes
  data_message message = k.to_utf8 (data_command ++ message)

  -- The branches of processData; each takes the parts of the text between its colons, and a
  -- malformed text gives no signal.
  abbrev pub with_number : Option ℤ → (ℤ → Signal Host) → Option (Signal Host)
  with_number none f = none
  with_number (some n) f = some (f n)

  abbrev pub with_numbers : Option ℤ → Option ℤ → (ℤ → ℤ → Signal Host) → Option (Signal Host)
  with_numbers (some m) (some n) f = some (f m n)
  with_numbers _ _ f = none

  unfoldable pub process_register : Host → ℤ → List Bytes → Option (Signal Host)
  process_register peer port (_ ∷ a ∷ b ∷ []) =
      with_numbers (d.to_int a) (d.to_int b) (new_connection peer port)
  process_register peer port _ = none

  unfoldable pub process_connection : List Bytes → Option (Signal Host)
  process_connection (_ ∷ ip ∷ a ∷ b ∷ []) =
      with_numbers (d.to_int a) (d.to_int b) (connection_info (k.host_of ip))
  process_connection _ = none

  unfoldable pub process_self : Host → ℤ → List Bytes → Option (Signal Host)
  process_self peer port (_ ∷ a ∷ []) = with_number (d.to_int a) (connection_info peer port)
  process_self peer port _ = none

  unfoldable pub dispatch : Host → ℤ → Bytes → List Bytes → Option (Signal Host)
  unfolding process_register process_connection process_self
  dispatch peer port text parsed =
      if starts_with register_command text
      then process_register peer port parsed
      else if starts_with connection_command text
      then process_connection parsed
      else if starts_with self_command text
      then process_self peer port parsed
      else if starts_with data_command text
      then some (new_data peer port (k.to_utf8 (drop (length data_command) text)))
      else none

  -- processData.
  unfoldable pub process_data : Host → ℤ → Bytes → Option (Signal Host)
  process_data peer port raw =
      let text = k.from_utf8 raw in dispatch peer port text (split colon text)
