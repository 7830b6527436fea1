-- ===== src/Network/MailboxConnection/Tests.antt =====
-- Messages of a mailbox. A host is a number that is written in unary, and texts are ASCII.
use trik_runtime.Prelude.{
  ℕ, zero, suc, ◌≡◌, refl, ap, true, false, some, [], ◌∷◌, All, ◌==◌, length, ◌<◌, arith,
}
use trik_runtime.Prelude.Int.{pos}
use trik_runtime.Text.{Bytes}
use trik_runtime.Text.Decimals.{decimal}
use trik_runtime.Network.Framing.{colon}
use trik_runtime.Network.MailboxConnection.{Codecs, connection_info, self_message, process_data}
use trik_runtime.Network.MailboxConnection.RoundTrip.{process_data-self_message}

abbrev ones : ℕ → Bytes
ones zero = []
ones (suc n) = 49 ∷ ones n

length-ones : (n : ℕ) → length (ones n) ≡ n
length-ones zero = refl
length-ones (suc n) = ap suc (length-ones n)

ones_no_colon : (n : ℕ) → All (λ c. (c == colon) ≡ false) (ones n)
ones_no_colon zero = tt
ones_no_colon (suc n) = (refl, ones_no_colon n)

ones_ascii : (n : ℕ) → All (λ c. c < 128) (ones n)
ones_ascii zero = tt
ones_ascii (suc n) = (omega arith, ones_ascii n)

abbrev unary : Codecs ℕ
unary = record {
  host_text = ones;
  host_of = length;
  host_of-host_text = length-ones;
  is_ipv4 = λ h. true;
  ipv4_no_colon = λ h v. ones_no_colon h;
  ipv4_ascii = λ h v. ones_ascii h;
  to_utf8 = λ t. t;
  from_utf8 = λ t. t;
  is_text = λ t. true;
  from_utf8-to_utf8 = λ t v. refl;
  is_text_ascii = λ t a. refl;
}

process_data-self_message_example :
    process_data decimal unary 3 (pos 50001) (self_message decimal unary (pos 7))
    ≡ some (connection_info 3 (pos 50001) (pos 7))
process_data-self_message_example =
    process_data-self_message decimal unary 3 (pos 50001) (pos 7) (omega arith)
