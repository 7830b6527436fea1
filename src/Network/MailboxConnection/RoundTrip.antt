-- ===== src/Network/MailboxConnection/RoundTrip.antt =====
-- What one mailbox writes, another reads.
use trik_runtime.Prelude.{
  ℕ, ◌≡◌, refl, ap, ◌∙◌, true, false, some, List, [], ◌∷◌, ◌++◌, All, ◌==◌, ◌<◌, arith,
}
use trik_runtime.Prelude.Int.{ℤ}
use trik_runtime.Text.{Bytes, Decimal, codes, split, split_parts, IsInt, is_numeric}
use trik_runtime.Network.Framing.{colon}
use trik_runtime.Network.MailboxConnection.{
  Codecs, new_connection, connection_info, new_data, register_command, connection_command,
  self_command, data_command, register_message, connection_message, self_message, data_message,
  dispatch, process_data,
}

abbrev NoColon : Bytes → Type 0
NoColon b = All (λ c. (c == colon) ≡ false) b

split_parts-NoColon : (xs : Bytes) → NoColon xs → split_parts colon xs ≡ (xs, [])
split_parts-NoColon [] h = refl
split_parts-NoColon (x ∷ xs) h = rw (h.0, split_parts-NoColon xs h.1)

-- A part without colons ends at the next colon.
split_parts-colon :
    (xs ys : Bytes) → NoColon xs → split_parts colon (xs ++ (colon ∷ ys)) ≡ (xs, split colon ys)
split_parts-colon [] ys h = refl
split_parts-colon (x ∷ xs) ys h = rw (h.0, split_parts-colon xs ys h.1)

numeric-NoColon : (xs : Bytes) → All (λ c. is_numeric c ≡ true) xs → NoColon xs
numeric-NoColon [] h = tt
numeric-NoColon (x ∷ xs) h = (ground arith, numeric-NoColon xs h.1)

numeric_ascii : (xs : Bytes) → All (λ c. is_numeric c ≡ true) xs → All (λ c. c < 128) xs
numeric_ascii [] h = tt
numeric_ascii (x ∷ xs) h = (ground arith, numeric_ascii xs h.1)

All-append : (P : ℕ → Type 0) (xs ys : Bytes) → All P xs → All P ys → All P (xs ++ ys)
All-append P [] ys hx hy = hy
All-append P (x ∷ xs) ys hx hy = (hx.0, All-append P xs ys hx.1 hy)

module _ {Host : Type 0} (d : Decimal) (k : Codecs Host) where
  plain : (n : ℤ) → NoColon (d.number n)
  plain n = numeric-NoColon (d.number n) (d.number_numeric n)

  process_data-eq :
      (peer : Host) (port : ℤ) (text raw : Bytes) (parsed : List Bytes)
      → k.from_utf8 raw ≡ text
      → split colon text ≡ parsed
      → process_data d k peer port raw ≡ dispatch d k peer port text parsed
  unfolding process_data
  process_data-eq peer port text raw parsed e parts = rw (e, parts)

  split_pair :
      (m n : ℤ) → split colon (d.number m ++ (colon ∷ d.number n)) ≡ d.number m ∷ d.number n ∷ []
  split_pair m n = rw (
    split_parts-colon (d.number m) (d.number n) (plain m),
    split_parts-NoColon (d.number n) (plain n),
  )

  ascii_pair : (m n : ℤ) → All (λ c. c < 128) (d.number m ++ (colon ∷ d.number n))
  ascii_pair m n =
      All-append (λ c. c < 128) (d.number m) (colon ∷ d.number n)
        (numeric_ascii _ (d.number_numeric m)) (omega arith, numeric_ascii _ (d.number_numeric n))

  is_text-append :
      (xs ys : Bytes) → All (λ c. c < 128) xs → All (λ c. c < 128) ys → k.is_text (xs ++ ys) ≡ true
  is_text-append xs ys hx hy = k.is_text_ascii (xs ++ ys) (All-append (λ c. c < 128) xs ys hx hy)

  -- A handshake reaches the other end as the announcement of a connection from the peer with the
  -- server port and the hull number that were sent; both are values of int.
  pub process_data-register_message :
      (peer : Host) (port server_port hull : ℤ)
      → IsInt server_port
      → IsInt hull
      → process_data d k peer port (register_message d k server_port hull)
        ≡ some (new_connection peer port server_port hull)
  unfolding register_message dispatch
  process_data-register_message peer port server_port hull hp hh =
      let tail = d.number server_port ++ (colon ∷ d.number hull) in
      let decoded =
        k.from_utf8-to_utf8 (register_command ++ tail)
          (is_text-append register_command tail (omega arith) (ascii_pair server_port hull)) in
      process_data-eq peer port _ _ (codes "register" ∷ d.number server_port ∷ d.number hull ∷ [])
        decoded (ap (◌∷◌ (codes "register")) (split_pair server_port hull))
      ∙ rw (d.to_int-number server_port hp, d.to_int-number hull hh)

  -- What one robot tells of a robot reaches the other end with the same address, server port and
  -- hull number; the address is an IPv4 one, and the numbers are values of int.
  pub process_data-connection_message :
      (peer ip : Host) (port server_port hull : ℤ)
      → k.is_ipv4 ip ≡ true
      → IsInt server_port
      → IsInt hull
      → process_data d k peer port (connection_message d k ip server_port hull)
        ≡ some (connection_info ip server_port hull)
  unfolding connection_message dispatch
  process_data-connection_message peer ip port server_port hull v4 hp hh =
      let pair = d.number server_port ++ (colon ∷ d.number hull) in
      let tail = k.host_text ip ++ (colon ∷ pair) in
      let ascii =
        All-append (λ c. c < 128) (k.host_text ip) (colon ∷ pair) (k.ipv4_ascii ip v4)
          (omega arith, ascii_pair server_port hull) in
      let decoded =
        k.from_utf8-to_utf8 (connection_command ++ tail)
          (is_text-append connection_command tail (omega arith) ascii) in
      process_data-eq peer port _ _
        (codes "connection" ∷ k.host_text ip ∷ d.number server_port ∷ d.number hull ∷ []) decoded
        (ap (λ p. codes "connection" ∷ p.0 ∷ p.1)
            (split_parts-colon (k.host_text ip) pair (k.ipv4_no_colon ip v4))
          ∙ ap (λ p. codes "connection" ∷ k.host_text ip ∷ p) (split_pair server_port hull))
      ∙ rw (d.to_int-number server_port hp, d.to_int-number hull hh, k.host_of-host_text ip)

  -- A robot's own hull number reaches the other end with the address and port of the peer.
  pub process_data-self_message :
      (peer : Host) (port hull : ℤ)
      → IsInt hull
      → process_data d k peer port (self_message d k hull) ≡ some (connection_info peer port hull)
  unfolding self_message dispatch
  process_data-self_message peer port hull hh =
      let decoded = k.from_utf8-to_utf8 (self_command ++ d.number hull) (
        is_text-append self_command (d.number hull) (omega arith)
          (numeric_ascii _ (d.number_numeric hull))) in
      process_data-eq peer port _ _ (codes "self" ∷ d.number hull ∷ []) decoded
        (ap (λ p. codes "self" ∷ p.0 ∷ p.1) (split_parts-NoColon (d.number hull) (plain hull)))
      ∙ rw (d.to_int-number hull hh)

  -- A message reaches the other end whole, whatever colons and commands it has in it; UTF-8 can
  -- write it.
  pub process_data-data_message :
      (peer : Host) (port : ℤ) (message : Bytes)
      → k.is_text (data_command ++ message) ≡ true
      → process_data d k peer port (data_message d k message)
        ≡ some (new_data peer port (k.to_utf8 message))
  unfolding process_data data_message dispatch
  process_data-data_message peer port message t =
      rw (k.from_utf8-to_utf8 (data_command ++ message) t)
