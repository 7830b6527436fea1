-- ===== src/Network/Framing/RoundTrip.antt =====
-- What one end sends is what the other end hands on.
use trik_runtime.Prelude.{
  ℕ, suc, ◌<◌, ◌^◌, ◌≡◌, refl, ap, ◌∙◌, true, false, some, List, [], ◌∷◌, ◌++◌, length, is_empty,
  if◌then◌else◌, arith, length-append, take-append, drop-append, append_assoc, flatten, map, All,
  drop, take, take-length, drop-length,
}
use trik_runtime.Prelude.Int.{pos}
use trik_runtime.Text.{Bytes, Decimal, index_of, is_numeric}
use trik_runtime.Network.Framing.{
  read_length, Buffer, emit, colon, round, process_buffer, on_ready_read, reads, packet, fresh,
}
use trik_runtime.Network.Framing.Fragments.{
  process_buffer_stop, process_buffer-round, reads-flatten,
}

-- The messages that are not empty.
abbrev pub not_empty : List Bytes → List Bytes
not_empty [] = []
not_empty (m ∷ ms) = if is_empty m then not_empty ms else m ∷ not_empty ms

is_empty-append : (xs ys : Bytes) (y : ℕ) → is_empty (xs ++ (y ∷ ys)) ≡ false
is_empty-append [] ys y = refl
is_empty-append (x ∷ xs) ys y = refl

index_of-numeric :
    (xs ys : Bytes)
    → All (λ c. is_numeric c ≡ true) xs
    → index_of colon (xs ++ (colon ∷ ys)) ≡ some (length xs)
index_of-numeric [] ys h = refl
index_of-numeric (x ∷ xs) ys h = ground (arith, index_of-numeric xs ys h.1)

take-prefix : (xs ys : Bytes) → take (length xs) (xs ++ ys) ≡ xs
take-prefix xs ys = take-append (length xs) xs ys (omega arith) ∙ take-length xs

drop-prefix : (xs ys : Bytes) → drop (length xs) (xs ++ ys) ≡ ys
drop-prefix xs ys = drop-append (length xs) xs ys (omega arith) ∙ rw (drop-length xs)

drop-suc-prefix : (xs ys : Bytes) (y : ℕ) → drop (suc (length xs)) (xs ++ (y ∷ ys)) ≡ ys
drop-suc-prefix [] ys y = refl
drop-suc-prefix (x ∷ xs) ys y = drop-suc-prefix xs ys y

emit-not_empty :
    (m : Bytes) (ms : List Bytes)
    → emit (not_empty (m ∷ [])) (fresh, not_empty ms) ≡ (fresh, not_empty (m ∷ ms))
emit-not_empty [] ms = refl
emit-not_empty (x ∷ m) ms = refl

abbrev idle : Bytes → Buffer
idle rest = record { buffer = rest; expected_bytes = pos 0 }

module _ (d : Decimal) where
  round-header :
      (n : ℕ) (rest : Bytes)
      → n < 2 ^ 31
      → round d (idle (d.number (pos n) ++ (colon ∷ rest)))
        ≡ some (record { buffer = rest; expected_bytes = pos n }, [])
  unfolding round
  round-header n rest h = rw (is_empty-append (d.number (pos n)) rest colon) (
      rw (index_of-numeric (d.number (pos n)) rest (d.number_numeric (pos n)), read_length)
        (rw (
          take-prefix (d.number (pos n)) (colon ∷ rest),
          drop-suc-prefix (d.number (pos n)) rest colon,
          d.to_int-number (pos n) h,
        )))

  round-body :
      (x : ℕ) (m rest : Bytes)
      → round d (record { buffer = (x ∷ m) ++ rest; expected_bytes = pos (suc (length m)) })
        ≡ some (idle rest, (x ∷ m) ∷ [])
  unfolding round
  round-body x m rest = ground (arith, length-append m rest, take-prefix m rest, drop-prefix m rest)

  process_buffer-packet :
      (m rest : Bytes)
      → length m < 2 ^ 31
      → process_buffer d (idle (packet d m ++ rest))
        ≡ emit (not_empty (m ∷ [])) (process_buffer d (idle rest))
  unfolding packet
  process_buffer-packet [] rest h =
      rw (append_assoc (d.number (pos 0)) (colon ∷ []) rest)
        (process_buffer-round d _ (idle rest) [] (round-header 0 rest h))
  process_buffer-packet (x ∷ m) rest h =
      rw (append_assoc (d.number (pos (suc (length m)))) (colon ∷ x ∷ m) rest) (
        process_buffer-round d _ _ [] (round-header (suc (length m)) ((x ∷ m) ++ rest) h)
        ∙ process_buffer-round d _ (idle rest) ((x ∷ m) ∷ []) (round-body x m rest))

  process_buffer-packets :
      (ms : List Bytes)
      → All (λ m. length m < 2 ^ 31) ms
      → process_buffer d (idle (flatten (map (packet d) ms))) ≡ (fresh, not_empty ms)
  unfolding flatten round
  process_buffer-packets [] h = process_buffer_stop d fresh refl
  process_buffer-packets (m ∷ ms) h =
      process_buffer-packet m (flatten (map (packet d) ms)) h.0
      ∙ ap (emit (not_empty (m ∷ []))) (process_buffer-packets ms h.1)
      ∙ emit-not_empty m ms

  -- Whatever sequence of messages is sent, and however the stream is cut into reads, the receiver
  -- hands on exactly the messages that are not empty, in order, and keeps nothing back. The
  -- messages are shorter than 2 ^ 31 bytes, and the receiver's buffer is fresh.
  pub reads-packets :
      (ms cs : List Bytes)
      → All (λ m. length m < 2 ^ 31) ms
      → flatten cs ≡ flatten (map (packet d) ms)
      → reads d fresh cs ≡ (fresh, not_empty ms)
  unfolding on_ready_read round
  reads-packets ms cs h e = reads-flatten d fresh cs refl ∙ rw e (process_buffer-packets ms h)
