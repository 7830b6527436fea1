-- ===== src/Network/Framing/Tests.antt =====
-- Runs of the framing.
use trik_runtime.Prelude.{◌≡◌, refl, [], ◌∷◌, List, flatten, arith}
use trik_runtime.Text.{Bytes}
use trik_runtime.Text.Decimals.{decimal, to_int, number}
use trik_runtime.Network.Framing.{round, reads, on_ready_read, process_buffer, packet, fresh}
use trik_runtime.Network.Framing.Fragments.{reads-flatten}
use trik_runtime.Network.Framing.RoundTrip.{reads-packets}

-- "5:hello", "0:" and "2:ok", cut in the middle of a length and of a message.
abbrev stream : List Bytes
stream =
    (b'5' ∷ [])
    ∷ (b':' ∷ b'h' ∷ b'e' ∷ [])
    ∷ []
    ∷ (b'l' ∷ b'l' ∷ b'o' ∷ b'0' ∷ b':' ∷ b'2' ∷ [])
    ∷ (b':' ∷ b'o' ∷ b'k' ∷ [])
    ∷ []

abbrev hello : Bytes
hello = b'h' ∷ b'e' ∷ b'l' ∷ b'l' ∷ b'o' ∷ []

abbrev ok : Bytes
ok = b'o' ∷ b'k' ∷ []

stream_run : reads decimal fresh stream ≡ (fresh, hello ∷ ok ∷ [])
unfolding reads on_ready_read process_buffer round to_int
stream_run = refl

reads-flatten_example : reads decimal fresh stream ≡ on_ready_read decimal fresh (flatten stream)
unfolding round
reads-flatten_example = reads-flatten decimal fresh stream refl

reads-packets_example : reads decimal fresh stream ≡ (fresh, hello ∷ ok ∷ [])
unfolding packet number flatten
reads-packets_example = reads-packets decimal (hello ∷ [] ∷ ok ∷ []) stream (omega arith) refl

-- A length that is no number is dropped up to its colon; a negative one passes on an empty message.
malformed_run :
    reads decimal fresh ((b'x' ∷ b':' ∷ b'-' ∷ b'3' ∷ b':' ∷ b'1' ∷ b':' ∷ b'a' ∷ []) ∷ [])
    ≡ (fresh, [] ∷ (b'a' ∷ []) ∷ [])
unfolding reads on_ready_read process_buffer round to_int
malformed_run = refl
