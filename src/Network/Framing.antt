-- ===== src/Network/Framing.antt =====
-- trikNetwork/src/connection.cpp: the incoming buffer of a connection and its two framings.
pub mod Fragments
pub mod RoundTrip
mod Tests
use trik_runtime.Prelude.{
  ℕ, zero, suc, ◌+◌, ◌*◌, ◌≡◌, Bool, true, false, Option, none, some, List, [], ◌∷◌, ◌++◌, length,
  is_empty, if◌then◌else◌,
}
use trik_runtime.Prelude.Int.{ℤ, pos, negsuc, leb_ℤ, is_zero}
use trik_runtime.Text.{Bytes, Decimal, index_of, left, mid}

-- mBuffer and mExpectedBytes.
pub record Buffer : Type 0 where
  pub buffer : Bytes
  pub expected_bytes : ℤ

-- A buffer after some messages were handed on.
abbrev pub Run : Type 0
Run = Buffer × List Bytes

abbrev pub emit : List Bytes → Run → Run
emit out (s, rest) = (s, out ++ rest)

abbrev pub colon : ℕ
colon = b':'

-- toInt returns 0 on malformed text, and so the expected length falls back to 0.
abbrev pub or_zero : Option ℤ → ℤ
or_zero none = pos 0
or_zero (some n) = n

-- A round drops the delimiter or settles the expected length.
abbrev pub measure : Buffer → ℕ
measure s = length s.buffer * 2 + (if is_zero s.expected_bytes then 0 else 1)

-- The buffer of a new connection.
abbrev pub fresh : Buffer
fresh = record { buffer = []; expected_bytes = pos 0 }

module _ (d : Decimal) where
  -- Connection::send: the message as it is written to the socket.
  unfoldable pub packet : Bytes → Bytes
  packet message = d.number (pos (length message)) ++ (colon ∷ message)

  -- The branch that determines the length of a message.
  abbrev pub read_length : Buffer → Option Run
  read_length s = elim (index_of colon s.buffer) [
    | none ↦ none
    | some i ↦ some (
      record {
        buffer = mid (pos (suc i)) s.buffer;
        expected_bytes = or_zero (d.to_int (left (pos i) s.buffer));
      },
      [],
    )
  ]

  -- The branch that waits for a whole message.
  abbrev pub read_message : Buffer → Option Run
  read_message s =
      if leb_ℤ s.expected_bytes (pos (length s.buffer))
      then some (
        record { buffer = mid s.expected_bytes s.buffer; expected_bytes = pos 0 },
        left s.expected_bytes s.buffer ∷ [],
      )
      else none

  -- One round of the `while`; `none` when the loop ends.
  unfoldable pub round : Buffer → Option Run
  round s =
      if is_empty s.buffer
      then none
      else if is_zero s.expected_bytes
      then read_length s
      else read_message s

  unfoldable pub rounds : ℕ → Buffer → Run
  rounds zero s = (s, [])
  rounds (suc fuel) s = elim (round s) [
    | none ↦ (s, [])
    | some (s', out) ↦ emit out (rounds fuel s')
  ]

  -- processBuffer for Protocol::messageLength.
  unfoldable pub process_buffer : Buffer → Run
  unfolding rounds
  process_buffer s = rounds (suc (measure s)) s

  -- onReadyRead: what the socket has is appended and processed.
  unfoldable pub on_ready_read : Buffer → Bytes → Run
  on_ready_read s chunk = process_buffer (record s { buffer = s.buffer ++ chunk })

  -- A sequence of reads.
  unfoldable pub reads : Buffer → List Bytes → Run
  reads s [] = (s, [])
  reads s (c ∷ cs) = let (s', out) = on_ready_read s c in emit out (reads s' cs)
