-- ===== src/Network/Lines.antt =====
-- trikNetwork/src/connection.cpp and trikHal/src/trik/trikFifo.cpp: a stream cut into lines.
pub mod Laws
mod Tests
use trik_runtime.Prelude.{
  ◌≡◌, Bool, true, false, Option, none, some, List, [], ◌∷◌, ◌++◌, is_some, if◌then◌else◌, ℕ,
}
use trik_runtime.Text.{Bytes, index_of, split, split_parts}

abbrev pub newline : ℕ
newline = 10

-- All parts but the last, and the last.
abbrev pub init_of : Bytes → List Bytes → List Bytes
init_of part [] = []
init_of part (next ∷ more) = part ∷ init_of next more

abbrev pub last_of : Bytes → List Bytes → Bytes
last_of part [] = part
last_of part (next ∷ more) = last_of next more

-- What is left in the buffer, and the whole lines before it.
abbrev pub Lines : Type 0
Lines = Bytes × List Bytes

-- The lines are taken only where the buffer has a newline.
unfoldable pub take_lines : Bytes → Lines
take_lines buffer =
    let parts = split_parts newline buffer in
    if is_some (index_of newline buffer)
    then (last_of parts.0 parts.1, init_of parts.0 parts.1)
    else (buffer, [])

-- A read appends to the buffer of the FIFO, a QString: each read is decoded on its own.
unfoldable pub read_line_chunk : (Bytes → Bytes) → Bytes → Bytes → Lines
read_line_chunk decode buffer chunk = take_lines (buffer ++ decode chunk)

unfoldable pub read_line_chunks : (Bytes → Bytes) → Bytes → List Bytes → Lines
read_line_chunks decode buffer [] = (buffer, [])
read_line_chunks decode buffer (c ∷ cs) =
    let (rest, lines) = read_line_chunk decode buffer c in
    let (rest', more) = read_line_chunks decode rest cs in (rest', lines ++ more)
