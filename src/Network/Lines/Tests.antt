-- ===== src/Network/Lines/Tests.antt =====
-- Runs of the line reader.
use trik_runtime.Prelude.{
  ℕ, ◌≡◌, refl, [], ◌∷◌, List, flatten, map, ◌++◌, ◌-◌, ◌*◌, ◌+◌, ltb, if◌then◌else◌,
}
use trik_runtime.Text.{Bytes}
use trik_runtime.Network.Lines.{Lines, take_lines, read_line_chunk, read_line_chunks}
use trik_runtime.Network.Lines.Laws.{read_line_chunks-flatten}

-- UTF-8 for characters of one or two bytes; U+FFFD stands for a byte that is no character.
abbrev decode_alone : ℕ → ℕ
decode_alone x = if ltb x 0x80 then x else 0xfffd

decode : Bytes → Bytes
decode [] = []
decode (x ∷ []) = decode_alone x ∷ []
decode (x ∷ y ∷ rest) =
    let after = decode rest in
    let next = decode (y ∷ rest) in
    if ltb x 0xc0 then decode_alone x ∷ next else ((x - 0xc0) * 64 + (y - 0x80)) ∷ after

abbrev chunks : List Bytes
chunks = (b'a' ∷ 0xd0 ∷ 0xb6 ∷ []) ∷ (b'c' ∷ 10 ∷ 10 ∷ b'd' ∷ []) ∷ (b'e' ∷ []) ∷ []

chunks_run :
    read_line_chunks decode [] chunks ≡ (b'd' ∷ b'e' ∷ [], (b'a' ∷ 0x436 ∷ b'c' ∷ []) ∷ [] ∷ [])
unfolding read_line_chunks read_line_chunk take_lines decode
chunks_run = refl

read_line_chunks-flatten_example :
    read_line_chunks decode [] chunks ≡ take_lines ([] ++ flatten (map decode chunks))
unfolding take_lines
read_line_chunks-flatten_example = read_line_chunks-flatten decode [] chunks refl

-- A character that is cut by a read is lost, where one read would have kept it.
abbrev cut_run : Lines
cut_run = read_line_chunks decode [] ((0xd0 ∷ []) ∷ (0xb6 ∷ 10 ∷ []) ∷ [])

abbrev whole_run : Lines
whole_run = read_line_chunk decode [] (0xd0 ∷ 0xb6 ∷ 10 ∷ [])

cut_character :
    (cut_run ≡ ([], (0xfffd ∷ 0xfffd ∷ []) ∷ [])) × (whole_run ≡ ([], (0x436 ∷ []) ∷ []))
unfolding read_line_chunks read_line_chunk take_lines decode
cut_character = (refl, refl)
