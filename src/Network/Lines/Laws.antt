-- ===== src/Network/Lines/Laws.antt =====
-- Whole lines come out the same however the stream is cut.
use trik_runtime.Prelude.{
  ℕ, ◌≡◌, refl, ap, sym, ◌∙◌, false, none, List, [], ◌∷◌, ◌++◌, arith, flatten, append_assoc, map,
  append-nil, Bool-cases, inl, inr, ◌==◌, Option-cases,
}
use trik_runtime.Text.{Bytes, index_of, split_parts}
use trik_runtime.Network.Lines.{
  newline, init_of, last_of, Lines, take_lines, read_line_chunk, read_line_chunks,
}

-- The lines of a text with no test for a newline.
abbrev all_lines : Bytes → Lines
all_lines b =
    let parts = split_parts newline b in (last_of parts.0 parts.1, init_of parts.0 parts.1)

split_parts-none : (b : Bytes) → index_of newline b ≡ none → split_parts newline b ≡ (b, [])
split_parts-none [] h = refl
split_parts-none (x ∷ xs) h = ground (arith, split_parts-none xs)

take_lines-all_lines : (b : Bytes) → take_lines b ≡ all_lines b
unfolding take_lines
take_lines-all_lines b = elim (Option-cases (index_of newline b)) [
  | inl e ↦ rw (e, split_parts-none b e)
  | inr (i, e) ↦ rw e
]

abbrev with_lines : List Bytes → Lines → Lines
with_lines out (rest, lines) = (rest, out ++ lines)

-- The parts of a text that goes on: the last part grows.
glue : Bytes → Bytes → List Bytes → Bytes × List Bytes
glue c part [] = split_parts newline (part ++ c)
glue c part (next ∷ more) = let rest = glue c next more in (part, rest.0 ∷ rest.1)

glue-cons :
    (c : Bytes) (x : ℕ) (part : Bytes) (more : List Bytes)
    → (x == newline) ≡ false
    → glue c (x ∷ part) more ≡ (x ∷ (glue c part more).0, (glue c part more).1)
unfolding glue
glue-cons c x part [] e = rw e
glue-cons c x part (next ∷ more) e = refl

split_parts-append :
    (b c : Bytes)
    → split_parts newline (b ++ c) ≡ glue c (split_parts newline b).0 (split_parts newline b).1
unfolding glue
split_parts-append [] c = refl
split_parts-append (x ∷ xs) c = elim (Bool-cases (x == newline)) [
  | inl e ↦ rw (e, split_parts-append xs c)
  | inr e ↦ rw (
    e,
    split_parts-append xs c,
    glue-cons c x (split_parts newline xs).0 (split_parts newline xs).1 e,
  )
]

abbrev lines_of : Bytes × List Bytes → Lines
lines_of (part, more) = (last_of part more, init_of part more)

lines_of-glue :
    (c part : Bytes) (more : List Bytes)
    → lines_of (glue c part more)
      ≡ with_lines (init_of part more) (all_lines (last_of part more ++ c))
unfolding glue
lines_of-glue c part [] = refl
lines_of-glue c part (next ∷ more) = ap (with_lines (part ∷ [])) (lines_of-glue c next more)

pub take_lines-append :
    (b c : Bytes)
    → take_lines (b ++ c) ≡ with_lines (take_lines b).1 (take_lines ((take_lines b).0 ++ c))
take_lines-append b c =
    let parts = split_parts newline b in
    rw
      (
        take_lines-all_lines (b ++ c),
        take_lines-all_lines b,
        take_lines-all_lines ((all_lines b).0 ++ c),
      )
      (ap lines_of (split_parts-append b c) ∙ lines_of-glue c parts.0 parts.1)

last_of-cons :
    (x : ℕ) (part : Bytes) (more : List Bytes)
    → (x == newline) ≡ false
    → index_of newline (last_of part more) ≡ none
    → index_of newline (last_of (x ∷ part) more) ≡ none
last_of-cons x part [] e h = ground arith
last_of-cons x part (next ∷ more) e h = h

index_of-last_of :
    (b : Bytes)
    → index_of newline (last_of (split_parts newline b).0 (split_parts newline b).1) ≡ none
index_of-last_of [] = refl
index_of-last_of (x ∷ xs) = elim (Bool-cases (x == newline)) [
  | inl e ↦ rw e (index_of-last_of xs)
  | inr e ↦
      let parts = split_parts newline xs in
      rw e (last_of-cons x parts.0 parts.1 e (index_of-last_of xs))
]

-- What a read leaves in the buffer holds no newline.
pub take_lines-rest : (b : Bytes) → take_lines (take_lines b).0 ≡ ((take_lines b).0, [])
take_lines-rest b = rw (take_lines-all_lines b) (
    take_lines-all_lines (all_lines b).0
    ∙ ap lines_of (split_parts-none (all_lines b).0 (index_of-last_of b)))

-- However the text of a FIFO is cut into reads, each of which is decoded on its own, the same lines come
-- out in the same order and the same remainder is kept, as if the texts of the reads had been put
-- together first; the buffer holds no whole line at the start.
pub read_line_chunks-flatten :
    (decode : Bytes → Bytes) (b : Bytes) (cs : List Bytes)
    → take_lines b ≡ (b, [])
    → read_line_chunks decode b cs ≡ take_lines (b ++ flatten (map decode cs))
unfolding read_line_chunks read_line_chunk flatten
read_line_chunks-flatten decode b [] h = rw append-nil (sym h)
read_line_chunks-flatten decode b (c ∷ cs) h =
    let (rest, lines) = take_lines (b ++ decode c) in
    rw (← append_assoc b (decode c) (flatten (map decode cs))) (
      ap (with_lines lines)
        (read_line_chunks-flatten decode rest cs (take_lines-rest (b ++ decode c)))
      ∙ sym (take_lines-append (b ++ decode c) (flatten (map decode cs))))
