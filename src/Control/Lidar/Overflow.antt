-- ===== src/Control/Lidar/Overflow.antt =====
-- A header that announces a packet which ends with it.
use trik_runtime.Prelude.{
  ℕ, ◌+◌, ◌<◌, ◌≤◌, ◌≡◌, ◌∙◌, true, false, none, some, List, [], ◌∷◌, ◌++◌, length, length-append,
  arith, leb, ltb, ◌==◌, ◌&&◌, not, Bool-cases, inl, inr,
}
use trik_runtime.Control.Lidar.{
  Lidar, header_size, chunk_size, header_ok, pkg_hdr_length, read_byte, read_data,
}
use trik_runtime.Control.Lidar.Bytes.{be16-append, read_data-cons, read_data-none}

read_byte_full :
    (s : Lidar) (b : ℕ) → s.flag_hunt ≡ false → chunk_size ≤ length s.chunk → read_byte s b ≡ none
unfolding read_byte
read_byte_full s b h full =
    let over : leb chunk_size (length s.chunk) ≡ true = ground arith in rw (h, over)

read_byte_short :
    (s : Lidar) (b : ℕ)
    → s.flag_hunt ≡ false
    → header_size ≤ length s.chunk
    → pkg_hdr_length s.chunk + 2 ≤ header_size
    → length s.chunk < chunk_size
    → read_byte s b ≡ some (record s { chunk = s.chunk ++ (b ∷ []) })
unfolding read_byte
read_byte_short s b h long short fits =
    let room : leb chunk_size (length s.chunk) ≡ false = ground arith in
    let size = length-append s.chunk (b ∷ []) in
    let field = be16-append s.chunk (b ∷ []) 1 (omega arith) in
    let past : ((length (s.chunk ++ (b ∷ [])) == header_size)
          && not (header_ok (s.chunk ++ (b ∷ []))))
        ≡ false =
      ground (arith, size) in
    let open_ended : (ltb header_size (length (s.chunk ++ (b ∷ [])))
          && (length (s.chunk ++ (b ∷ [])) == pkg_hdr_length (s.chunk ++ (b ∷ [])) + 2))
        ≡ false =
      ground (arith, size, field) in
    rw (h, room, past, open_ended)

-- Once a header has been accepted that announces no more than itself, the packet never ends: the
-- bytes that follow are all stored, and when the 4096 bytes of the chunk are full the next one is
-- written outside of it.
pub read_data_overflow :
    (s : Lidar) (bs : List ℕ)
    → s.flag_hunt ≡ false
    → header_size ≤ length s.chunk
    → pkg_hdr_length s.chunk + 2 ≤ header_size
    → length s.chunk ≤ chunk_size
    → chunk_size < length s.chunk + length bs
    → read_data s bs ≡ none
read_data_overflow s [] h long short fits over = absurd (omega arith)
read_data_overflow s (b ∷ bs) h long short fits over =
    elim (Bool-cases (leb chunk_size (length s.chunk))) [
      | inl full ↦ read_data-none s b bs (read_byte_full s b h (ground arith))
      | inr room ↦
          let size = length-append s.chunk (b ∷ []) in
          let field = be16-append s.chunk (b ∷ []) 1 (omega arith) in
          read_data-cons s (record s { chunk = s.chunk ++ (b ∷ []) }) b bs
            (read_byte_short s b h long short (ground arith))
          ∙ read_data_overflow (record s { chunk = s.chunk ++ (b ∷ []) }) bs h (omega (arith, size))
              (omega (arith, field)) (ground (arith, size)) (omega (arith, size))
    ]
