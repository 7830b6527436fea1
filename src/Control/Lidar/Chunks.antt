-- ===== src/Control/Lidar/Chunks.antt =====
-- Packets in a stream of bytes.
use trik_runtime.Prelude.{
  ℕ, ◌+◌, ◌<◌, ◌≤◌, ◌≡◌, refl, ap, sym, ◌∙◌, true, false, Option, some, and_then, List, [], ◌∷◌,
  ◌++◌, length, length-append, append_assoc, arith, leb, ltb, ◌==◌, ◌&&◌, not, inl, inr, All, subst,
  Option-cases,
}
use trik_runtime.Control.Lidar.{
  Lidar, header_magic, header_size, chunk_size, header_ok, pkg_hdr_length, read_byte, read_data,
  complete,
}
use trik_runtime.Control.Lidar.Bytes.{
  be16-append, header_ok-append, read_data-cons, read_data-append, nothing_read,
}

-- A packet that passes the sanity checks and is longer than its header; the checksum may be wrong.
pub record IsPacket (p : List ℕ) : Type 0 where
  pub header : header_ok p ≡ true
  pub size : length p ≡ pkg_hdr_length p + 2
  pub long : header_size < length p
  pub fits : length p ≤ chunk_size

-- The last byte of a packet.
read_byte_last :
    (s : Lidar) (b : ℕ)
    → s.flag_hunt ≡ false
    → IsPacket (s.chunk ++ (b ∷ []))
    → read_byte s b ≡ complete (s.chunk ++ (b ∷ [])) s
unfolding read_byte
read_byte_last s b h p =
    let c = s.chunk ++ (b ∷ []) in
    let size = length-append s.chunk (b ∷ []) in
    let long = p.long in
    let fits = p.fits in
    let whole = p.size in
    let room : leb chunk_size (length s.chunk) ≡ false = ground arith in
    let past : ((length c == header_size) && not (header_ok c)) ≡ false = ground arith in
    let ends : (ltb header_size (length c) && (length c == pkg_hdr_length c + 2)) ≡ true =
      ground arith in
    rw (h, room, past, ends)

-- A byte before the last one.
read_byte_inside :
    (s : Lidar) (b : ℕ) (rest : List ℕ)
    → s.flag_hunt ≡ false
    → 0 < length rest
    → IsPacket (s.chunk ++ (b ∷ []) ++ rest)
    → read_byte s b ≡ some (record s { chunk = s.chunk ++ (b ∷ []) })
unfolding read_byte
read_byte_inside s b rest h more p =
    let c = s.chunk ++ (b ∷ []) in
    let size = length-append s.chunk (b ∷ []) in
    let total = length-append c rest in
    let long = p.long in
    let fits = p.fits in
    let whole = p.size in
    let header = p.header in
    let room : leb chunk_size (length s.chunk) ≡ false = ground arith in
    let sane : ((length c == header_size) && not (header_ok c)) ≡ false =
      ground (arith, header_ok-append c rest) in
    let goes_on : (ltb header_size (length c) && (length c == pkg_hdr_length c + 2)) ≡ false =
      ground (arith, be16-append c rest 1) in
    rw (h, room, sane, goes_on)

complete-chunk : (c d : List ℕ) (s : Lidar) → complete c (record s { chunk = d }) ≡ complete c s
unfolding complete
complete-chunk c d s = refl

complete-hunt :
    (c d : List ℕ) (s : Lidar)
    → complete c (record s { chunk = d; flag_hunt = false }) ≡ complete c s
unfolding complete
complete-hunt c d s = refl

-- What is left of a packet, and what follows it.
read_rest :
    (s : Lidar) (b : ℕ) (rest more : List ℕ)
    → s.flag_hunt ≡ false
    → IsPacket (s.chunk ++ (b ∷ rest))
    → read_data s (b ∷ rest ++ more)
      ≡ and_then (complete (s.chunk ++ (b ∷ rest)) s) (λ t. read_data t more)
unfolding read_data
read_rest s b [] more h p = ap (λ o. and_then o (λ t. read_data t more)) (read_byte_last s b h p)
read_rest s b (x ∷ rest) more h p =
    let u = record s { chunk = s.chunk ++ (b ∷ []) } in
    let same = append_assoc s.chunk (b ∷ []) (x ∷ rest) in
    let whole = s.chunk ++ (b ∷ []) ++ (x ∷ rest) in
    read_data-cons s u b (x ∷ rest ++ more)
      (read_byte_inside s b (x ∷ rest) h (omega arith) (subst IsPacket (sym same) p))
    ∙ read_rest u x rest more h (subst IsPacket (sym same) p)
    ∙ ap (λ o. and_then o (λ t. read_data t more))
        (complete-chunk whole (s.chunk ++ (b ∷ [])) s ∙ ap (λ c. complete c s) same)

header_ok-magic : (b : ℕ) (rest : List ℕ) → header_ok (b ∷ rest) ≡ true → b ≡ header_magic
unfolding header_ok
header_ok-magic b rest h = ground arith

read_byte_magic :
    (s : Lidar) (b : ℕ)
    → s.flag_hunt ≡ true
    → b ≡ header_magic
    → read_byte s b ≡ some (record s { chunk = b ∷ []; flag_hunt = false })
unfolding read_byte
read_byte_magic s b h e = let same : (b == header_magic) ≡ true = ground arith in rw (h, same)

-- A packet that begins where one is looked for.
read_packet :
    (s : Lidar) (p more : List ℕ)
    → s.flag_hunt ≡ true
    → IsPacket p
    → read_data s (p ++ more) ≡ and_then (complete p s) (λ t. read_data t more)
read_packet s [] more h p = let long = p.long in absurd (omega arith)
read_packet s (a ∷ []) more h p = let long = p.long in absurd (omega arith)
read_packet s (a ∷ b ∷ rest) more h p =
    let u = record s { chunk = a ∷ []; flag_hunt = false } in
    read_data-cons s u a (b ∷ rest ++ more)
      (read_byte_magic s a h (header_ok-magic a (b ∷ rest) p.header))
    ∙ read_rest u b rest more refl p
    ∙ ap (λ o. and_then o (λ t. read_data t more)) (complete-hunt (a ∷ b ∷ rest) (a ∷ []) s)

read_byte_noise :
    (s : Lidar) (b : ℕ) → s.flag_hunt ≡ true → (b == header_magic) ≡ false → read_byte s b ≡ some s
unfolding read_byte
read_byte_noise s b h e = rw (h, e)

-- Bytes without a magic number before a packet are skipped.
skip_noise :
    (s : Lidar) (noise : List ℕ)
    → s.flag_hunt ≡ true
    → All (λ b. (b == header_magic) ≡ false) noise
    → read_data s noise ≡ some s
unfolding read_data
skip_noise s [] h q = refl
skip_noise s (b ∷ noise) h q =
    read_data-cons s s b noise (read_byte_noise s b h q.0) ∙ skip_noise s noise h q.1

-- A stream of packets, each after some noise.
abbrev pub stream : List (List ℕ × List ℕ) → List ℕ
stream [] = []
stream ((noise, p) ∷ rest) = noise ++ (p ++ stream rest)

abbrev pub complete_all : Lidar → List (List ℕ × List ℕ) → Option Lidar
complete_all s [] = some s
complete_all s ((noise, p) ∷ rest) = and_then (complete p s) (λ t. complete_all t rest)

abbrev pub AreFramed : List (List ℕ × List ℕ) → Type 0
AreFramed = All (λ f. All (λ b. (b == header_magic) ≡ false) f.0 × IsPacket f.1)

complete-hunts : (p : List ℕ) (s t : Lidar) → complete p s ≡ some t → t.flag_hunt ≡ true
unfolding complete
complete-hunts p s t h = ground arith

-- Every packet of a stream is taken up exactly once and in order, whatever noise comes before it;
-- a packet passes the sanity checks and is longer than its header, its checksum may be wrong, and
-- noise has no magic number. The worker looks for a packet at the start.
pub read_data-stream :
    (s : Lidar) (fs : List (List ℕ × List ℕ))
    → s.flag_hunt ≡ true
    → AreFramed fs
    → read_data s (stream fs) ≡ complete_all s fs
read_data-stream s [] h q = sym (nothing_read s)
read_data-stream s ((noise, p) ∷ rest) h q =
    read_data-append s s noise (p ++ stream rest) (skip_noise s noise h q.0.0)
    ∙ read_packet s p (stream rest) h q.0.1
    ∙ (elim (Option-cases (complete p s)) [
      | inl e ↦ rw e
      | inr (t, e) ↦ rw e (read_data-stream t rest (complete-hunts p s t e) q.1)
    ])
