-- ===== src/Control/Lidar/Bytes.antt =====
-- The fields of a chunk stay as they are while bytes come in.
use trik_runtime.Prelude.{
  ℕ, zero, suc, ◌<◌, ◌≤◌, ◌≡◌, refl, List, [], ◌∷◌, ◌++◌, length, get_elem?, arith, ap,
  Option-cases, inl, inr, and_then, sym, ◌∙◌, ◌≢◌, none, some,
}
use trik_runtime.Text.{byte}
use trik_runtime.Control.Lidar.{Lidar, be16, header_ok, header_size, read_byte, read_data}

get_elem?-append :
    (xs ys : List ℕ) (i : ℕ) → i < length xs → get_elem? (xs ++ ys) i ≡ get_elem? xs i
get_elem?-append [] ys i h = absurd (omega arith)
get_elem?-append (x ∷ xs) ys zero h = refl
get_elem?-append (x ∷ xs) ys (suc i) h = get_elem?-append xs ys i (omega arith)

pub byte-append : (xs ys : List ℕ) (i : ℕ) → i < length xs → byte (xs ++ ys) i ≡ byte xs i
byte-append xs ys i h = rw (get_elem?-append xs ys i h)

pub be16-append : (xs ys : List ℕ) (i : ℕ) → suc i < length xs → be16 (xs ++ ys) i ≡ be16 xs i
unfolding be16
be16-append xs ys i h = rw (byte-append xs ys i (omega arith), byte-append xs ys (suc i) h)

pub header_ok-append :
    (xs ys : List ℕ) → header_size ≤ length xs → header_ok (xs ++ ys) ≡ header_ok xs
unfolding header_ok
header_ok-append xs ys h = rw (
  byte-append xs ys 0 (omega arith),
  byte-append xs ys 3 (omega arith),
  byte-append xs ys 4 (omega arith),
  byte-append xs ys 5 (omega arith),
  be16-append xs ys 1 (omega arith),
  be16-append xs ys 6 (omega arith),
)

pub read_data-cons :
    (s u : Lidar) (b : ℕ) (bs : List ℕ)
    → read_byte s b ≡ some u
    → read_data s (b ∷ bs) ≡ read_data u bs
unfolding read_data
read_data-cons s u b bs e = ap (λ o. and_then o (λ u'. read_data u' bs)) e

pub read_data-none :
    (s : Lidar) (b : ℕ) (bs : List ℕ) → read_byte s b ≡ none → read_data s (b ∷ bs) ≡ none
unfolding read_data
read_data-none s b bs e = ap (λ o. and_then o (λ u'. read_data u' bs)) e

pub nothing_read : (s : Lidar) → some s ≡ read_data s []
unfolding read_data
nothing_read s = refl

none≢some : {t : Lidar} → none ≢ some t
none≢some h = ground arith

-- Reading goes on from the state that the first bytes leave.
pub read_data-append :
    (s t : Lidar) (xs ys : List ℕ)
    → read_data s xs ≡ some t
    → read_data s (xs ++ ys) ≡ read_data t ys
read_data-append s t [] ys h = ap (λ o. and_then o (λ u'. read_data u' ys)) (nothing_read s ∙ h)
read_data-append s t (x ∷ xs) ys h = elim (Option-cases (read_byte s x)) [
  | inl e ↦ absurd (none≢some (sym (read_data-none s x xs e) ∙ h))
  | inr (u, e) ↦
      read_data-cons s u x (xs ++ ys) e
      ∙ read_data-append u t xs ys (sym (read_data-cons s u x xs e) ∙ h)
]
