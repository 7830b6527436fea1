-- ===== src/Text.antt =====
-- QByteArray and QString as lists of code units, with the operations that the program calls.
pub mod Decimals
use trik_runtime.Prelude.{
  or_zero, get_elem?, Eq, subst, list_eq, list_eq→eq, list_eq_refl, ℕ, zero, suc, ◌+◌, ◌-◌, ◌≡◌,
  refl, ap, is_empty, Bool, true, false, Option, none, some, List, [], ◌∷◌, ◌++◌, arith, ◌==◌,
  if◌then◌else◌, take, drop, All, ◌&&◌, ◌||◌, leb, ◌^◌, ◌<◌,
}
use Prim.Native.Char.{code}
use Prim.Native.String.{String}
use trik_runtime.Prelude.Int.{ℤ, pos, negsuc}

abbrev pub Bytes : Type 0
Bytes = List ℕ

-- Texts are compared code unit by code unit.
instance abbrev pub bytes_eq : Eq Bytes
bytes_eq = record {
  beq = list_eq;
  beq_iff = λ a b. (list_eq→eq a b, λ h. subst (λ x. list_eq a x ≡ true) h (list_eq_refl a));
}

-- The byte at an index; 0 stands for what lies beyond the end.
abbrev pub byte : Bytes → ℕ → ℕ
byte b i = or_zero (get_elem? b i)

-- indexOf(c); `none` is the result -1.
abbrev pub index_of : ℕ → Bytes → Option ℕ
index_of c [] = none
index_of c (x ∷ xs) =
    if x == c then some 0 else (elim (index_of c xs) [ none ↦ none | some i ↦ some (suc i) ])

-- left(n): a negative length counts as 0.
abbrev pub left : ℤ → Bytes → Bytes
left (pos n) b = take n b
left (negsuc n) b = []

-- mid(n): everything from position n on; a negative position counts as 0.
abbrev pub mid : ℤ → Bytes → Bytes
mid (pos n) b = drop n b
mid (negsuc n) b = b

-- startsWith(prefix).
abbrev pub starts_with : Bytes → Bytes → Bool
starts_with [] b = true
starts_with (p ∷ ps) [] = false
starts_with (p ∷ ps) (x ∷ xs) = (p == x) && starts_with ps xs

-- split(c), empty parts kept: the first part, and the parts after each separator.
abbrev pub split_parts : ℕ → Bytes → Bytes × List Bytes
split_parts c [] = ([], [])
split_parts c (x ∷ xs) =
    let rest = split_parts c xs in if x == c then ([], rest.0 ∷ rest.1) else (x ∷ rest.0, rest.1)

abbrev pub split : ℕ → Bytes → List Bytes
split c b = let parts = split_parts c b in parts.0 ∷ parts.1

-- contains(text).
abbrev pub contains : Bytes → Bytes → Bool
contains [] text = starts_with text []
contains (x ∷ xs) text =
    let rest = contains xs text in if starts_with text (x ∷ xs) then true else rest

-- split(" ", QString::SkipEmptyParts).
abbrev pub without_empty : List Bytes → List Bytes
without_empty [] = []
without_empty (p ∷ ps) = let rest = without_empty ps in if is_empty p then rest else p ∷ rest

abbrev pub zero_or : Option ℤ → ℤ
zero_or none = pos 0
zero_or (some n) = n

abbrev pub is_digit : ℕ → Bool
is_digit c = leb b'0' c && leb c b'9'

-- A digit or a minus sign.
abbrev pub is_numeric : ℕ → Bool
is_numeric c = is_digit c || c == b'-'

-- The values of `int`.
abbrev pub IsInt : ℤ → Type 0
IsInt (pos n) = n < 2 ^ 31
IsInt (negsuc n) = n < 2 ^ 31

-- What the program relies on in the conversions of Qt between numbers and decimal text.
pub record Decimal : Type 0 where
  -- QByteArray::toInt, QString::toInt: `none` when `ok` is set to false
  pub to_int : Bytes → Option ℤ
  -- QByteArray::number, QString::number, QString::arg
  pub number : ℤ → Bytes
  pub to_int-number : (n : ℤ) → IsInt n → to_int (number n) ≡ some n
  pub number_numeric : (n : ℤ) → All (λ c. is_numeric c ≡ true) (number n)

-- The code points of a text of the source.
abbrev pub codes : String → Bytes
codes String.[] = []
codes (String.◌∷◌ c s) = code c ∷ codes s
