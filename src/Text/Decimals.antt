-- ===== src/Text/Decimals.antt =====
-- Decimal numbers as Qt writes and reads them without spaces: a model of what the program assumes.
use trik_runtime.Prelude.{
  ℕ, zero, suc, refl, ◌+◌, ◌-◌, ◌*◌, ◌/◌, ◌%◌, ◌<◌, ◌^◌, ◌≡◌, ap, true, false, Option, none, some,
  [], ◌∷◌, arith, ltb, if◌then◌else◌, All, Bool-cases, inl, inr, is_empty, ◌==◌, ltb→lt, lt→ltb,
  ◌∙◌,
}
use trik_runtime.Prelude.Int.{ℤ, pos, negsuc}
use trik_runtime.Text.{Bytes, Decimal, IsInt, is_digit, is_numeric}

digits : ℕ → ℕ → Bytes → Bytes
digits zero n acc = acc
digits (suc fuel) n acc =
    let rest = digits fuel (n / 10) ((48 + n % 10) ∷ acc) in
    if ltb n 10 then (48 + n) ∷ acc else rest

unfoldable pub nat : ℕ → Bytes
unfolding digits
nat n = digits (suc n) n []

value : ℕ → Bytes → Option ℕ
value acc [] = some acc
value acc (c ∷ cs) = let rest = value (acc * 10 + (c - 48)) cs in if is_digit c then rest else none

abbrev within : Option ℕ → Option ℤ
within none = none
within (some n) = if ltb n (2 ^ 31) then some (pos n) else none

abbrev negated : Option ℕ → Option ℤ
negated none = none
negated (some zero) = some (pos 0)
negated (some (suc n)) = if ltb n (2 ^ 31) then some (negsuc n) else none

unfoldable pub to_int : Bytes → Option ℤ
unfolding value
to_int [] = none
to_int (c ∷ cs) =
    if c == b'-'
    then (if is_empty cs then none else negated (value 0 cs))
    else within (value 0 (c ∷ cs))

digits-All :
    (f n : ℕ) (acc : Bytes)
    → All (λ c. is_digit c ≡ true) acc
    → All (λ c. is_digit c ≡ true) (digits f n acc)
unfolding digits
digits-All zero n acc h = h
digits-All (suc f) n acc h = elim (Bool-cases (ltb n 10)) [
  | inl small ↦ rw small (ground arith, h)
  | inr large ↦ rw large (digits-All f (n / 10) ((48 + n % 10) ∷ acc) (ground arith, h))
]

value_digit : (m k : ℕ) (acc : Bytes) → k < 10 → value m ((48 + k) ∷ acc) ≡ value (m * 10 + k) acc
unfolding value
value_digit m k acc h =
    let digit : is_digit (48 + k) ≡ true = ground arith in
    let same : m * 10 + (48 + k - 48) ≡ m * 10 + k = omega arith in rw (digit, same)

value-digits : (f n : ℕ) (acc : Bytes) → n < f → value 0 (digits f n acc) ≡ value n acc
unfolding digits
value-digits zero n acc h = absurd (omega arith)
value-digits (suc f) n acc h = elim (Bool-cases (ltb n 10)) [
  | inl small ↦
      rw small (value_digit 0 n acc (ltb→lt n 10 small) ∙ ap (λ m. value m acc) (omega arith))
  | inr large ↦ rw large (
      value-digits f (n / 10) ((48 + n % 10) ∷ acc) (ground arith)
      ∙ value_digit (n / 10) (n % 10) acc (omega arith)
      ∙ ap (λ m. value m acc) (omega arith))
]

nat_digits : (n : ℕ) → All (λ c. is_digit c ≡ true) (nat n)
unfolding nat
nat_digits n = digits-All (suc n) n [] tt

is_empty-digits : (f n : ℕ) (acc : Bytes) → is_empty acc ≡ false → is_empty (digits f n acc) ≡ false
unfolding digits
is_empty-digits zero n acc h = h
is_empty-digits (suc f) n acc h = ground (arith, is_empty-digits f (n / 10) ((48 + n % 10) ∷ acc))

is_empty-nat : (n : ℕ) → is_empty (nat n) ≡ false
unfolding nat digits
is_empty-nat n = ground (arith, is_empty-digits n (n / 10) ((48 + n % 10) ∷ []))

to_int_digits :
    (xs : Bytes)
    → All (λ c. is_digit c ≡ true) xs
    → is_empty xs ≡ false
    → to_int xs ≡ within (value 0 xs)
unfolding to_int
to_int_digits [] h e = cc
to_int_digits (x ∷ xs) h e = let other : (x == b'-') ≡ false = ground arith in rw other

to_int-nat : (n : ℕ) → n < 2 ^ 31 → to_int (nat n) ≡ some (pos n)
unfolding nat value
to_int-nat n h =
    to_int_digits (nat n) (nat_digits n) (is_empty-nat n)
    ∙ rw (value-digits (suc n) n [] (omega arith), value) (rw (lt→ltb n (2 ^ 31) h))

unfoldable pub number : ℤ → Bytes
unfolding nat
number (pos n) = nat n
number (negsuc n) = b'-' ∷ nat (suc n)

All-numeric : (xs : Bytes) → All (λ c. is_digit c ≡ true) xs → All (λ c. is_numeric c ≡ true) xs
All-numeric [] h = tt
All-numeric (x ∷ xs) h = (ground arith, All-numeric xs h.1)

pub number_numeric : (n : ℤ) → All (λ c. is_numeric c ≡ true) (number n)
unfolding number
number_numeric (pos n) = All-numeric (nat n) (nat_digits n)
number_numeric (negsuc n) = (refl, All-numeric (nat (suc n)) (nat_digits (suc n)))

pub to_int-number : (n : ℤ) → IsInt n → to_int (number n) ≡ some n
unfolding number nat to_int value
to_int-number (pos n) h = to_int-nat n h
to_int-number (negsuc n) h =
    rw (is_empty-nat (suc n))
      (rw (value-digits (suc (suc n)) (suc n) [] (omega arith), value) (rw (lt→ltb n (2 ^ 31) h)))

abbrev pub decimal : Decimal
decimal = record {
  to_int = to_int;
  number = number;
  to_int-number = to_int-number;
  number_numeric = number_numeric;
}
