-- ===== src/Hal/UsbMsp/Hex.antt =====
-- trikHal/src/trik/usbMsp/usbMSP430Interface.cpp: hexadecimal numbers in packets, written by sprintf
-- and read by hex2num. Characters are unsigned, as on the controller.
use Prim.Native.Nat.{bit_or, bit_or-bitwise, digits}
use trik_runtime.Prelude.{
  ℕ, zero, suc, ◌+◌, ◌-◌, ◌*◌, ◌/◌, ◌%◌, ◌^◌, ◌≤◌, ◌<◌, ◌≡◌, refl, ◌∙◌, ap, max, List, [], ◌∷◌,
  ◌++◌, map, arith, ltb, leb, ◌&&◌, if◌then◌else◌, length, All, drop, length-append, subst,
}
use native.Mathlib.Nat.{pow-le-pow_right}
use trik_runtime.Text.{Bytes}

-- The digit that `%X` writes.
abbrev pub hex_digit : ℕ → ℕ
hex_digit d = if ltb d 10 then 48 + d else 55 + d

-- The last w hexadecimal digits of a number.
abbrev pub hex_digits : ℕ → ℕ → List ℕ
hex_digits zero n = []
hex_digits (suc w) n = hex_digits w (n / 16) ++ (n % 16) ∷ []

-- `%02X` and `%08X`, for numbers of at most w digits.
unfoldable pub hex_text : ℕ → ℕ → Bytes
hex_text w n = map hex_digit (hex_digits w n)

abbrev pub to_upper : ℕ → ℕ
to_upper c = if leb b'a' c && leb c b'z' then c - 32 else c

-- c > '9' ? c - 'A' + 10 : c - '0', as uint32_t.
abbrev pub hex_value : ℕ → ℕ
hex_value c =
    let u = to_upper c in
    if ltb b'9' u then (u + 2 ^ 32 - 55) % 2 ^ 32 else (u + 2 ^ 32 - 48) % 2 ^ 32

abbrev pub first_or_zero : Bytes → ℕ
first_or_zero [] = 0
first_or_zero (c ∷ cs) = c

-- The rounds that are left, numsize - i of them, at the text from string[pos + i] on.
pub hex_loop : Bytes → ℕ → ℕ → ℕ
hex_loop s zero resnum = resnum
hex_loop s (suc rounds) resnum =
    hex_loop (drop 1 s) rounds
      (bit_or resnum (hex_value (first_or_zero s) * 2 ^ (rounds * 4) % 2 ^ 32))

unfoldable pub hex2num : Bytes → ℕ → ℕ → ℕ
unfolding hex_loop
hex2num s pos numsize = hex_loop (drop pos s) numsize 0

-- The law of `bit_or` for the lowest digit, from the definition that it stands for.
abbrev or_digits : ℕ → ℕ → ℕ → ℕ
or_digits n a b = digits (λ b. b) max n a b

or_digits_fuel : (n m a b : ℕ) → a ≤ n → a ≤ m → or_digits n a b ≡ or_digits m a b
or_digits_fuel zero zero a b p q = refl
or_digits_fuel zero (suc m) zero b p q = refl
or_digits_fuel zero (suc m) (suc a) b p q = absurd (omega arith)
or_digits_fuel (suc n) zero zero b p q = refl
or_digits_fuel (suc n) zero (suc a) b p q = absurd (omega arith)
or_digits_fuel (suc n) (suc m) zero b p q = refl
or_digits_fuel (suc n) (suc m) (suc a) b p q =
    omega (arith, or_digits_fuel n m (suc a / 2) (b / 2) (omega arith) (omega arith))

zero-bit_or : (b : ℕ) → bit_or 0 b ≡ b
zero-bit_or b = bit_or-bitwise 0 b

bit_or_step : (a b : ℕ) → bit_or a b ≡ bit_or (a / 2) (b / 2) * 2 + max (a % 2) (b % 2)
bit_or_step zero b = omega (arith, zero-bit_or b, zero-bit_or (b / 2))
bit_or_step (suc a) b = omega (
  arith,
  bit_or-bitwise (suc a) b,
  bit_or-bitwise (suc a / 2) (b / 2),
  or_digits_fuel a (suc a / 2) (suc a / 2) (b / 2) (omega arith) (omega arith),
)

bit_or-zero_fuel : (n a : ℕ) → a ≤ n → bit_or a 0 ≡ a
bit_or-zero_fuel n zero h = refl
bit_or-zero_fuel zero (suc a) h = absurd (omega arith)
bit_or-zero_fuel (suc n) (suc a) h =
    omega (arith, bit_or_step (suc a) 0, bit_or-zero_fuel n (suc a / 2) (omega arith))

two_pow_suc : (k : ℕ) → 2 ^ suc k ≡ 2 * 2 ^ k
two_pow_suc k = omega arith

bit_or_even : (a b : ℕ) → bit_or (2 * a) b ≡ 2 * bit_or a (b / 2) + b % 2
bit_or_even a b =
    let half : 2 * a / 2 ≡ a = omega arith in
    let even : 2 * a % 2 ≡ 0 = omega arith in bit_or_step (2 * a) b ∙ rw (half, even) (omega arith)

-- Digits that do not overlap are added.
pub bit_or_low : (k a b : ℕ) → b < 2 ^ k → bit_or (a * 2 ^ k) b ≡ a * 2 ^ k + b
bit_or_low zero a b h =
    let e : b ≡ 0 = omega arith in
    rw e (bit_or-zero_fuel (a * 1) (a * 1) (omega arith) ∙ omega arith)
bit_or_low (suc k) a b h =
    let e : a * 2 ^ suc k ≡ 2 * (a * 2 ^ k) = rw two_pow_suc (grind arith) in
    rw e (
      bit_or_even (a * 2 ^ k) b
      ∙ omega (arith, bit_or_low k a (b / 2) (omega (arith, two_pow_suc k))))

-- The number that digits stand for, after a.
pub hex_number : ℕ → List ℕ → ℕ
hex_number a [] = a
hex_number a (d ∷ ds) = hex_number (a * 16 + d) ds

hex_value_digit : (d : ℕ) → d < 16 → hex_value (hex_digit d) ≡ d
hex_value_digit d h = ground arith

pow_digit : (n : ℕ) → 2 ^ (suc n * 4) ≡ 16 * 2 ^ (n * 4)
pow_digit n = ground (
  arith,
  two_pow_suc (n * 4),
  two_pow_suc (n * 4 + 1),
  two_pow_suc (n * 4 + 2),
  two_pow_suc (n * 4 + 3),
)

two_pow_pos : (n : ℕ) → 0 < 2 ^ n
two_pow_pos zero = omega arith
two_pow_pos (suc n) = omega (arith, two_pow_suc n, two_pow_pos n)

times_lt : (a b p : ℕ) → a < b → 0 < p → a * p < b * p
times_lt a b p h k = grind arith

mod_lt : (a m : ℕ) → a < m → a % m ≡ a
mod_lt a m h = grind arith

digit_sum : (a d p : ℕ) → a * (16 * p) + d * p ≡ (a * 16 + d) * p
digit_sum a d p = grind arith

next_digit :
    (n a d : ℕ)
    → d < 16
    → (a + 1) * 2 ^ (suc n * 4) ≤ 2 ^ 32
    → bit_or (a * 2 ^ (suc n * 4)) (d * 2 ^ (n * 4) % 2 ^ 32) ≡ (a * 16 + d) * 2 ^ (n * 4)
next_digit n a d h k =
    let p : ℕ = 2 ^ (n * 4) in
    let e : 2 ^ (suc n * 4) ≡ 16 * p = pow_digit n in
    let small : d * p < 16 * p = times_lt d 16 p h (two_pow_pos (n * 4)) in
    let fits : d * p % 2 ^ 32 ≡ d * p = mod_lt (d * p) (2 ^ 32) (grind arith) in
    rw fits (bit_or_low (suc n * 4) a (d * p) (rw e small) ∙ rw e (digit_sum a d p))

next_bound :
    (n a d : ℕ)
    → d < 16
    → (a + 1) * 2 ^ (suc n * 4) ≤ 2 ^ 32
    → (a * 16 + d + 1) * 2 ^ (n * 4) ≤ 2 ^ 32
next_bound n a d h k =
    let p : ℕ = 2 ^ (n * 4) in
    let e : 2 ^ (suc n * 4) ≡ 16 * p = pow_digit n in
    let k' : (a + 1) * (16 * p) ≤ 2 ^ 32 = rw e at k in grind arith

-- hex2num reads any digits that stand for a number of 32 bits.
pub hex_loop-digits :
    (ds : List ℕ) (rest : Bytes) (a : ℕ)
    → All (λ d. d < 16) ds
    → (a + 1) * 2 ^ (length ds * 4) ≤ 2 ^ 32
    → hex_loop (map hex_digit ds ++ rest) (length ds) (a * 2 ^ (length ds * 4)) ≡ hex_number a ds
unfolding hex_loop hex_number
hex_loop-digits [] rest a h k = omega arith
hex_loop-digits (d ∷ ds) rest a h k =
    let first : bit_or (a * 2 ^ (suc (length ds) * 4))
          (hex_value (hex_digit d) * 2 ^ (length ds * 4) % 2 ^ 32)
        ≡ (a * 16 + d) * 2 ^ (length ds * 4) =
      ap (λ v. bit_or (a * 2 ^ (suc (length ds) * 4)) (v * 2 ^ (length ds * 4) % 2 ^ 32))
        (hex_value_digit d h.0)
      ∙ next_digit (length ds) a d h.0 k in
    ap (hex_loop (map hex_digit ds ++ rest) (length ds)) first
    ∙ hex_loop-digits ds rest (a * 16 + d) h.1 (next_bound (length ds) a d h.0 k)

hex_number-append : (xs : List ℕ) (a d : ℕ) → hex_number a (xs ++ d ∷ []) ≡ hex_number a xs * 16 + d
unfolding hex_number
hex_number-append [] a d = refl
hex_number-append (x ∷ xs) a d = hex_number-append xs (a * 16 + x) d

hex_number-hex_digits : (w n : ℕ) → n < 2 ^ (w * 4) → hex_number 0 (hex_digits w n) ≡ n
unfolding hex_number
hex_number-hex_digits zero n h = omega arith
hex_number-hex_digits (suc w) n h =
    hex_number-append (hex_digits w (n / 16)) 0 (n % 16)
    ∙ omega (arith, hex_number-hex_digits w (n / 16) (omega (arith, pow_digit w)))

pub length-hex_digits : (w n : ℕ) → length (hex_digits w n) ≡ w
length-hex_digits zero n = refl
length-hex_digits (suc w) n =
    length-append (hex_digits w (n / 16)) ((n % 16) ∷ [])
    ∙ omega (arith, length-hex_digits w (n / 16))

All-append_digit :
    (xs : List ℕ) (d : ℕ) → All (λ x. x < 16) xs → d < 16 → All (λ x. x < 16) (xs ++ d ∷ [])
All-append_digit [] d h k = (k, tt)
All-append_digit (x ∷ xs) d h k = (h.0, All-append_digit xs d h.1 k)

hex_digits_small : (w n : ℕ) → All (λ d. d < 16) (hex_digits w n)
hex_digits_small zero n = tt
hex_digits_small (suc w) n =
    All-append_digit (hex_digits w (n / 16)) (n % 16) (hex_digits_small w (n / 16)) (omega arith)

pub hex_loop-hex_text :
    (w n : ℕ) (rest : Bytes) → w ≤ 8 → n < 2 ^ (w * 4) → hex_loop (hex_text w n ++ rest) w 0 ≡ n
unfolding hex_text
hex_loop-hex_text w n rest k h =
    let same : length (hex_digits w n) ≡ w = length-hex_digits w n in
    let bound : 2 ^ (w * 4) ≤ 2 ^ 32 =
      pow-le-pow_right {n = 2} (omega arith) {j = 32} (omega arith) in
    let start : 0 ≡ 0 * 2 ^ (length (hex_digits w n) * 4) = omega arith in
    subst (λ v. hex_loop (hex_text w n ++ rest) v 0 ≡ n) same
      (ap (hex_loop (hex_text w n ++ rest) (length (hex_digits w n))) start
        ∙ hex_loop-digits (hex_digits w n) rest 0 (hex_digits_small w n)
            (rw same (omega (arith, bound)))
        ∙ hex_number-hex_digits w n h)
