-- ===== src/Kernel/TimeVal/Intervals.antt =====
-- trikKernel/include/trikKernel/timeVal.h: how exact an interval is.
use trik_runtime.Prelude.{
  ℕ, lt→ltb, ◌+◌, ◌-◌, ◌*◌, ◌%◌, ◌^◌, ◌≤◌, ◌<◌, ◌≡◌, arith, if◌then◌else◌, ◌∙◌, ap,
}
use trik_runtime.Prelude.Int.{pos, negsuc}
use trik_runtime.Kernel.TimeVal.{time_val, minus, shifted_difference, to_int32}

-- A time is its microseconds less what the units leave out, as far as 32 bits go.
packed :
    (s m : ℕ)
    → s < 2 ^ 31
    → m < 10 ^ 6
    → (e : ℕ) × (time_val (pos s) (pos m) * 2 ^ 8 % 2 ^ 32 ≡ (s * 10 ^ 6 + m + 2 ^ 32 - e) % 2 ^ 32)
      × (e < 448)
unfolding time_val
packed s m p q = (s * 15625 % 4 * 64 + m % 256, omega arith, omega arith)

-- The difference of packed times is the one of their microseconds.
difference :
    (a b t u d e : ℕ)
    → a < 2 ^ 32
    → b < 2 ^ 32
    → a * 2 ^ 8 % 2 ^ 32 ≡ (t + 2 ^ 32 - d) % 2 ^ 32
    → b * 2 ^ 8 % 2 ^ 32 ≡ (u + 2 ^ 32 - e) % 2 ^ 32
    → d < 448
    → e < 448
    → u + 448 ≤ t
    → t + 448 ≤ u + 2 ^ 31
    → shifted_difference a b ≡ t + e - u - d
difference a b t u d e p q h k i j x y = omega arith

small : (s m : ℕ) → time_val (pos s) (pos m) < 2 ^ 32
unfolding time_val
small s m = omega arith

-- The interval between two times differs by less than 448 microseconds from the time that has passed,
-- although seconds wrap around in 32 bits; the earlier time is at least 448 microseconds older, and
-- the interval with as much to spare fits into an int.
pub minus-time_val :
    (s m r n : ℕ)
    → s < 2 ^ 31
    → m < 10 ^ 6
    → r < 2 ^ 31
    → n < 10 ^ 6
    → r * 10 ^ 6 + n + 448 ≤ s * 10 ^ 6 + m
    → s * 10 ^ 6 + m + 448 ≤ r * 10 ^ 6 + n + 2 ^ 31
    → (u : ℕ) × (minus (time_val (pos s) (pos m)) (time_val (pos r) (pos n)) ≡ pos u)
      × (s * 10 ^ 6 + m < r * 10 ^ 6 + n + u + 448)
      × (r * 10 ^ 6 + n + u < s * 10 ^ 6 + m + 448)
unfolding minus
minus-time_val s m r n p q x y h k =
    let a = packed s m p q in
    let b = packed r n x y in
    let t = s * 10 ^ 6 + m in
    let w = r * 10 ^ 6 + n in
    let u = t + b.0 - w - a.0 in
    let d : shifted_difference (time_val (pos s) (pos m)) (time_val (pos r) (pos n)) ≡ u =
      difference _ _ t w a.0 b.0 (small s m) (small r n) a.1 b.1 a.2 b.2 h k in
    let d0 : a.0 < 448 = a.2 in
    let e0 : b.0 < 448 = b.2 in
    let low : u < 2 ^ 31 = omega arith in
    (
      u,
      ap to_int32 d
          ∙ ap (λ c. if c then pos u else negsuc (2 ^ 32 - 1 - u)) (lt→ltb u (2 ^ 31) low),
      omega arith,
      omega arith,
    )
