-- ===== src/Control/Lidar/Means.antt =====
-- The means that read gives.
use trik_runtime.Prelude.{
  ℕ, zero, suc, ◌+◌, ◌-◌, ◌*◌, ◌%◌, ◌<◌, ◌≤◌, ◌≡◌, ◌⊎◌, refl, sym, true, false, arith, ltb, ◌==◌,
  Bool-cases, inl, inr, min, max, subst, ==_iff,
}
use native.Mathlib.Nat.{le-div_iff_mul-le, div-le_of_le-mul, mul-suc, mul_comm, le_trans}
use trik_runtime.Control.Lidar.{
  Lidar, angles_raw_number, Stats, no_stats, gather, scan, mean_of, count_mean, read,
}

-- The last degree is always read as 0: its loop ends before it begins.
pub read_last_degree : (s : Lidar) → read s 359 ≡ 0
unfolding read count_mean scan mean_of
read_last_degree s = refl

-- A distance counts where it is not 0 and stands between the bounds.
abbrev pub Seen : ℕ → ℕ → ℕ → Type 0
Seen lo hi d = (d ≡ 0) ⊎ ((lo ≤ d) × (d ≤ hi))

-- What the loop has gathered when k distances more than two have been seen: without one smallest
-- and one largest, k distances between the bounds are left.
abbrev Gathered : ℕ → ℕ → ℕ → ℕ → ℕ → ℕ → Type 0
Gathered lo hi zero top bottom sum = (top ≡ 0) × (bottom ≡ 1000000000) × (sum ≡ 0)
Gathered lo hi (suc zero) top bottom sum = (top ≡ sum) × (bottom ≡ sum) × (lo ≤ sum) × (sum ≤ hi)
Gathered lo hi (suc (suc k)) top bottom sum =
    (lo ≤ bottom)
    × (bottom ≤ top)
    × (top ≤ hi)
    × (lo * k + bottom + top ≤ sum)
    × (sum ≤ hi * k + bottom + top)

gather_one :
    (lo hi n top bottom sum d : ℕ)
    → hi ≤ 1000000000
    → lo ≤ d
    → d ≤ hi
    → Gathered lo hi n top bottom sum
    → Gathered lo hi (suc n) (max top d) (min bottom d) (sum + d)
gather_one lo hi zero top bottom sum d b l h g =
    (omega arith, omega arith, omega arith, omega arith)
gather_one lo hi (suc zero) top bottom sum d b l h g =
    (omega arith, omega arith, omega arith, omega arith, omega arith)
gather_one lo hi (suc (suc k)) top bottom sum d b l h g =
    let more_lo = mul-suc lo k in
    let more_hi = mul-suc hi k in (omega arith, omega arith, omega arith, omega arith, omega arith)

abbrev Holds : ℕ → ℕ → Stats → Type 0
Holds lo hi t = Gathered lo hi t.counter t.max t.min t.mean

suc-not_zero : (d : ℕ) → (suc d == 0) ≡ false
suc-not_zero d = ground arith

gather-Holds :
    (lo hi d : ℕ) (t : Stats)
    → hi ≤ 1000000000
    → Seen lo hi d
    → Holds lo hi t
    → Holds lo hi (gather d t)
gather-Holds lo hi zero t b q g = g
gather-Holds lo hi (suc d) t b (inl e) g = absurd (omega arith)
gather-Holds lo hi (suc d) t b (inr (l, h)) g =
    rw (suc-not_zero d) (gather_one lo hi t.counter t.max t.min t.mean (suc d) b l h g)

scan-Holds :
    (lo hi n j : ℕ) (r : ℕ → ℕ) (t : Stats)
    → hi ≤ 1000000000
    → ((i : ℕ) → j ≤ i → i < j + n → Seen lo hi (r (i % angles_raw_number)))
    → Holds lo hi t
    → Holds lo hi (scan n j r t)
unfolding scan
scan-Holds lo hi zero j r t b q g = g
scan-Holds lo hi (suc n) j r t b q g =
    scan-Holds lo hi n (suc j) r (gather (r (j % angles_raw_number)) t) b
      (λ i k l. q i (omega arith) (omega arith))
      (gather-Holds lo hi (r (j % angles_raw_number)) t b (q j (omega arith) (omega arith)) g)

gather-counter : (d : ℕ) (t : Stats) → t.counter ≤ (gather d t).counter
gather-counter zero t = omega arith
gather-counter (suc d) t = rw (suc-not_zero d) (omega arith)

gather_counts : (d : ℕ) (t : Stats) → 0 < d → 0 < (gather d t).counter
gather_counts zero t h = absurd (omega arith)
gather_counts (suc d) t h = rw (suc-not_zero d) (omega arith)

scan-counter : (n j : ℕ) (r : ℕ → ℕ) (t : Stats) → t.counter ≤ (scan n j r t).counter
unfolding scan
scan-counter zero j r t = omega arith
scan-counter (suc n) j r t =
    let u = gather (r (j % angles_raw_number)) t in
    le_trans (gather-counter (r (j % angles_raw_number)) t) (scan-counter n (suc j) r u)

scan_counts :
    (n j i : ℕ) (r : ℕ → ℕ) (t : Stats)
    → j ≤ i
    → i < j + n
    → 0 < r (i % angles_raw_number)
    → 0 < (scan n j r t).counter
unfolding scan
scan_counts zero j i r t l h some_d = absurd (omega arith)
scan_counts (suc n) j i r t l h some_d = elim (Bool-cases (j == i)) [
  | inl same ↦
      let here : 0 < r (j % angles_raw_number) =
        subst (λ x. 0 < r (x % angles_raw_number)) (sym ((==_iff j i).0 same)) some_d in
      le_trans (gather_counts (r (j % angles_raw_number)) t here)
        (scan-counter n (suc j) r (gather (r (j % angles_raw_number)) t))
  | inr other ↦
      scan_counts n (suc j) i r (gather (r (j % angles_raw_number)) t) (ground arith) (omega arith)
        some_d
]

-- The mean of n distances that have been seen.
mean_of_parts :
    (lo hi n top bottom sum : ℕ)
    → Gathered lo hi n top bottom sum
    → 0 < n
    → let mean = mean_of (record { max = top; min = bottom; mean = sum; counter = n }) in
      (lo ≤ mean) × (mean ≤ hi)
unfolding mean_of
mean_of_parts lo hi zero top bottom sum g p = absurd (omega arith)
mean_of_parts lo hi (suc zero) top bottom sum g p = (omega arith, omega arith)
mean_of_parts lo hi (suc (suc zero)) top bottom sum g p = (omega arith, omega arith)
mean_of_parts lo hi (suc (suc (suc k))) top bottom sum g p =
    let three : ltb 2 (suc (suc (suc k))) ≡ true = ground arith in
    let one_less : suc (suc (suc k)) - 2 ≡ suc k = omega arith in
    let least = mul_comm lo (suc k) in
    let most = mul_comm hi (suc k) in
    rw (three, one_less)
      (
        (le-div_iff_mul-le {k = suc k} {x = lo} {y = sum - bottom - top} (omega arith)).1
            (omega arith),
        div-le_of_le-mul (suc k) (omega arith),
      )

-- What is read for a degree but the last one stands between bounds of the distances in its window
-- that are not 0, if there is one.
pub read-between :
    (s : Lidar) (lo hi degree i : ℕ)
    → degree < 359
    → hi ≤ 1000000000
    → ((j : ℕ) → 50 + 100 * degree ≤ j → j < 150 + 100 * degree → Seen lo hi (s.result j))
    → 50 + 100 * degree ≤ i
    → i < 150 + 100 * degree
    → 0 < s.result i
    → (lo ≤ read s degree) × (read s degree ≤ hi)
unfolding read count_mean
read-between s lo hi degree i d b q k l some_d =
    let start = 50 + 100 * degree in
    let window : (start + 100) % angles_raw_number - start ≡ 100 = omega arith in
    let inside : (j : ℕ) → j < angles_raw_number → j % angles_raw_number ≡ j = λ j m. omega arith in
    let t = scan 100 start s.result no_stats in
    rw window (
      mean_of_parts lo hi t.counter t.max t.min t.mean
        (scan-Holds lo hi 100 start s.result no_stats b
          (λ j m n.
            subst (λ x. Seen lo hi (s.result x)) (sym (inside j (omega arith)))
              (q j m (omega arith)))
          (refl, refl, refl))
        (scan_counts 100 start i s.result no_stats k (omega arith)
          (subst (λ x. 0 < s.result x) (sym (inside i (omega arith))) some_d)))
