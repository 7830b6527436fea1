-- ===== src/Control/DataFilter/Median.antt =====
-- What the median filter gives.
use trik_runtime.Prelude.{
  ℕ, ◌+◌, ◌≤◌, ◌≡◌, ◌⊎◌, refl, inl, inr, Bool, true, false, List, [], ◌∷◌, if◌then◌else◌, arith,
  Bool-cases,
}
use trik_runtime.Prelude.Int.{ℤ, leb_ℤ, ltb_ℤ, ◌≤ℤ◌}
use trik_runtime.Control.DataFilter.{
  median3, new, swap_over, median_of, get_median3, apply_filter, filter_all,
}

abbrev pub one_if : Bool → ℕ
one_if b = if b then 1 else 0

-- One of three values, with two of them (itself included) on either side.
abbrev pub IsMedian : ℤ → ℤ → ℤ → ℤ → Type 0
IsMedian m a b c =
    ((m ≡ a) ⊎ ((m ≡ b) ⊎ (m ≡ c)))
    × (2 ≤ one_if (leb_ℤ a m) + one_if (leb_ℤ b m) + one_if (leb_ℤ c m))
    × (2 ≤ one_if (leb_ℤ m a) + one_if (leb_ℤ m b) + one_if (leb_ℤ m c))

-- Each value is the median of a reading and the two before it.
abbrev pub AreMedians : ℤ → ℤ → List ℤ → List ℤ → Type 0
AreMedians a b [] [] = Unit
AreMedians a b [] (m ∷ ms) = true ≡ false
AreMedians a b (c ∷ cs) [] = true ≡ false
AreMedians a b (c ∷ cs) (m ∷ ms) = IsMedian m a b c × AreMedians b c cs ms

-- A value between two others is their median with itself.
middle :
    (a b c : ℤ)
    → a ≤ℤ b
    → b ≤ℤ c
    → (2 ≤ one_if (leb_ℤ a b) + one_if (leb_ℤ b b) + one_if (leb_ℤ c b))
      × (2 ≤ one_if (leb_ℤ b a) + one_if (leb_ℤ b b) + one_if (leb_ℤ b c))
middle a b c h k = ground arith

-- The two orders that a swap leaves.
abbrev Swapped : ℤ → ℤ → ℤ → ℤ → Type 0
Swapped a b x y = (x ≤ℤ y) × (((x ≡ a) × (y ≡ b)) ⊎ ((x ≡ b) × (y ≡ a)))

swap_over-Swapped : (a b : ℤ) → let (x, y) = swap_over a b in Swapped a b x y
swap_over-Swapped a b = elim (Bool-cases (ltb_ℤ b a)) [
  | inl q ↦ rw q (ground arith, inr (refl, refl))
  | inr q ↦ rw q (ground arith, inl (refl, refl))
]

-- Three swaps leave a sorted rearrangement.
three_swaps :
    (a b c a1 b1 b2 c2 a3 b3 : ℤ)
    → Swapped a b a1 b1
    → Swapped b1 c b2 c2
    → Swapped a1 b2 a3 b3
    → IsMedian b3 a b c
three_swaps a b c a1 b1 b2 c2 a3 b3 h k l = ground arith

median_of-IsMedian : (a b c : ℤ) → IsMedian (median_of a b c) a b c
median_of-IsMedian a b c =
    let (a1, b1) = swap_over a b in
    let (b2, c2) = swap_over b1 c in
    three_swaps a b c a1 b1 b2 c2 _ _ (swap_over-Swapped a b) (swap_over-Swapped b1 c)
      (swap_over-Swapped a1 b2)

filter_all-AreMedians :
    (a b : ℤ) (cs : List ℤ)
    → AreMedians a b cs
        (filter_all (record { kind = median3; read_data1 = a; read_data2 = b }) cs).1
unfolding filter_all apply_filter get_median3
filter_all-AreMedians a b [] = tt
filter_all-AreMedians a b (c ∷ cs) = (median_of-IsMedian a b c, filter_all-AreMedians b c cs)

-- A filter of the kind "median3" answers each reading of a series with the median of that reading
-- and the two before it, the smallest and the largest value standing for the two before the first.
pub filter_all-new :
    (min_value max_value : ℤ) (cs : List ℤ)
    → AreMedians min_value max_value cs (filter_all (new min_value max_value median3) cs).1
unfolding new
filter_all-new min_value max_value cs = filter_all-AreMedians min_value max_value cs
