-- ===== src/Control/DataFilter.antt =====
-- trikControl/src/datafilter.cpp: the filter of sensor readings.
pub mod Median
mod Tests
use trik_runtime.Prelude.{ℕ, ◌≡◌, Bool, true, false, List, [], ◌∷◌, if◌then◌else◌}
use trik_runtime.Prelude.Int.{ℤ, ltb_ℤ}

-- mFilterFunction: "median3" or any other name.
pub data Kind : Type 0 where
  median3 identity : Kind

pub record DataFilter : Type 0 where
  pub kind : Kind
  pub read_data1 : ℤ
  pub read_data2 : ℤ

-- The constructor.
unfoldable pub new : ℤ → ℤ → Kind → DataFilter
new min_value max_value kind = record {
  kind = kind;
  read_data1 = min_value;
  read_data2 = max_value;
}

-- if (a > b) std::swap(a, b).
abbrev pub swap_over : ℤ → ℤ → ℤ × ℤ
swap_over a b = if ltb_ℤ b a then (b, a) else (a, b)

abbrev pub median_of : ℤ → ℤ → ℤ → ℤ
median_of a b c =
    let (a1, b1) = swap_over a b in
    let (b2, c2) = swap_over b1 c in let (a3, b3) = swap_over a1 b2 in b3

unfoldable pub get_median3 : DataFilter → ℤ → DataFilter × ℤ
get_median3 f c =
    (record f { read_data1 = f.read_data2; read_data2 = c }, median_of f.read_data1 f.read_data2 c)

abbrev pub by_kind : Kind → DataFilter → ℤ → DataFilter × ℤ
by_kind median3 f c = get_median3 f c
by_kind identity f c = (f, c)

unfoldable pub apply_filter : DataFilter → ℤ → DataFilter × ℤ
apply_filter f c = by_kind f.kind f c

-- A series of readings.
unfoldable pub filter_all : DataFilter → List ℤ → DataFilter × List ℤ
filter_all f [] = (f, [])
filter_all f (c ∷ cs) =
    let (f', m) = apply_filter f c in let (g, ms) = filter_all f' cs in (g, m ∷ ms)
