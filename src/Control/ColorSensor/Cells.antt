-- ===== src/Control/ColorSensor/Cells.antt =====
-- trikControl/src/colorSensor.cpp: the loop of onResult fills the grid.
pub mod Results
use trik_runtime.Prelude.{
  ℕ, zero, suc, ◌+◌, ◌-◌, ◌*◌, ◌/◌, ◌%◌, ◌<◌, ◌≤◌, min, ◌≡◌, refl, ap, ap₂, sym, ◌∙◌, arith, Bool,
  true, false, Option, none, some, and_then, List, [], ◌∷◌, if◌then◌else◌, ltb, ◌==◌, ==_iff,
  lt→ltb, length, get_elem?, set, get_elem?-set, get_elem?-some, length-set, All-set, All,
  Bool-cases, inl, inr,
}
use trik_runtime.Prelude.Int.{ℤ, pos, leb_ℤ, ltb_ℤ}
use trik_runtime.Control.DeviceState.{Status, off, become_ready}
use trik_runtime.Control.ColorSensor.{
  Colour, Grid, ColorSensor, new, is_bad_size, read, is_outside, on_result, cell, set_cell, fill,
  components,
}

-- A grid of m rows of n cells.
abbrev pub IsGrid : ℕ → ℕ → Grid → Type 0
IsGrid m n g = (length g ≡ m) × All (λ cells. length cells ≡ n) g

row-length :
    (n : ℕ) (g : Grid) (r : ℕ) (cells : List Colour)
    → All (λ cells. length cells ≡ n) g
    → get_elem? g r ≡ some cells
    → length cells ≡ n
row-length n [] r cells a h = cc
row-length n (row ∷ g) zero cells a h = (let e = a.0 in cc)
row-length n (row ∷ g) (suc r) cells a h = row-length n g r cells a.1 h

cell-set :
    (g : Grid) (r c i j : ℕ) (v : Colour) (cells : List Colour)
    → get_elem? g r ≡ some cells
    → r < length g
    → c < length cells
    → cell (set g r (set cells c v)) i j
      ≡ (if r == i then (if c == j then some v else cell g i j) else cell g i j)
cell-set g r c i j v cells q low inside =
    ap (λ o. and_then o (λ x. get_elem? x j)) (get_elem?-set g r i (set cells c v) low)
    ∙ (elim (Bool-cases (r == i)) [
      | inl e ↦ rw e (
          get_elem?-set cells c j v inside
          ∙ ap (λ o. if c == j then some v else and_then o (λ x. get_elem? x j))
              (sym (ap (get_elem? g) (sym ((==_iff r i).0 e)) ∙ q)))
      | inr e ↦ rw e refl
    ])

-- A write inside the grid.
pub set_cell-IsGrid :
    (m n : ℕ) (g : Grid) (r c : ℕ) (v : Colour)
    → IsGrid m n g
    → r < m
    → c < n
    → (k : Grid) × (set_cell g r c v ≡ some k)
      × (IsGrid m n k)
      × ((i j : ℕ)
          → cell k i j ≡ (if r == i then (if c == j then some v else cell g i j) else cell g i j))
set_cell-IsGrid m n g r c v s h l =
    let row = get_elem?-some g r (omega (arith, s.0)) in
    let cells = row.0 in
    let wide : length cells ≡ n = row-length n g r cells s.1 row.1 in
    let new_row = set cells c v in
    let inside : c < length cells = omega (arith, wide) in
    let low : r < length g = omega (arith, s.0) in
    rw (row.1, lt→ltb c (length cells) inside)
      (
        set g r new_row,
        refl,
        (
          length-set g r new_row ∙ s.0,
          All-set (λ x. length x ≡ n) g r new_row s.1 (length-set cells c v ∙ wide),
        ),
        λ i j. cell-set g r c i j v cells row.1 low inside,
      )

-- The place of the i-th cell.
place :
    (m n i : ℕ) → 0 < n → n ≤ 3 → i < m * n → (i / n < m) × (i % n < n) × (i / n * n + i % n ≡ i)
place m zero i p q h = ground arith
place m (suc zero) i p q h = (omega arith, omega arith, omega arith)
place m (suc (suc zero)) i p q h = (omega arith, omega arith, omega arith)
place m (suc (suc (suc zero))) i p q h = (omega arith, omega arith, omega arith)
place m (suc (suc (suc (suc n)))) i p q h = ground arith

place_only : (n r c i : ℕ) → n ≤ 3 → c < n → (r * n + c ≡ i) → (i / n ≡ r) × (i % n ≡ c)
place_only zero r c i q h e = ground arith
place_only (suc zero) r c i q h e = (omega arith, omega arith)
place_only (suc (suc zero)) r c i q h e = (omega arith, omega arith)
place_only (suc (suc (suc zero))) r c i q h e = (omega arith, omega arith)
place_only (suc (suc (suc (suc n)))) r c i q h e = ground arith

-- The first `i` cells have the colours of the result.
abbrev pub IsFilled : (ℕ → ℕ) → ℕ → ℕ → Grid → Type 0
IsFilled colors n i g =
    (r c : ℕ) → c < n → r * n + c < i → cell g r c ≡ some (components (colors (r * n + c)))

-- One more cell.
next_cell :
    (colors : ℕ → ℕ) (m n i : ℕ) (g k : Grid)
    → 0 < n
    → n ≤ 3
    → i < m * n
    → IsFilled colors n i g
    → ((r c : ℕ)
        → cell k r c ≡ (
            if i / n == r
            then (if i % n == c then some (components (colors i)) else cell g r c)
            else cell g r c))
    → IsFilled colors n (suc i) k
next_cell colors m n i g k z q b f w r c h l =
    let p = place m n i z q b in
    elim (Bool-cases (r * n + c == i)) [
      | inl e ↦
          let same = (==_iff (r * n + c) i).0 e in
          let o = place_only n r c i q h same in
          w r c
          ∙ rw ((==_iff (i / n) r).1 o.0, (==_iff (i % n) c).1 o.1)
              (ap (λ x. some (components (colors x))) (sym same))
      | inr e ↦
          let before = f r c h (ground (arith, e, ==_iff (r * n + c) i)) in
          elim (Bool-cases (i / n == r)) [
            | inl d ↦ elim (Bool-cases (i % n == c)) [
              | inl a ↦
                  w r c
                  ∙ rw (d, a)
                      (ap (λ x. some (components (colors x)))
                        (sym p.2
                          ∙ ap₂ (λ x y. x * n + y) ((==_iff (i / n) r).0 d)
                              ((==_iff (i % n) c).0 a)))
              | inr a ↦ w r c ∙ rw (d, a) before
            ]
            | inr d ↦ w r c ∙ rw d before
          ]
    ]

pub fill-IsFilled :
    (colors : ℕ → ℕ) (m n count i : ℕ) (g : Grid)
    → 0 < n
    → n ≤ 3
    → i + count ≤ m * n
    → IsGrid m n g
    → IsFilled colors n i g
    → (k : Grid) × (fill colors n count i g ≡ some k)
      × (IsGrid m n k)
      × IsFilled colors n (i + count) k
fill-IsFilled colors m n zero i g z q b s f = (g, refl, s, λ r c h l. f r c h (omega arith))
fill-IsFilled colors m n (suc count) i g z q b s f =
    let p = place m n i z q (omega (arith, b)) in
    let w = set_cell-IsGrid m n g (i / n) (i % n) (components (colors i)) s p.0 p.1 in
    let next = next_cell colors m n i g w.0 z q (omega (arith, b)) f w.3 in
    let t = fill-IsFilled colors m n count (suc i) w.0 z q (omega (arith, b)) w.2 next in
    rw w.1 (t.0, t.1, t.2, λ r c h l. t.3 r c h (omega arith))
