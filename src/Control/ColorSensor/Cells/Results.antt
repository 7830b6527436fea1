-- ===== src/Control/ColorSensor/Cells/Results.antt =====
-- trikControl/src/colorSensor.cpp: what is read after a result.
use trik_runtime.Prelude.{
  ℕ, zero, suc, ◌+◌, ◌-◌, ◌*◌, ◌<◌, ◌≤◌, min, ◌≡◌, refl, ap₂, ◌∙◌, arith, false, Option, some,
  and_then, List, [], ◌∷◌, length, All-replicate, length-replicate,
}
use trik_runtime.Prelude.Int.{pos}
use trik_runtime.Control.DeviceState.{off, become_ready}
use trik_runtime.Control.ColorSensor.{
  Grid, ColorSensor, new, is_bad_size, read, is_outside, on_result, components,
}
use trik_runtime.Control.ColorSensor.Cells.{IsGrid, IsFilled, fill-IsFilled}

-- Results in their order.
unfoldable pub on_results : List (ℕ → ℕ) → ColorSensor → Option ColorSensor
on_results [] s = some s
on_results (colors ∷ rest) s = and_then (on_result colors s) (on_results rest)

-- A sensor that works, with m rows of n cells.
abbrev pub Works : ℕ → ℕ → ColorSensor → Type 0
Works m n s = (s.m ≡ pos m) × (s.n ≡ pos n) × IsGrid m n s.reading

size : (m n : ℕ) → m ≤ 3 → n ≤ 3 → min (m * n) 9 ≡ m * n
size m zero p q = omega arith
size m (suc zero) p q = omega arith
size m (suc (suc zero)) p q = omega arith
size m (suc (suc (suc zero))) p q = omega arith
size m (suc (suc (suc (suc n)))) p q = ground arith

on_result-Works :
    (colors : ℕ → ℕ) (m n : ℕ) (s : ColorSensor)
    → 0 < n
    → m ≤ 3
    → n ≤ 3
    → Works m n s
    → (t : ColorSensor) × (on_result colors s ≡ some t)
      × (Works m n t)
      × IsFilled colors n (m * n) t.reading
unfolding on_result
on_result-Works colors m n s z p q h =
    let all = size m n p q in
    let f =
      fill-IsFilled colors m n (min (m * n) 9) 0 s.reading z q (omega (arith, all)) h.2
        (λ r c i j. ground arith) in
    let sized : on_result colors (record s { m = pos m; n = pos n })
        ≡ some (record s { m = pos m; n = pos n; reading = f.0 }) =
      rw f.1 refl in
    (
      record s { m = pos m; n = pos n; reading = f.0 },
      ap₂ (λ x y. on_result colors (record s { m = x; n = y })) h.0 h.1 ∙ sized,
      (refl, refl, f.2),
      λ r c i j. f.3 r c i (omega (arith, all)),
    )

within : (m n i j : ℕ) → n ≤ 3 → i < m → j < n → i * n + j < m * n
within m zero i j q a b = ground arith
within m (suc zero) i j q a b = omega arith
within m (suc (suc zero)) i j q a b = omega arith
within m (suc (suc (suc zero))) i j q a b = omega arith
within m (suc (suc (suc (suc n)))) i j q a b = ground arith

shown :
    (m n : ℕ) (g : Grid) (i j : ℕ)
    → IsGrid m n g
    → i < m
    → j < n
    → is_outside g (pos (suc i)) (pos (suc j)) ≡ false
shown m n [] i j g a b = ground (arith, g.0)
shown m n (cells ∷ rows) i j g a b = ground (arith, g.0, g.1.0)

-- What is read where a cell is filled.
read-filled :
    (m n : ℕ) (s : ColorSensor) (colors : ℕ → ℕ) (i j : ℕ)
    → n ≤ 3
    → IsGrid m n s.reading
    → IsFilled colors n (m * n) s.reading
    → i < m
    → j < n
    → read (pos (suc i)) (pos (suc j)) s ≡ some (components (colors (i * n + j)))
unfolding read
read-filled m n s colors i j q g f a b =
    let before : suc i - 1 ≡ i = omega arith in
    let left : suc j - 1 ≡ j = omega arith in
    rw (shown m n s.reading i j g a b, before, left) (f i j b (within m n i j q a b))

-- Results keep a sensor at work.
on_results-Works :
    (results : List (ℕ → ℕ)) (m n : ℕ) (s : ColorSensor)
    → 0 < n
    → m ≤ 3
    → n ≤ 3
    → Works m n s
    → (t : ColorSensor) × (on_results results s ≡ some t) × Works m n t
unfolding on_results
on_results-Works [] m n s z p q h = (s, refl, h)
on_results-Works (colors ∷ results) m n s z p q h =
    let t = on_result-Works colors m n s z p q h in
    let u = on_results-Works results m n t.0 z p q t.2 in rw (t.1, u.1) (u.0, refl, u.2)

good_size : (m : ℕ) → 0 < m → m ≤ 3 → is_bad_size (pos m) ≡ false
good_size m y p = ground arith

new-Works : (m n : ℕ) → 0 < m → m ≤ 3 → 0 < n → n ≤ 3 → Works m n (new off (pos m) (pos n))
unfolding new become_ready
new-Works m n y p z q =
    rw (good_size m y p, good_size n z q)
      (
        refl,
        refl,
        (
          length-replicate m _,
          All-replicate (λ cells. length cells ≡ n) m _ (length-replicate n _),
        ),
      )

-- After any results a colour sensor, whose configuration asks for m rows of n cells with m and n
-- from 1 to 3, reads at the place i, j the red, green and blue of the colour number (i - 1) * n + (j - 1)
-- of the last result, for all i from 1 to m and j from 1 to n.
pub read-on_result :
    (results : List (ℕ → ℕ)) (colors : ℕ → ℕ) (m n i j : ℕ)
    → 0 < m
    → m ≤ 3
    → 0 < n
    → n ≤ 3
    → i < m
    → j < n
    → and_then
        (and_then (on_results results (new off (pos m) (pos n))) (on_result colors))
        (read (pos (suc i)) (pos (suc j)))
      ≡ some (components (colors (i * n + j)))
read-on_result results colors m n i j y p z q a b =
    let s = on_results-Works results m n (new off (pos m) (pos n)) z p q (new-Works m n y p z q) in
    let t = on_result-Works colors m n s.0 z p q s.2 in
    rw (s.1, t.1) (read-filled m n t.0 colors i j q t.2.2 t.3 a b)
