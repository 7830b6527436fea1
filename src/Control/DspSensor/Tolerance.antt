-- ===== src/Control/DspSensor/Tolerance.antt =====
-- trikControl/src/dspSensorBase.h: what a tolerance makes of a range.
use trik_runtime.Prelude.{
  ℕ, lt→ltb, ◌<◌, ◌^◌, true, ltb, ◌+◌, ◌-◌, ◌/◌, ◌%◌, ◌≤◌, ◌≡◌, arith, false,
}
use trik_runtime.Prelude.Int.{ℤ, pos}
use trik_runtime.Control.DspSensor.{HsvRange, widen}

-- A range of bytes whose ends are in order.
abbrev pub IsRange : HsvRange → Type 0
IsRange r = (r.lower ≤ r.upper) × (r.upper ≤ 255)

-- A range stays a range, whose middle is kept, for a factor that is not negative and a tolerance whose
-- sum with the middle is an int; a tolerance of at least half the difference leaves out nothing but
-- the upper end, and that only where the sum of the ends is odd.
pub widen-IsRange :
    (scaled : ℤ → ℤ) (r : HsvRange) (t : ℕ)
    → IsRange r
    → scaled (pos (r.upper - r.lower)) ≡ pos t
    → (r.lower + r.upper) / 2 + t < 2 ^ 31
    → IsRange (widen scaled r)
      × ((widen scaled r).lower ≤ (r.lower + r.upper) / 2)
      × ((r.lower + r.upper) / 2 ≤ (widen scaled r).upper)
      × ((r.upper - r.lower) / 2 ≤ t
          → ((widen scaled r).lower ≤ r.lower)
            × (r.upper ≤ (widen scaled r).upper + (r.lower + r.upper) % 2))
unfolding widen
widen-IsRange scaled r t h e fits =
    let ordered : ltb r.upper r.lower ≡ false = ground (arith, h.0) in
    let lo = h.0 in
    let hi = h.1 in
    let small : ltb ((r.lower + r.upper) / 2 + t) (2 ^ 31) ≡ true = lt→ltb _ _ fits in
    rw (ordered, e, small)
      ((omega arith, omega arith), omega arith, omega arith, λ k. (omega arith, omega arith))
