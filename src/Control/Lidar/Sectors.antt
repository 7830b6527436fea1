-- ===== src/Control/Lidar/Sectors.antt =====
-- The distances of a packet.
use trik_runtime.Prelude.{
  ℕ, zero, suc, ◌+◌, ◌*◌, ◌/◌, ◌<◌, ◌≤◌, ◌≡◌, refl, ap, ◌∙◌, Bool, true, false, Option, none, some,
  and_then, List, arith, if◌then◌else◌, leb, ltb, ◌==◌, ◌&&◌, Bool-cases, inl, inr,
}
use native.Mathlib.Nat.{
  div-lt_iff_lt-mul, add-div_right, le-div_iff_mul-le, div-mul-le_self, lt_of_lt_of_le, le_trans,
}
use trik_runtime.Control.Lidar.{
  angles_raw_number, angle_step, start_angle, write, clear_sector, entries_of, angle_of,
  distance_of, store_probes, process_data,
}

abbrev or_first : Option ℕ → Option ℕ → Option ℕ
or_first none b = b
or_first (some k) b = some k

-- The last of n probes from i on that lies at an index.
abbrev pub last_probe : List ℕ → ℕ → ℕ → ℕ → Option ℕ
last_probe c zero i j = none
last_probe c (suc n) i j =
    or_first (last_probe c n (suc i) j) (if angle_of c i == j then some i else none)

abbrev distance_or : List ℕ → Option ℕ → ℕ → ℕ
distance_or c none d = d
distance_or c (some k) d = distance_of c k

-- What a packet puts at an index: the distance of the last probe there; 0 in the rest of the
-- sector; what was there before elsewhere.
abbrev pub sector : List ℕ → (ℕ → ℕ) → ℕ → ℕ
sector c r j =
    distance_or c (last_probe c (entries_of c) 0 j)
      (if leb (start_angle c) j && ltb j (start_angle c + angle_step) then 0 else r j)

abbrev pub at : ℕ → Option (ℕ → ℕ) → Option ℕ
at j o = and_then o (λ r. some (r j))

write-some :
    (i v : ℕ) (r : ℕ → ℕ)
    → i < angles_raw_number
    → write i v r ≡ some (λ j. if i == j then v else r j)
write-some i v r h = let inside : ltb i angles_raw_number ≡ true = ground arith in rw inside

clear_sector-some :
    (n i : ℕ) (r : ℕ → ℕ)
    → i + n ≤ angles_raw_number
    → (r' : ℕ → ℕ) × (clear_sector n i r ≡ some r')
      × ((j : ℕ) → r' j ≡ (if leb i j && ltb j (i + n) then 0 else r j))
unfolding clear_sector
clear_sector-some zero i r h = (r, refl, λ j. ground arith)
clear_sector-some (suc n) i r h =
    let r1 : ℕ → ℕ = λ j. if i == j then 0 else r j in
    let (r', e, q) = clear_sector-some n (suc i) r1 (omega arith) in
    (
      r',
      ap (λ o. and_then o (clear_sector n (suc i))) (write-some i 0 r (omega arith)) ∙ e,
      λ j. q j ∙ ground arith,
    )

distance_or-first :
    (c : List ℕ) (later : Option ℕ) (i : ℕ) (b : Bool) (d : ℕ)
    → distance_or c later (if b then distance_of c i else d)
      ≡ distance_or c (or_first later (if b then some i else none)) d
distance_or-first c (some k) i b d = refl
distance_or-first c none i true d = refl
distance_or-first c none i false d = refl

store_probes-at :
    (c : List ℕ) (n i : ℕ) (r : ℕ → ℕ) (j : ℕ)
    → ((k : ℕ) → k < i + n → angle_of c k < angles_raw_number)
    → at j (store_probes c n i r) ≡ some (distance_or c (last_probe c n i j) (r j))
unfolding store_probes
store_probes-at c zero i r j h = refl
store_probes-at c (suc n) i r j h =
    let r1 : ℕ → ℕ = λ j'. if angle_of c i == j' then distance_of c i else r j' in
    ap (λ o. at j (and_then o (store_probes c n (suc i))))
      (write-some (angle_of c i) (distance_of c i) r (h i (omega arith)))
    ∙ store_probes-at c n (suc i) r1 j (λ k q. h k (omega arith))
    ∙ ap some (distance_or-first c (last_probe c n (suc i) j) i (angle_of c i == j) (r j))

angle_of-lt : (c : List ℕ) (k : ℕ) → k < entries_of c → angle_of c k < start_angle c + angle_step
angle_of-lt c k h =
    let bound =
      (div-lt_iff_lt-mul {k = entries_of c} {x = angle_step * k} {y = angle_step} (omega arith)).1
        (omega arith) in
    omega arith

within :
    (c : List ℕ) (k : ℕ)
    → start_angle c + angle_step ≤ angles_raw_number
    → k < entries_of c
    → angle_of c k < angles_raw_number
within c k h l = lt_of_lt_of_le (angle_of-lt c k l) h

-- A packet whose sector ends within the circle is stored: every index has the value that `sector`
-- describes, and no write is outside of the array.
pub process_data-at :
    (c : List ℕ) (r : ℕ → ℕ) (j : ℕ)
    → start_angle c + angle_step ≤ angles_raw_number
    → at j (process_data c r) ≡ some (sector c r j)
unfolding process_data
process_data-at c r j h =
    let (r', e, q) = clear_sector-some angle_step (start_angle c) r h in
    ap (λ o. at j (and_then o (store_probes c (entries_of c) 0))) e
    ∙ store_probes-at c (entries_of c) 0 r' j (λ k l. within c k h (omega arith))
    ∙ ap (λ d. some (distance_or c (last_probe c (entries_of c) 0 j) d)) (q j)

-- With no more probes than the sector has indices they lie at different ones.
angle_of_mono :
    (c : List ℕ) (k m : ℕ)
    → k < m
    → m < entries_of c
    → entries_of c ≤ angle_step
    → angle_of c k < angle_of c m
angle_of_mono c k m h l few =
    let e = entries_of c in
    let next = add-div_right (angle_step * k) {k = e} (omega arith) in
    let least = div-mul-le_self (angle_step * k + e) e in
    let reach =
      (le-div_iff_mul-le {k = e} {x = (angle_step * k + e) / e} {y = angle_step * m}
          (omega arith)).1
        (le_trans least (omega arith)) in
    omega arith

last_probe-none :
    (c : List ℕ) (n i j : ℕ)
    → ((k : ℕ) → i ≤ k → k < i + n → (angle_of c k == j) ≡ false)
    → last_probe c n i j ≡ none
last_probe-none c zero i j h = refl
last_probe-none c (suc n) i j h = rw (
  last_probe-none c n (suc i) j (λ k q l. h k (omega arith) (omega arith)),
  h i (omega arith) (omega arith),
)

apart :
    (c : List ℕ) (k m : ℕ)
    → k < m
    → m < entries_of c
    → entries_of c ≤ angle_step
    → (angle_of c m == angle_of c k) ≡ false
apart c k m h l few = let less = angle_of_mono c k m h l few in ground arith

last_probe-angle_of :
    (c : List ℕ) (n i k : ℕ)
    → i ≤ k
    → k < i + n
    → i + n ≤ entries_of c
    → entries_of c ≤ angle_step
    → last_probe c n i (angle_of c k) ≡ some k
last_probe-angle_of c zero i k h l b few = absurd (omega arith)
last_probe-angle_of c (suc n) i k h l b few = elim (Bool-cases (i == k)) [
  | inl same ↦
      let at_k : i ≡ k = ground arith in
      let here : (angle_of c i == angle_of c k) ≡ true = ground (arith, ap (angle_of c) at_k) in
      rw
        (
          last_probe-none c n (suc i) (angle_of c k)
              (λ m q p. apart c k m (omega arith) (omega arith) few),
          here,
        )
        (ap some at_k)
  | inr other ↦
      rw (last_probe-angle_of c n (suc i) k (ground arith) (omega arith) (omega arith) few)
]

abbrev old : List ℕ → (ℕ → ℕ) → ℕ → ℕ
old c r k =
    if leb (start_angle c) (angle_of c k) && ltb (angle_of c k) (start_angle c + angle_step)
    then 0
    else r (angle_of c k)

-- Every probe of a packet can be read back at its angle, where the packet has no more probes than
-- its sector has indices, and the sector ends within the circle.
pub process_data-angle_of :
    (c : List ℕ) (r : ℕ → ℕ) (k : ℕ)
    → start_angle c + angle_step ≤ angles_raw_number
    → entries_of c ≤ angle_step
    → k < entries_of c
    → at (angle_of c k) (process_data c r) ≡ some (distance_of c k)
process_data-angle_of c r k h few l =
    process_data-at c r (angle_of c k) h
    ∙ ap (λ o. some (distance_or c o (old c r k)))
        (last_probe-angle_of c (entries_of c) 0 k (omega arith) (omega arith) (omega arith) few)
