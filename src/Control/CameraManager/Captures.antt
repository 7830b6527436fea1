-- ===== src/Control/CameraManager/Captures.antt =====
-- trikControl/src/cameraManager.cpp: onDeviceFrame keeps the buffers in their places.
use trik_runtime.Prelude.{
  ℕ, zero, suc, ◌+◌, ◌-◌, ◌<◌, ◌≤◌, ◌≡◌, refl, ap, subst, sym, ◌∙◌, arith, Bool, true, false,
  Option, none, some, if◌then◌else◌, ltb, ◌==◌, ==_iff, put, Bool-cases, inl, inr,
}
use trik_runtime.Control.CameraManager.States.{Balanced, Fits, fits, refits, claim, bit, sign}

-- A buffer that the driver has is nowhere else.
pub free :
    (p r : ℕ) (q inside : Bool)
    → q ≡ true
    → p + bit q + sign r ≤ bit inside
    → (p ≡ 0) × (r ≡ 0) × (inside ≡ true)
free p zero true true h k = ground arith
free p zero true false h k = ground arith
free p (suc r) true true h k = ground arith
free p (suc r) true false h k = ground arith
free p r false inside h k = cc

-- A buffer that is claimed is nowhere else.
pub taken :
    (p r : ℕ) (q inside : Bool)
    → 0 < r
    → p + bit q + sign r ≤ bit inside
    → (p ≡ 0) × (q ≡ false) × (inside ≡ true)
taken p zero q inside h k = ground arith
taken p (suc r) true true h k = ground arith
taken p (suc r) true false h k = ground arith
taken p (suc r) false true h k = ground arith
taken p (suc r) false false h k = ground arith

-- A buffer that the driver fills, before the manager drops the frame that it has.
pub filled :
    {w : Bool} (n i : ℕ) (refs held posted : ℕ → ℕ) (queued : ℕ → Bool) (latest : Option ℕ)
    → queued i ≡ true
    → ((j : ℕ) → Balanced w n latest refs held posted queued j)
    → (held i ≡ 0) × (posted i ≡ 0) × (ltb i n ≡ true) × (claim latest i ≡ 0)
filled n i refs held posted queued latest q b =
    let c = b i in
    let f = free (posted i) (refs i) (queued i) (ltb i n) q c.one_place.below in
    let total = c.counts in let nothing = f.1 in (omega arith, f.0, f.2, omega arith)

-- A buffer is filled where the manager has no frame yet.
pub first_frame :
    {w : Bool} (n i : ℕ) (refs held posted : ℕ → ℕ) (queued : ℕ → Bool)
    → queued i ≡ true
    → ((j : ℕ) → Balanced w n none refs held posted queued j)
    → (j : ℕ) → Balanced w n (some i) (put i 1 refs) held posted (put i false queued) j
first_frame n i refs held posted queued q b j =
    let f = filled n i refs held posted queued none q b in
    elim (Bool-cases (i == j)) [
      | inl e ↦
          let same = (==_iff i j).0 e in
          record {
            counts = rw (e, ap held (sym same) ∙ f.0) refl;
            one_place =
                fits (rw (e, ap posted (sym same) ∙ f.1, ap (λ k. ltb k n) (sym same) ∙ f.2) refl);
          }
      | inr e ↦ record {
        counts = rw e (b j).counts;
        one_place = refits (b j).one_place (rw e refl);
      }
    ]

-- What the driver has after the manager has dropped its claim of a frame whose count was `r`, where the
-- driver accepts the buffer or not.
abbrev pub given_back : Bool → ℕ → ℕ → (ℕ → Bool) → ℕ → Bool
given_back accepted r old queued = if r == 1 then put old accepted queued else queued

if_same : (b c : Bool) → (if b then c else c) ≡ c
if_same true c = refl
if_same false c = refl

pub given_back-at :
    (x : Bool) (r old : ℕ) (q : ℕ → Bool) (j : ℕ)
    → given_back x r old q j ≡ (if old == j then (if r == 1 then x else q j) else q j)
given_back-at x r old q j = elim (Bool-cases (r == 1)) [
  | inl e ↦ rw e refl
  | inr e ↦ rw e (sym (if_same (old == j) (q j)))
]

-- The place of a buffer after a claim of it is dropped.
pub dropped_place :
    {w : Bool} (x : Bool) (p r : ℕ) (q inside : Bool)
    → (w ≡ true → x ≡ true)
    → 0 < r
    → Fits w (p + bit q + sign r) (bit inside)
    → Fits w (p + bit (if r == 1 then x else q) + sign (r - 1)) (bit inside)
dropped_place x p zero q inside y h k = ground arith
dropped_place x p (suc zero) true inside y h k = let t = taken p 1 true inside h k.below in cc
dropped_place true p (suc zero) false inside y h k = refits k (omega arith)
dropped_place false p (suc zero) false inside y h k = record {
  below = omega (arith, k.below);
  exact = λ r. let z = y r in cc;
}
dropped_place x p (suc (suc r)) q inside y h k =
    let a : suc (suc r) == 1 ≡ false = ground arith in
    let m : suc (suc r) - 1 ≡ suc r = omega arith in refits k (rw (a, m) refl)

-- A buffer is filled where the manager has a frame.
pub next_frame :
    {w : Bool} (x : Bool) (n i old : ℕ) (refs held posted : ℕ → ℕ) (queued : ℕ → Bool)
    → (w ≡ true → x ≡ true)
    → queued i ≡ true
    → ((j : ℕ) → Balanced w n (some old) refs held posted queued j)
    → (j : ℕ)
    → Balanced w n
        (some i)
        (put old (refs old - 1) (put i 1 refs))
        held
        posted
        (given_back x (refs old) old (put i false queued))
        j
next_frame {w = w} x n i old refs held posted queued y q b j =
    let f = filled n i refs held posted queued (some old) q b in
    let r = put old (refs old - 1) (put i 1 refs) j in
    let g =
      ap (λ z. posted j + bit z + sign r) (given_back-at x (refs old) old (put i false queued) j) in
    elim (Bool-cases (i == j)) [
      | inl e ↦
          let same = (==_iff i j).0 e in
          let o : old == j ≡ false = ap (λ k. old == k) (sym same) ∙ ground (arith, f.3) in
          record {
            counts = rw (o, e, ap held (sym same) ∙ f.0) refl;
            one_place = fits (
                g ∙ rw (o, e, ap posted (sym same) ∙ f.1, ap (λ k. ltb k n) (sym same) ∙ f.2) refl);
          }
      | inr e ↦ elim (Bool-cases (old == j)) [
        | inl o ↦
            let same = (==_iff old j).0 o in
            let at = subst (λ k. Balanced w n (some k) refs held posted queued j) same (b j) in
            let total : refs j ≡ 1 + held j =
              at.counts ∙ ap (λ x. bit x + held j) ((==_iff j j).1 refl) in
            record {
              counts = rw (e, o) (ap (λ k. refs k - 1) same ∙ ap (λ x. x - 1) total ∙ omega arith);
              one_place =
                  refits
                    (dropped_place x (posted j) (refs j) (queued j) (ltb j n) y (omega arith)
                      at.one_place)
                    (g
                      ∙ rw (e, o)
                          (ap
                            (λ k.
                              posted j
                              + bit (if refs k == 1 then x else queued j)
                              + sign (refs k - 1))
                            same));
            }
        | inr o ↦ record {
          counts = rw (e, o) ((b j).counts ∙ ap (λ z. bit z + held j) o);
          one_place = refits (b j).one_place (g ∙ rw (e, o) refl);
        }
      ]
    ]
