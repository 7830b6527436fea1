-- ===== src/Control/CameraManager/Claims.antt =====
-- trikControl/src/cameraManager.cpp: the frames of clients keep the buffers in their places.
use trik_runtime.Prelude.{
  ℕ, zero, suc, ◌+◌, ◌-◌, ◌<◌, ◌≤◌, ◌≡◌, refl, ap, subst, ◌∙◌, arith, Bool, true, false, Option,
  if◌then◌else◌, ltb, ◌==◌, ==_iff, put, Bool-cases, inl, inr,
}
use trik_runtime.Control.CameraManager.{Token, with_refs}
use trik_runtime.Control.CameraManager.Frames.{posts}
use trik_runtime.Control.CameraManager.States.{refs_of, Balanced, Fits, refits, bit, sign}

pub with_refs-at :
    (tokens : ℕ → Token) (j n i : ℕ) → refs_of (with_refs j n tokens) i ≡ put j n (refs_of tokens) i
with_refs-at tokens j n i = elim (Bool-cases (j == i)) [
  | inl h ↦ rw (refs_of, h) refl
  | inr h ↦ rw (refs_of, h) refl
]

positive : (r : ℕ) → 0 < r → 1 ≡ sign r
positive zero h = ground arith
positive (suc r) h = refl

at_itself :
    {w : Bool} (n i : ℕ) (refs held posted : ℕ → ℕ) (queued : ℕ → Bool) (latest : Option ℕ)
    → 0 < refs i
    → Balanced w n latest refs held posted queued i
    → Balanced w n latest (put i (suc (refs i)) refs) (put i (suc (held i)) held) posted queued i
at_itself n i refs held posted queued latest h b =
    let self : i == i ≡ true = (==_iff i i).1 refl in
    let total = b.counts in
    record {
      counts = rw self (omega arith);
      one_place =
          refits b.one_place
            (rw self (ap (λ s. posted i + bit (queued i) + s) (positive (refs i) h)));
    }

-- A frame more for a buffer that is claimed.
pub claimed_more :
    {w : Bool} (n i : ℕ) (refs held posted : ℕ → ℕ) (queued : ℕ → Bool) (latest : Option ℕ)
    → 0 < refs i
    → ((j : ℕ) → Balanced w n latest refs held posted queued j)
    → (j : ℕ)
    → Balanced w n latest (put i (suc (refs i)) refs) (put i (suc (held i)) held) posted queued j
claimed_more {w = w} n i refs held posted queued latest h b j = elim (Bool-cases (i == j)) [
  | inl e ↦
      let same = (==_iff i j).0 e in
      let more =
        subst
          (λ k.
            Balanced w n latest (put i (suc (refs i)) refs) (put i (suc (held i)) held) posted
              queued k)
          same (at_itself n i refs held posted queued latest h (b i)) in
      more
  | inr e ↦ record { counts = rw e (b j).counts; one_place = refits (b j).one_place (rw e refl) }
]

posts-at :
    (b : Bool) (i : ℕ) (posted : ℕ → ℕ) (j : ℕ)
    → posts b i posted j ≡ (if i == j then (if b then suc (posted i) else posted j) else posted j)
posts-at true i posted j = refl
posts-at false i posted j = elim (Bool-cases (i == j)) [ inl e ↦ rw e refl | inr e ↦ rw e refl ]

-- The place of a buffer after a frame of it is dropped.
posted_place :
    (p r : ℕ) (q inside : Bool)
    → 0 < r
    → p + bit q + sign r ≤ bit inside
    → (if r == 1 then suc p else p) + bit q + sign (r - 1) ≡ p + bit q + sign r
posted_place p zero q inside h k = ground arith
posted_place p (suc zero) q inside h k = omega arith
posted_place p (suc (suc r)) q inside h k =
    let a : suc (suc r) == 1 ≡ false = ground arith in
    let m : suc (suc r) - 1 ≡ suc r = omega arith in rw (a, m) refl

less_at_itself :
    {w : Bool} (n i : ℕ) (refs held posted : ℕ → ℕ) (queued : ℕ → Bool) (latest : Option ℕ)
    → 0 < held i
    → Balanced w n latest refs held posted queued i
    → Balanced w n latest
        (put i (refs i - 1) refs)
        (put i (held i - 1) held)
        (posts (refs i == 1) i posted)
        queued
        i
less_at_itself n i refs held posted queued latest h b =
    let self : i == i ≡ true = (==_iff i i).1 refl in
    let total = b.counts in
    record {
      counts = rw self (omega arith);
      one_place = refits b.one_place (
          ap (λ p. p + bit (queued i) + sign (put i (refs i - 1) refs i))
            (posts-at (refs i == 1) i posted i)
          ∙ rw self (
              posted_place (posted i) (refs i) (queued i) (ltb i n) (omega arith)
                b.one_place.below));
    }

-- A frame less; the last claim posts the return of the buffer.
pub claimed_less :
    {w : Bool} (n i : ℕ) (refs held posted : ℕ → ℕ) (queued : ℕ → Bool) (latest : Option ℕ)
    → 0 < held i
    → ((j : ℕ) → Balanced w n latest refs held posted queued j)
    → (j : ℕ)
    → Balanced w n latest
        (put i (refs i - 1) refs)
        (put i (held i - 1) held)
        (posts (refs i == 1) i posted)
        queued
        j
claimed_less {w = w} n i refs held posted queued latest h b j = elim (Bool-cases (i == j)) [
  | inl e ↦
      subst
        (λ k.
          Balanced w n latest (put i (refs i - 1) refs) (put i (held i - 1) held)
            (posts (refs i == 1) i posted) queued k)
        ((==_iff i j).0 e) (less_at_itself n i refs held posted queued latest h (b i))
  | inr e ↦ record {
    counts = rw e (b j).counts;
    one_place = refits (b j).one_place (
        ap (λ p. p + bit (queued j) + sign (put i (refs i - 1) refs j))
          (posts-at (refs i == 1) i posted j)
        ∙ rw e refl);
  }
]

waiting :
    {w : Bool} (x : Bool) (p r : ℕ) (q inside : Bool)
    → (w ≡ true → x ≡ true)
    → 0 < p
    → Fits w (p + bit q + sign r) (bit inside)
    → (q ≡ false) × (inside ≡ true) × Fits w (p - 1 + bit x + sign r) (bit inside)
waiting x p r true true y h k = absurd (let b = k.below in ground arith)
waiting x p r true false y h k = absurd (let b = k.below in ground arith)
waiting x p r false false y h k = absurd (let b = k.below in ground arith)
waiting true p r false true y h k = (refl, refl, refits k (omega arith))
waiting false p r false true y h k =
    (refl, refl, record { below = omega (arith, k.below); exact = λ z. let c = y z in cc })

-- A return that was posted reaches the driver, which accepts the buffer or not.
pub returned :
    {w : Bool} (x : Bool) (n i : ℕ) (refs held posted : ℕ → ℕ) (queued : ℕ → Bool)
    (latest : Option ℕ)
    → (w ≡ true → x ≡ true)
    → 0 < posted i
    → ((j : ℕ) → Balanced w n latest refs held posted queued j)
    → (queued i ≡ false)
      × (ltb i n ≡ true)
      × ((j : ℕ) → Balanced w n latest refs held (put i (posted i - 1) posted) (put i x queued) j)
returned {w = w} x n i refs held posted queued latest y h b =
    let v = waiting x (posted i) (refs i) (queued i) (ltb i n) y h (b i).one_place in
    (
      v.0,
      v.1,
      λ j. elim (Bool-cases (i == j)) [
        | inl e ↦
            let same = (==_iff i j).0 e in
            subst
              (λ k. Balanced w n latest refs held (put i (posted i - 1) posted) (put i x queued) k)
              same
              (let self : i == i ≡ true = (==_iff i i).1 refl in
                record { counts = (b i).counts; one_place = refits v.2 (rw self refl) })
        | inr e ↦ record { counts = (b j).counts; one_place = refits (b j).one_place (rw e refl) }
      ],
    )
