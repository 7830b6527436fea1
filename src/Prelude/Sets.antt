-- ===== src/Prelude/Sets.antt =====
-- Sets (QSet) as lists.
use trik_runtime.Prelude.Tests.{if◌then◌else◌, Eq, Bool-cases}
use mathlib.Core.Path.{◌≡◌, refl, subst, ap, ◌∙◌}
use mathlib.Core.Logic.{inl, inr}
use mathlib.Core.Bool.{Bool, true, false}
use mathlib.Core.List.{List, [], ◌∷◌}
use native.Mathlib.Omega.{arith}

module _ {ℓ} {A : Type ℓ} ⦃e : Eq A⦄ where
  abbrev pub has : A → List A → Bool
  has k [] = false
  has k (x ∷ xs) = if e.beq x k then true else has k xs

  abbrev pub with_element : A → List A → List A
  with_element k xs = if has k xs then xs else k ∷ xs

  abbrev pub without : A → List A → List A
  without k [] = []
  without k (x ∷ xs) = let rest = without k xs in if e.beq x k then rest else x ∷ rest

  has_same :
      (k j : A) (xs : List A) (b : Bool)
      → has j xs ≡ b
      → has k xs ≡ (if e.beq j k then b else has k xs)
  has_same k j xs b q = elim (Bool-cases (e.beq j k)) [
    | inl p ↦ rw p (subst (λ x. has x xs ≡ b) ((e.beq_iff j k).0 p) q)
    | inr p ↦ rw p refl
  ]

  pub has-with_element :
      (k j : A) (xs : List A) → has k (with_element j xs) ≡ (if e.beq j k then true else has k xs)
  has-with_element k j xs = elim (Bool-cases (has j xs)) [
    | inl q ↦ rw q (has_same k j xs true q)
    | inr q ↦ rw q refl
  ]

  pub has-without :
      (k j : A) (xs : List A) → has k (without j xs) ≡ (if e.beq j k then false else has k xs)
  has-without k j [] = ground arith
  has-without k j (i ∷ xs) =
      ground (arith, has-without k j xs, e.beq_iff i j, e.beq_iff i k, e.beq_iff j k)

  -- Without an element that is missing.
  pub has-missing :
      (k j : A) (xs : List A)
      → has j xs ≡ false
      → has k xs ≡ (if e.beq j k then false else has k xs)
  has-missing k j xs q = has_same k j xs false q

  pub has-with_element_self : (k : A) (xs : List A) → has k (with_element k xs) ≡ true
  has-with_element_self k xs =
      has-with_element k k xs ∙ ap (λ b. if b then true else has k xs) ((e.beq_iff k k).1 refl)
