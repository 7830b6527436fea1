-- ===== src/Script/Threading/Places.antt =====
-- trikScriptRunner/src/threading.cpp: where the id of a thread may be.
use trik_runtime.Prelude.{
  ◌≡◌, refl, ap, subst, list_eq→eq, ◌∙◌, Bool, true, false, is_some, List, [], if◌then◌else◌, ◌&&◌,
  list_eq, arith, Bool-cases, inl, inr,
}
use trik_runtime.Prelude.Maps.{lookup, insert, remove, lookup-insert, lookup-remove}
use trik_runtime.Prelude.Sets.{has, with_element, without, has-with_element, has-without}
use trik_runtime.Text.{Bytes, bytes_eq}
use trik_runtime.Script.Threading.{Threading, has_thread}

-- At most one of three.
abbrev pub Free : Bool → Bool → Bool → Type 0
Free a b c = ((a && b) ≡ false) × ((a && c) ≡ false) × ((b && c) ≡ false)

abbrev pub Apart : Bytes → Threading → Type 0
Apart k s = Free (has_thread k s) (has k s.finished_threads) (has k s.prevent_from_start)

pub is_some-lookup-insert :
    (k j e : Bytes) (m : List (Bytes × Bytes))
    → is_some (lookup k (insert j e m)) ≡ (if list_eq j k then true else is_some (lookup k m))
is_some-lookup-insert k j e m = elim (Bool-cases (list_eq j k)) [
  | inl q ↦ ap is_some (lookup-insert j k e m) ∙ rw q refl
  | inr q ↦ ap is_some (lookup-insert j k e m) ∙ rw q refl
]

pub is_some-lookup-remove :
    (k j : Bytes) (m : List (Bytes × Bytes))
    → is_some (lookup k (remove j m)) ≡ (if list_eq j k then false else is_some (lookup k m))
is_some-lookup-remove k j m = elim (Bool-cases (list_eq j k)) [
  | inl q ↦ ap is_some (lookup-remove j k m) ∙ rw q refl
  | inr q ↦ ap is_some (lookup-remove j k m) ∙ rw q refl
]

pub same_id : (P : Bytes → Type 0) (id k : Bytes) → list_eq id k ≡ true → P id → P k
same_id P id k e p = subst P (list_eq→eq id k e) p

pub second_false : (x y : Bool) → x ≡ true → (x && y) ≡ false → y ≡ false
second_false true y e h = h
second_false false y e h = ground arith

-- An id that does not run is finished and need no longer be kept from starting.
pub prevented-Free :
    (k id : Bytes) (s : Threading)
    → has_thread id s ≡ false
    → Apart k s
    → Free
        (has_thread k s)
        (has k (with_element id s.finished_threads))
        (has k (without id s.prevent_from_start))
prevented-Free k id s t a = elim (Bool-cases (list_eq id k)) [
  | inl e ↦
      rw
        (
          has-with_element k id s.finished_threads,
          has-without k id s.prevent_from_start,
          e,
          same_id (λ x. has_thread x s ≡ false) id k e t,
        )
        (refl, refl, refl)
  | inr e ↦
      rw (has-with_element k id s.finished_threads, has-without k id s.prevent_from_start, e) a
]

-- An id that is not kept from starting runs.
pub started-Free :
    (k id : Bytes) (s : Threading)
    → has id s.prevent_from_start ≡ false
    → Apart k s
    → Free
        (is_some (lookup k (insert id [] s.threads)))
        (has k (without id s.finished_threads))
        (has k s.prevent_from_start)
started-Free k id s p a = elim (Bool-cases (list_eq id k)) [
  | inl e ↦
      rw
        (
          is_some-lookup-insert k id [] s.threads,
          has-without k id s.finished_threads,
          e,
          same_id (λ x. has x s.prevent_from_start ≡ false) id k e p,
        )
        (refl, refl, refl)
  | inr e ↦ rw (is_some-lookup-insert k id [] s.threads, has-without k id s.finished_threads, e) a
]

-- An id that has run is finished.
pub finished-Free :
    (k id : Bytes) (s : Threading)
    → has_thread id s ≡ true
    → Apart k s
    → Free
        (is_some (lookup k (remove id s.threads)))
        (has k (with_element id s.finished_threads))
        (has k s.prevent_from_start)
finished-Free k id s t a = elim (Bool-cases (list_eq id k)) [
  | inl e ↦
      rw (is_some-lookup-remove k id s.threads, has-with_element k id s.finished_threads, e)
        (refl, refl, second_false _ _ (same_id (λ x. has_thread x s ≡ true) id k e t) a.1)
  | inr e ↦ rw (is_some-lookup-remove k id s.threads, has-with_element k id s.finished_threads, e) a
]

-- An id that neither runs nor has finished is kept from starting.
pub killed-Free :
    (k id : Bytes) (s : Threading)
    → has_thread id s ≡ false
    → has id s.finished_threads ≡ false
    → Apart k s
    → Free
        (has_thread k s)
        (has k s.finished_threads)
        (has k (with_element id s.prevent_from_start))
killed-Free k id s t f a = elim (Bool-cases (list_eq id k)) [
  | inl e ↦
      rw
        (
          has-with_element k id s.prevent_from_start,
          e,
          same_id (λ x. has_thread x s ≡ false) id k e t,
          same_id (λ x. has x s.finished_threads ≡ false) id k e f,
        )
        (refl, refl, refl)
  | inr e ↦ rw (has-with_element k id s.prevent_from_start, e) a
]

pub failed-Free :
    (k id e : Bytes) (s : Threading)
    → has_thread id s ≡ true
    → Apart k s
    → Free
        (is_some (lookup k (insert id e s.threads)))
        (has k s.finished_threads)
        (has k s.prevent_from_start)
failed-Free k id e s t a = elim (Bool-cases (list_eq id k)) [
  | inl q ↦
      rw (is_some-lookup-insert k id e s.threads, q)
        (subst (λ b. Free b (has k s.finished_threads) (has k s.prevent_from_start))
          (same_id (λ x. has_thread x s ≡ true) id k q t) a)
  | inr q ↦ rw (is_some-lookup-insert k id e s.threads, q) a
]

pub cleared : (x : Bool) → Free x false false
cleared true = (refl, refl, refl)
cleared false = (refl, refl, refl)

pub unfinished : (x y : Bool) → (x && y) ≡ false → Free x false y
unfinished true y h = (refl, h, refl)
unfinished false y h = (refl, h, refl)
