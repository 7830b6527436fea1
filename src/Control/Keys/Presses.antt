-- ===== src/Control/Keys/Presses.antt =====
-- Which keys count as pressed after a history of calls.
use trik_runtime.Prelude.{
  ◌≡◌, refl, ap, ◌∙◌, Bool, true, false, List, [], ◌∷◌, if◌then◌else◌, ◌&&◌, not, arith, Bool-cases,
  inl, inr,
}
use trik_runtime.Prelude.Sets.{has, with_element, has-with_element, has-without, has-missing}
use trik_runtime.Prelude.Int.{int_eq, ℤ, pos, eq_ℤ, is_zero}
use trik_runtime.Control.Keys.{
  Keys, ev_syn, ev_key, new, reset, ask, read_keys_event, Call, asks, resets, hears, step, after,
}

-- The key event that the next synchronization completes: the last one since the last
-- synchronization or reset, (0, 0) if there is none.
abbrev pub pending : List Call → ℤ × ℤ
pending [] = (pos 0, pos 0)
pending (asks k ∷ h) = pending h
pending (resets ∷ h) = (pos 0, pos 0)
pending (hears event_type code value ∷ h) =
    let before = pending h in
    if eq_ℤ event_type ev_key
    then (code, value)
    else if eq_ℤ event_type ev_syn
    then (pos 0, pos 0)
    else before

-- A synchronization completes a press of this key.
abbrev pub completes : ℤ → ℤ × ℤ → Bool
completes k (code, value) = (not (is_zero code) && not (is_zero value)) && eq_ℤ code k

-- A press of the key has been completed since the last question for it and the last reset.
abbrev pub is_waiting : ℤ → List Call → Bool
is_waiting k [] = false
is_waiting k (asks j ∷ h) = let before = is_waiting k h in if eq_ℤ j k then false else before
is_waiting k (resets ∷ h) = false
is_waiting k (hears event_type code value ∷ h) =
    let before = is_waiting k h in
    if eq_ℤ event_type ev_key
    then before
    else if eq_ℤ event_type ev_syn
    then (if completes k (pending h) then true else before)
    else before

-- One call, in a state that agrees with a history.
abbrev Agrees : ℤ → Keys → List Call → Type 0
Agrees k s h =
    (s.button_code ≡ (pending h).0)
    × (s.button_value ≡ (pending h).1)
    × (has k s.was_pressed ≡ is_waiting k h)

has-completed :
    (k : ℤ) (s : Keys) (h : List Call)
    → Agrees k s h
    → has k (
        if not (is_zero s.button_code) && not (is_zero s.button_value)
        then with_element s.button_code s.was_pressed
        else s.was_pressed)
      ≡ (if completes k (pending h) then true else is_waiting k h)
has-completed k s h (c, v, w) =
    rw (← c, ← v, ← w)
      (elim (Bool-cases (not (is_zero s.button_code) && not (is_zero s.button_value))) [
        | inl q ↦ rw q (has-with_element k s.button_code s.was_pressed)
        | inr q ↦ rw q refl
      ])

step-hears :
    (k event_type code value : ℤ) (s : Keys) (h : List Call)
    → Agrees k s h
    → Agrees k (step s (hears event_type code value)) (hears event_type code value ∷ h)
unfolding step read_keys_event
step-hears k event_type code value s h a = elim (Bool-cases (eq_ℤ event_type ev_key)) [
  | inl q ↦ rw (q, step, read_keys_event) (refl, refl, a.2)
  | inr q ↦ elim (Bool-cases (eq_ℤ event_type ev_syn)) [
    | inl r ↦ rw (q, r, step, read_keys_event) (refl, refl, has-completed k s h a)
    | inr r ↦ rw (q, r, step, read_keys_event) a
  ]
]

step-resets : (k : ℤ) (s : Keys) (h : List Call) → Agrees k (step s resets) (resets ∷ h)
unfolding step reset
step-resets k s h = (refl, refl, refl)

step-asks :
    (k j : ℤ) (s : Keys) (h : List Call) → Agrees k s h → Agrees k (step s (asks j)) (asks j ∷ h)
unfolding step ask
step-asks k j s h (c, v, w) = elim (Bool-cases (has j s.was_pressed)) [
  | inl q ↦
      rw (q, step, ask)
        (c, v, has-without k j s.was_pressed ∙ ap (λ b. if eq_ℤ j k then false else b) w)
  | inr q ↦
      rw (q, step, ask)
        (c, v, has-missing k j s.was_pressed q ∙ ap (λ b. if eq_ℤ j k then false else b) w)
]

after-Agrees : (k : ℤ) (h : List Call) → Agrees k (after h) h
unfolding after new
after-Agrees k [] = (refl, refl, refl)
after-Agrees k (asks j ∷ h) = step-asks k j (after h) h (after-Agrees k h)
after-Agrees k (resets ∷ h) = step-resets k (after h) h
after-Agrees k (hears event_type code value ∷ h) =
    step-hears k event_type code value (after h) h (after-Agrees k h)

ask-has : (k : ℤ) (s : Keys) → (ask s k).1 ≡ has k s.was_pressed
unfolding ask
ask-has k s = ground arith

-- After any history wasPressed answers whether a press of the key has been completed since the last
-- question for it and the last reset: a key event with a code and a value that are not 0, and a
-- synchronization after it.
pub ask-after : (k : ℤ) (h : List Call) → (ask (after h) k).1 ≡ is_waiting k h
unfolding ask
ask-after k h = ask-has k (after h) ∙ (after-Agrees k h).2
