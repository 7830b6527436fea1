-- ===== src/Control/RangeSensor/Readings.antt =====
-- What a sensor reads after the events of a driver.
use trik_runtime.Prelude.{
  ◌≡◌, refl, ap, subst, ◌∙◌, true, false, some, List, [], ◌∷◌, if◌then◌else◌, arith, Bool-cases,
  inl, inr, ◌&&◌,
}
use trik_runtime.Prelude.Int.{ℤ, eq_ℤ}
use trik_runtime.Control.DeviceState.{is_ready}
use trik_runtime.Control.DataFilter.{DataFilter, filter_all, apply_filter}
use trik_runtime.Control.RangeSensor.{
  RangeSensor, ev_abs, abs_distance, filtered, new_distance, on_new_event, on_new_events, read,
}

-- The distances that a series of events brings.
abbrev pub distances : List (ℤ × ℤ × ℤ) → List ℤ
distances [] = []
distances ((event_type, code, value) ∷ es) =
    let more = distances es in
    if eq_ℤ event_type ev_abs && eq_ℤ code abs_distance then value ∷ more else more

abbrev pub last_or : ℤ → List ℤ → ℤ
last_or d [] = d
last_or d (m ∷ ms) = last_or m ms

other_event :
    (s : RangeSensor) (event_type code value : ℤ)
    → (eq_ℤ event_type ev_abs && eq_ℤ code abs_distance) ≡ false
    → let t = (on_new_event s event_type code value).0 in
      (t.data_filter ≡ s.data_filter) × (t.distance ≡ s.distance) × (t.status ≡ s.status)
unfolding on_new_event
other_event s event_type code value o = (ground arith, ground arith, ground arith)

distance_event :
    (s : RangeSensor) (event_type code value : ℤ)
    → is_ready s.status ≡ true
    → (eq_ℤ event_type ev_abs && eq_ℤ code abs_distance) ≡ true
    → (on_new_event s event_type code value).0 ≡ new_distance s value
unfolding on_new_event
distance_event s event_type code value h o = ground arith

-- A ready sensor whose filter and distance are those that some readings give.
abbrev pub Reads : RangeSensor → DataFilter → ℤ → List ℤ → Type 0
Reads t f x cs =
    let (g, ms) = filter_all f cs in
    (t.data_filter ≡ some g) × (read t ≡ last_or x ms) × (is_ready t.status ≡ true)

-- A ready sensor with a filter has, after any events, the state of its filter and the distance that
-- the distances among the events give; it stays ready.
pub on_new_events_lem :
    (s : RangeSensor) (f : DataFilter) (es : List (ℤ × ℤ × ℤ))
    → is_ready s.status ≡ true
    → s.data_filter ≡ some f
    → Reads (on_new_events s es).0 f s.distance (distances es)
unfolding on_new_events filter_all read
on_new_events_lem s f [] h e = (e, rw h refl, h)
on_new_events_lem s f ((event_type, code, value) ∷ es) h e =
    let t = (on_new_event s event_type code value).0 in
    elim (Bool-cases (eq_ℤ event_type ev_abs && eq_ℤ code abs_distance)) [
      | inl q ↦
          let same = distance_event s event_type code value h q in
          let (g, m) = apply_filter f value in
          let filter_step = ap (λ u. u.data_filter) same ∙ ap (λ o. (filtered o value).0) e in
          let distance_step = ap (λ u. u.distance) same ∙ ap (λ o. (filtered o value).1) e in
          rw q (
            subst (λ x. Reads (on_new_events t es).0 g x (distances es)) distance_step
              (on_new_events_lem t g es (ap (λ u. is_ready u.status) same ∙ h) filter_step))
      | inr q ↦
          let (k, d, st) = other_event s event_type code value q in
          rw q (
            subst (λ x. Reads (on_new_events t es).0 f x (distances es)) d
              (on_new_events_lem t f es (ap is_ready st ∙ h) (k ∙ e)))
    ]
