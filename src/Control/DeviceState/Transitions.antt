-- ===== src/Control/DeviceState/Transitions.antt =====
-- Which changes of state are possible.
use trik_runtime.Prelude.{
  ◌≡◌, refl, Bool, true, false, List, [], ◌∷◌, ◌↔◌, arith, All, subst, ap, ◌∙◌,
}
use trik_runtime.Control.DeviceState.{
  Status, off, starting, ready, stopping, permanent_failure, temporary_failure, Outcome, done,
  thrown, Operation, fails, starts, becomes_ready, stops, becomes_off, resets_failure, fail, start,
  become_ready, stop, become_off, reset_failure, apply, settled, run,
}

-- The changes that the header of the class promises.
pub data Allowed : Operation → Status → Status → Type 0 where
  fails_always : (s : Status) → Allowed fails s permanent_failure
  starts_off : Allowed starts off starting
  ready_off : Allowed becomes_ready off ready
  ready_starting : Allowed becomes_ready starting ready
  stops_ready : Allowed stops ready stopping
  off_ready : Allowed becomes_off ready off
  off_stopping : Allowed becomes_off stopping off
  resets : Allowed resets_failure permanent_failure off
  -- in the failure state the commands are ignored quietly
  ignores_start : Allowed starts permanent_failure permanent_failure
  ignores_ready : Allowed becomes_ready permanent_failure permanent_failure
  ignores_stop : Allowed stops permanent_failure permanent_failure
  ignores_off : Allowed becomes_off permanent_failure permanent_failure

abbrev Sound : Operation → Status → Outcome → Type 0
Sound o s (done t) = Allowed o s t
Sound o s thrown = Unit

apply-Sound : (o : Operation) (s : Status) → Sound o s (apply o s)
unfolding apply fail start become_ready stop become_off reset_failure
apply-Sound fails s = fails_always s
apply-Sound starts off = starts_off
apply-Sound starts starting = tt
apply-Sound starts ready = tt
apply-Sound starts stopping = tt
apply-Sound starts permanent_failure = ignores_start
apply-Sound starts temporary_failure = tt
apply-Sound becomes_ready off = ready_off
apply-Sound becomes_ready starting = ready_starting
apply-Sound becomes_ready ready = tt
apply-Sound becomes_ready stopping = tt
apply-Sound becomes_ready permanent_failure = ignores_ready
apply-Sound becomes_ready temporary_failure = tt
apply-Sound stops off = tt
apply-Sound stops starting = tt
apply-Sound stops ready = stops_ready
apply-Sound stops stopping = tt
apply-Sound stops permanent_failure = ignores_stop
apply-Sound stops temporary_failure = tt
apply-Sound becomes_off off = tt
apply-Sound becomes_off starting = tt
apply-Sound becomes_off ready = off_ready
apply-Sound becomes_off stopping = off_stopping
apply-Sound becomes_off permanent_failure = ignores_off
apply-Sound becomes_off temporary_failure = tt
apply-Sound resets_failure off = tt
apply-Sound resets_failure starting = tt
apply-Sound resets_failure ready = tt
apply-Sound resets_failure stopping = tt
apply-Sound resets_failure permanent_failure = resets
apply-Sound resets_failure temporary_failure = tt

Allowed→apply : {o : Operation} {s t : Status} → Allowed o s t → apply o s ≡ done t
unfolding apply fail start become_ready stop become_off reset_failure
Allowed→apply (fails_always s) = refl
Allowed→apply starts_off = refl
Allowed→apply ready_off = refl
Allowed→apply ready_starting = refl
Allowed→apply stops_ready = refl
Allowed→apply off_ready = refl
Allowed→apply off_stopping = refl
Allowed→apply resets = refl
Allowed→apply ignores_start = refl
Allowed→apply ignores_ready = refl
Allowed→apply ignores_stop = refl
Allowed→apply ignores_off = refl

-- An operation changes the state exactly as the class promises, in every state; where a change is
-- not promised it throws.
pub apply-Allowed : (o : Operation) (s t : Status) → (apply o s ≡ done t) ↔ Allowed o s t
apply-Allowed o s t = (λ h. subst (Sound o s) h (apply-Sound o s), Allowed→apply)

abbrev pub keeps_failure : Operation → Bool
keeps_failure resets_failure = false
keeps_failure _ = true

kept :
    (o : Operation)
    → keeps_failure o ≡ true
    → settled permanent_failure (apply o permanent_failure) ≡ permanent_failure
unfolding apply fail start become_ready stop become_off reset_failure
kept fails h = refl
kept starts h = refl
kept becomes_ready h = refl
kept stops h = refl
kept becomes_off h = refl
kept resets_failure h = ground arith

-- Whatever is done after a failure, the device stays failed until the failure is reset.
pub run-fail :
    (s : Status) (os : List Operation)
    → All (λ o. keeps_failure o ≡ true) os
    → run s (fails ∷ os) ≡ permanent_failure
unfolding run apply fail
run-fail s [] h = refl
run-fail s (o ∷ os) h = ap (λ t. run t os) (kept o h.0) ∙ run-fail s os h.1
