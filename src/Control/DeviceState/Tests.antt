-- ===== src/Control/DeviceState/Tests.antt =====
-- trikControl/src/deviceState.cpp: tests.
use trik_runtime.Prelude.{◌≡◌, refl, [], ◌∷◌}
use trik_runtime.Control.DeviceState.{
  off, ready, permanent_failure, starts, becomes_ready, fails, stops, apply, run, start,
  become_ready, stop, fail,
}

ready_again : run off (starts ∷ becomes_ready ∷ []) ≡ ready
unfolding run apply start become_ready
ready_again = refl

stays_failed : run ready (fails ∷ stops ∷ starts ∷ []) ≡ permanent_failure
unfolding run apply fail stop start
stays_failed = refl
