-- ===== src/Control/DeviceState.antt =====
-- trikControl/src/deviceState.cpp: the state of a device.
pub mod Transitions
mod Tests
use trik_runtime.Prelude.{ℕ, ◌≡◌, Bool, true, false, List, [], ◌∷◌}

pub data Status : Type 0 where
  permanent_failure temporary_failure off starting ready stopping : Status

-- DeviceInterface::combine, with the status of the underlying device.
unfoldable pub combine : Status → Status → Status
combine ready dependent = dependent
combine underlying dependent = underlying

-- What an operation does: the state that it sets, or an IncorrectStateChangeException, which
-- leaves the state as it was.
pub data Outcome : Type 0 where
  done : Status → Outcome
  thrown : Outcome

pub data Operation : Type 0 where
  fails starts becomes_ready stops becomes_off resets_failure : Operation

-- isReady, isStarting, isStopped, isFailed.
abbrev pub is_ready : Status → Bool
is_ready ready = true
is_ready _ = false

abbrev pub is_starting : Status → Bool
is_starting starting = true
is_starting _ = false

abbrev pub is_stopped : Status → Bool
is_stopped stopping = true
is_stopped _ = false

abbrev pub is_failed : Status → Bool
is_failed permanent_failure = true
is_failed _ = false

unfoldable pub fail : Status → Outcome
fail s = done permanent_failure

unfoldable pub start : Status → Outcome
start permanent_failure = done permanent_failure
start off = done starting
start _ = thrown

-- ready().
unfoldable pub become_ready : Status → Outcome
become_ready permanent_failure = done permanent_failure
become_ready off = done ready
become_ready starting = done ready
become_ready _ = thrown

unfoldable pub stop : Status → Outcome
stop permanent_failure = done permanent_failure
stop ready = done stopping
stop _ = thrown

-- off().
unfoldable pub become_off : Status → Outcome
become_off permanent_failure = done permanent_failure
become_off ready = done off
become_off stopping = done off
become_off _ = thrown

unfoldable pub reset_failure : Status → Outcome
reset_failure permanent_failure = done off
reset_failure _ = thrown

unfoldable pub apply : Operation → Status → Outcome
apply fails s = fail s
apply starts s = start s
apply becomes_ready s = become_ready s
apply stops s = stop s
apply becomes_off s = become_off s
apply resets_failure s = reset_failure s

abbrev pub settled : Status → Outcome → Status
settled s (done t) = t
settled s thrown = s

-- A sequence of operations whose exceptions are caught.
unfoldable pub run : Status → List Operation → Status
run s [] = s
run s (o ∷ os) = run (settled s (apply o s)) os
