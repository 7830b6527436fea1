-- ===== src/Script/Runner/Tests.antt =====
-- trikScriptRunner/src/trikScriptRunner.cpp: tests.
use trik_runtime.Prelude.{◌≡◌, refl, false, List, [], ◌∷◌, ◌++◌}
use trik_runtime.Prelude.Sets.{has}
use trik_runtime.Text.{codes}
use trik_runtime.Script.Runner.{
  javascript, python, script_type_eq, new, abort, run, run_file, run_direct_command, call_other,
  known_method_names_for, fetch_runner,
}
use trik_runtime.Script.Runner.Alone.{
  Request, asks_run, asks_file, asks_direct, asks_abort, asks_other, after_calls, follow, answer,
  follow-abort,
}

abbrev requests : List Request
requests =
    asks_file (codes "brick.wait(1)") (codes "a.py")
    ∷ asks_direct (codes "print(1)")
    ∷ asks_run (codes "brick.stop()") javascript (codes "b.js")
    ∷ asks_other
    ∷ []

follow-abort_example : has javascript (follow (requests ++ asks_abort ∷ []) new []).1 ≡ false
follow-abort_example = follow-abort requests javascript

-- Before the abort the second script is busy, and the first one is not.
busy_before : (follow requests new []).1 ≡ javascript ∷ []
unfolding follow answer run_file run_direct_command abort call_other run fetch_runner new
busy_before = refl

-- A question for the methods of another runner makes that one the last: the abort that follows
-- misses the script that runs.
missed :
    after_calls
      (abort (known_method_names_for python (follow requests new []).0).0).1
      (follow requests new []).1
    ≡ javascript ∷ []
unfolding follow answer run_file run_direct_command abort call_other run fetch_runner
    known_method_names_for new
missed = refl
