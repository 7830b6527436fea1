-- ===== src/Script/Runner/Alone.antt =====
-- Which runners have a script.
use trik_runtime.Prelude.{◌≡◌, sym, true, false, List, [], ◌∷◌, ◌++◌, Bool-cases, inl, inr, arith}
use trik_runtime.Prelude.Sets.{has, with_element, without, has-with_element, has-without}
use trik_runtime.Text.{Bytes}
use trik_runtime.Script.Runner.{
  ScriptType, type_eq, type_eq_iff, script_type_eq, Call, runs, runs_direct, aborts, others,
  TrikScriptRunner, Step, abort, run, run_file, run_direct_command, call_other, new,
}

-- The runners that have been given a script since they were aborted last.
abbrev pub after_call : ScriptType × Call → List ScriptType → List ScriptType
after_call (t, runs script file) busy = with_element t busy
after_call (t, runs_direct command) busy = with_element t busy
after_call (t, aborts) busy = without t busy
after_call (t, others) busy = busy

abbrev pub after_calls : List (ScriptType × Call) → List ScriptType → List ScriptType
after_calls [] busy = busy
after_calls (c ∷ cs) busy = after_calls cs (after_call c busy)

-- What the GUI and the other programs call while scripts run; asks_other is registerUserFunction,
-- wasError, brickBeep or setWorkingDirectory.
pub data Request : Type 0 where
  asks_run : Bytes → ScriptType → Bytes → Request
  asks_file : Bytes → Bytes → Request
  asks_direct : Bytes → Request
  asks_abort : Request
  asks_other : Request

unfoldable pub answer : Request → TrikScriptRunner → Step
answer (asks_run script t file) s = run script t file s
answer (asks_file script file) s = run_file script file s
answer (asks_direct command) s = run_direct_command command s
answer asks_abort s = abort s
answer asks_other s = call_other s

-- The state after requests, with the runners that are busy.
unfoldable pub follow :
    List Request → TrikScriptRunner → List ScriptType → TrikScriptRunner × List ScriptType
follow [] s busy = (s, busy)
follow (r ∷ rs) s busy = let a = answer r s in follow rs a.0 (after_calls a.1 busy)

-- Only the last runner may be busy.
abbrev pub IsAlone : TrikScriptRunner → List ScriptType → Type 0
IsAlone s busy = (t : ScriptType) → has t busy ≡ true → t ≡ s.last_runner

-- Where no runner but `t` is busy, an abort of it leaves none.
aborted :
    (t : ScriptType) (busy : List ScriptType)
    → ((u : ScriptType) → has u busy ≡ true → u ≡ t)
    → (u : ScriptType) → has u (without t busy) ≡ true
    → ⊥
aborted t busy h u k = elim (Bool-cases (has u busy)) [
  | inl q ↦ grind (arith, has-without u t busy, type_eq_iff t u, h u q)
  | inr q ↦ ground (arith, has-without u t busy)
]

gone :
    (t last : ScriptType) (busy : List ScriptType)
    → ((u : ScriptType) → has u busy ≡ true → u ≡ last)
    → (u : ScriptType) → has u (without t (without last busy)) ≡ true
    → ⊥
gone t last busy h u k = aborted last busy h u (ground (arith, has-without u t (without last busy)))

-- Where no runner but `t` is busy, and `t` gets a script.
started :
    (t : ScriptType) (busy : List ScriptType)
    → ((u : ScriptType) → has u busy ≡ true → u ≡ t)
    → (u : ScriptType) → has u (with_element t busy) ≡ true
    → u ≡ t
started t busy h u k = elim (Bool-cases (type_eq t u)) [
  | inl q ↦ sym ((type_eq_iff t u).0 q)
  | inr q ↦ h u (ground (arith, has-with_element u t busy))
]

run-IsAlone :
    (script file : Bytes) (t : ScriptType) (s : TrikScriptRunner) (busy : List ScriptType)
    → IsAlone s busy
    → IsAlone (run script t file s).0 (after_calls (run script t file s).1 busy)
unfolding run abort
run-IsAlone script file t s busy h = elim (Bool-cases (type_eq s.last_runner t)) [
  | inl q ↦
      rw q
        (started t (without s.last_runner busy) (λ u k. absurd (aborted s.last_runner busy h u k)))
  | inr q ↦ rw q (
      started t (without t (without s.last_runner busy))
        (λ u k. absurd (gone t s.last_runner busy h u k)))
]

answer-IsAlone :
    (r : Request) (s : TrikScriptRunner) (busy : List ScriptType)
    → IsAlone s busy
    → IsAlone (answer r s).0 (after_calls (answer r s).1 busy)
unfolding answer run_file run_direct_command abort call_other
answer-IsAlone (asks_run script t file) s busy h u k = run-IsAlone script file t s busy h u k
answer-IsAlone (asks_file script file) s busy h u k = run-IsAlone script file _ s busy h u k
answer-IsAlone (asks_direct command) s busy h u k = started s.last_runner busy h u k
answer-IsAlone asks_abort s busy h u k = absurd (aborted s.last_runner busy h u k)
answer-IsAlone asks_other s busy h u k = h u k

aborts-last :
    (rs : List Request) (s : TrikScriptRunner) (busy : List ScriptType)
    → IsAlone s busy
    → (u : ScriptType) → has u (follow (rs ++ asks_abort ∷ []) s busy).1 ≡ false
unfolding follow answer abort
aborts-last [] s busy h u = elim (Bool-cases (has u (without s.last_runner busy))) [
  | inl q ↦ absurd (aborted s.last_runner busy h u q)
  | inr q ↦ q
]
aborts-last (r ∷ rs) s busy h u =
    aborts-last rs (answer r s).0 (after_calls (answer r s).1 busy) (answer-IsAlone r s busy h) u

-- After any calls of run, runDirectCommand, abort, registerUserFunction, wasError, brickBeep and
-- setWorkingDirectory, on a script runner that was just made, a further abort leaves no runner busy:
-- every runner that was given a script has been aborted since.
pub follow-abort :
    (rs : List Request) (u : ScriptType) → has u (follow (rs ++ asks_abort ∷ []) new []).1 ≡ false
follow-abort rs u = aborts-last rs new [] (λ t k. cc) u
