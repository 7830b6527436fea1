-- ===== src/Script/Runner.antt =====
-- trikScriptRunner/src/trikScriptRunner.cpp: the choice of the runner for a script, in a build with
-- Python. `none` is a call through a null pointer.
pub mod Alone
mod Tests
use trik_runtime.Prelude.{
  ℕ, ◌≡◌, refl, ◌↔◌, Bool, true, false, Option, none, some, List, [], ◌∷◌, ◌++◌, if◌then◌else◌, Eq,
  list_eq, ◌==◌,
}
use trik_runtime.Prelude.Sets.{has, with_element, without}
use trik_runtime.Text.{Bytes, contains, codes}

pub data ScriptType : Type 0 where
  javascript python cpp : ScriptType

abbrev pub type_eq : ScriptType → ScriptType → Bool
type_eq javascript javascript = true
type_eq python python = true
type_eq cpp cpp = true
type_eq javascript python = false
type_eq javascript cpp = false
type_eq python javascript = false
type_eq python cpp = false
type_eq cpp javascript = false
type_eq cpp python = false

pub type_eq_iff : (a b : ScriptType) → (type_eq a b ≡ true) ↔ (a ≡ b)
type_eq_iff javascript javascript = (λ h. refl, λ h. refl)
type_eq_iff python python = (λ h. refl, λ h. refl)
type_eq_iff cpp cpp = (λ h. refl, λ h. refl)
type_eq_iff javascript python = (λ h. cc, λ h. cc)
type_eq_iff javascript cpp = (λ h. cc, λ h. cc)
type_eq_iff python javascript = (λ h. cc, λ h. cc)
type_eq_iff python cpp = (λ h. cc, λ h. cc)
type_eq_iff cpp javascript = (λ h. cc, λ h. cc)
type_eq_iff cpp python = (λ h. cc, λ h. cc)

instance abbrev pub script_type_eq : Eq ScriptType
script_type_eq = record { beq = type_eq; beq_iff = type_eq_iff }

-- A call of a runner.
pub data Call : Type 0 where
  runs : Bytes → Bytes → Call  -- the script and its file
  runs_direct : Bytes → Call
  aborts : Call
  others : Call  -- a call that neither starts nor ends a script

pub record TrikScriptRunner : Type 0 where
  pub runners : List ScriptType  -- the cells of mScriptRunnerArray that are filled
  pub last_runner : ScriptType

-- The state, and the calls of the runners in their order.
abbrev pub Step : Type 0
Step = TrikScriptRunner × List (ScriptType × Call)

-- fetchRunner: a runner that is missing is made, and it becomes the last one.
unfoldable pub fetch_runner : ScriptType → TrikScriptRunner → TrikScriptRunner
fetch_runner t s = record { runners = with_element t s.runners; last_runner = t }

-- The constructor: the runner of Python is made early.
unfoldable pub new : TrikScriptRunner
unfolding fetch_runner
new = fetch_runner python (record { runners = []; last_runner = javascript })

unfoldable pub set_default_runner : ScriptType → TrikScriptRunner → TrikScriptRunner
set_default_runner t s = record s { last_runner = t }

-- setDefaultRunner with the extension of a language.
unfoldable pub set_default_runner_by : Bytes → TrikScriptRunner → TrikScriptRunner
unfolding set_default_runner
set_default_runner_by extension s =
    if contains extension (codes "js")
    then set_default_runner javascript s
    else if contains extension (codes "py")
    then set_default_runner python s
    else s

-- A call of the last runner.
abbrev pub on_last : Call → TrikScriptRunner → Step
on_last c s = (fetch_runner s.last_runner s, (s.last_runner, c) ∷ [])

unfoldable pub abort : TrikScriptRunner → Step
unfolding fetch_runner
abort s = on_last aborts s

unfoldable pub run_direct_command : Bytes → TrikScriptRunner → Step
unfolding fetch_runner
run_direct_command command s = on_last (runs_direct command) s

-- registerUserFunction, wasError, brickBeep and setWorkingDirectory.
unfoldable pub call_other : TrikScriptRunner → Step
unfolding fetch_runner
call_other s = on_last others s

unfoldable pub add_custom_engine_init_step : TrikScriptRunner → Step
unfolding fetch_runner
add_custom_engine_init_step s = (fetch_runner javascript s, (javascript, others) ∷ [])

unfoldable pub known_method_names_for : ScriptType → TrikScriptRunner → Step
unfolding fetch_runner
known_method_names_for t s = (fetch_runner t s, (t, others) ∷ [])

-- The cell of the last runner is read as it is.
unfoldable pub known_method_names : TrikScriptRunner → Option Step
known_method_names s =
    if has s.last_runner s.runners then some (s, (s.last_runner, others) ∷ []) else none

unfoldable pub run : Bytes → ScriptType → Bytes → TrikScriptRunner → Step
unfolding abort fetch_runner
run script t file s =
    let aborted = abort s in
    let prev = aborted.0.last_runner in
    let more = if type_eq prev t then [] else (t, aborts) ∷ [] in
    (fetch_runner t aborted.0, aborted.1 ++ (more ++ ((t, runs script file) ∷ [])))

-- run with a file name alone.
abbrev pub ends_with : Bytes → Bytes → Bool
ends_with [] text = list_eq [] text
ends_with (x ∷ xs) text =
    let rest = ends_with xs text in if list_eq (x ∷ xs) text then true else rest

unfoldable pub run_file : Bytes → Bytes → TrikScriptRunner → Step
unfolding run
run_file script file s =
    run script (if ends_with file (codes ".py") then python else javascript) file s
