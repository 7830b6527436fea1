-- ===== src/Script/Threading/Disjoint.antt =====
-- A thread id runs, has finished, or must not start: never two of these.
use trik_runtime.Prelude.{
  ◌≡◌, true, Option, none, some, List, [], ◌∷◌, if◌then◌else◌, ◌&&◌, not, is_empty, Bool-cases, inl,
  inr,
}
use trik_runtime.Prelude.Maps.{lookup, remove}
use trik_runtime.Prelude.Sets.{has, with_element}
use trik_runtime.Text.{Bytes, bytes_eq}
use trik_runtime.Script.Threading.{
  Threading, Waiter, caller, finishing, has_thread, is_resetting, start_thread, start_main_thread,
  main_thread, begin_reset, end_reset, end_by, thread_finished, error_of, fails, kill_thread,
}
use trik_runtime.Script.Threading.Places.{
  Apart, prevented-Free, started-Free, finished-Free, killed-Free, failed-Free, cleared, unfinished,
}

end_by-Apart : (k : Bytes) (s : Threading) (o : Option Waiter) → Apart k s → Apart k (end_by s o).0
end_by-Apart k s none a = a
end_by-Apart k s (some who) a = a

start_thread-Apart : (k id : Bytes) (s : Threading) → Apart k s → Apart k (start_thread s id).0
unfolding start_thread
start_thread-Apart k id s a = elim (Bool-cases (is_resetting s)) [
  | inl q ↦ rw q a
  | inr q ↦ elim (Bool-cases (has_thread id s)) [
    | inl t ↦ rw (q, t) a
    | inr t ↦ elim (Bool-cases (has id s.prevent_from_start)) [
      | inl p ↦ rw (q, t, p) (prevented-Free k id s t a)
      | inr p ↦ rw (q, t, p) (started-Free k id s p a)
    ]
  ]
]

start_main_thread-Apart : (k : Bytes) (s : Threading) → Apart k (start_main_thread s).0
unfolding start_main_thread
start_main_thread-Apart k s =
    start_thread-Apart k main_thread
      (record s { error_message = []; finished_threads = []; prevent_from_start = [] })
      (cleared (has_thread k s))

begin_reset-Apart :
    (k : Bytes) (who : Waiter) (s : Threading) → Apart k s → Apart k (begin_reset who s).0
unfolding begin_reset
begin_reset-Apart k who s a = elim (Bool-cases (is_resetting s)) [
  | inl q ↦ rw q a
  | inr q ↦ rw q (unfinished _ _ a.1)
]

end_reset-Apart : (k : Bytes) (s : Threading) → Apart k s → Apart k (end_reset s).0
unfolding end_reset
end_reset-Apart k s a = elim (Bool-cases (is_empty s.threads)) [
  | inl q ↦ rw q (end_by-Apart k s s.reset_started a)
  | inr q ↦ rw q a
]

thread_finished-Apart :
    (k id : Bytes) (s : Threading)
    → has_thread id s ≡ true
    → Apart k s
    → Apart k (thread_finished s id).0
unfolding thread_finished
thread_finished-Apart k id s t a =
    let e = error_of (lookup id s.threads) in
    let u = record s {
      error_message = if not (is_empty e) && is_empty s.error_message then e else s.error_message;
      threads = remove id s.threads;
      finished_threads = with_element id s.finished_threads;
    } in
    let b = finished-Free k id s t a in
    elim (Bool-cases (not (is_empty u.error_message) && not (is_resetting u))) [
      | inl q ↦ rw q (begin_reset-Apart k finishing u b)
      | inr q ↦ rw q b
    ]

kill_thread-Apart : (k id : Bytes) (s : Threading) → Apart k s → Apart k (kill_thread s id).0
unfolding kill_thread
kill_thread-Apart k id s a = elim (Bool-cases (is_resetting s)) [
  | inl q ↦ rw q a
  | inr q ↦ elim (Bool-cases (has_thread id s)) [
    | inl t ↦ rw (q, t) a
    | inr t ↦ elim (Bool-cases (has id s.finished_threads)) [
      | inl f ↦ rw (q, t, f) a
      | inr f ↦ rw (q, t, f) (killed-Free k id s t f a)
    ]
  ]
]

fails-Apart : (k id e : Bytes) (s : Threading) → Apart k s → Apart k (fails s id e).0
unfolding fails
fails-Apart k id e s a = elim (Bool-cases (has_thread id s)) [
  | inl t ↦ rw t (failed-Free k id e s t a)
  | inr t ↦ rw t a
]

-- What can happen to the threads of a script. Only a thread that is kept finishes.
pub data Call : Type 0 where
  starts_main resets ends : Call
  starts_thread finishes kills : Bytes → Call
  has_failed : Bytes → Bytes → Call

unfoldable pub step : Threading → Call → Threading
step s starts_main = (start_main_thread s).0
step s resets = (begin_reset caller s).0
step s ends = (end_reset s).0
step s (starts_thread id) = (start_thread s id).0
step s (finishes id) = if has_thread id s then (thread_finished s id).0 else s
step s (kills id) = (kill_thread s id).0
step s (has_failed id e) = (fails s id e).0

step-Apart : (k : Bytes) (s : Threading) (c : Call) → Apart k s → Apart k (step s c)
unfolding step
step-Apart k s starts_main a = start_main_thread-Apart k s
step-Apart k s resets a = begin_reset-Apart k caller s a
step-Apart k s ends a = end_reset-Apart k s a
step-Apart k s (starts_thread id) a = start_thread-Apart k id s a
step-Apart k s (kills id) a = kill_thread-Apart k id s a
step-Apart k s (has_failed id e) a = fails-Apart k id e s a
step-Apart k s (finishes id) a = elim (Bool-cases (has_thread id s)) [
  | inl t ↦ rw t (thread_finished-Apart k id s t a)
  | inr t ↦ rw t a
]

unfoldable pub run : Threading → List Call → Threading
run s [] = s
run s (c ∷ cs) = run (step s c) cs

-- Whatever happens to the threads of a script, an id is never two of these: running, finished, kept
-- from starting.
pub run-Apart : (k : Bytes) (s : Threading) (cs : List Call) → Apart k s → Apart k (run s cs)
unfolding run
run-Apart k s [] a = a
run-Apart k s (c ∷ cs) a = run-Apart k (step s c) cs (step-Apart k s c a)
