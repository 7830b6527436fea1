-- ===== src/Script/Threading.antt =====
-- trikScriptRunner/src/threading.cpp: the threads of a script and their messages. A mutex makes what
-- it guards one step; a wait ends a step.
pub mod Places
pub mod Disjoint
pub mod Killing
pub mod Messages
pub mod Wakeups
mod Tests
use trik_runtime.Prelude.{
  ℕ, ◌≡◌, Bool, true, false, Option, none, some, is_some, List, [], ◌∷◌, ◌++◌, if◌then◌else◌, ◌&&◌,
  ◌||◌, not, is_empty, list_eq,
}
use trik_runtime.Prelude.Maps.{lookup, insert, remove}
use trik_runtime.Prelude.Sets.{has, with_element, without}
use trik_runtime.Text.{Bytes, bytes_eq, codes}

-- Where reset waits for the threads to finish: called from outside, or from threadFinished.
pub data Waiter : Type 0 where
  caller finishing : Waiter

pub record Threading : Type 0 where
  pub threads : List (Bytes × Bytes)  -- mThreads, with the error of each thread
  pub finished_threads : List Bytes
  pub prevent_from_start : List Bytes
  pub error_message : Bytes
  pub reset_started : Option Waiter  -- mResetStarted, and who waits
  pub queues : List (Bytes × List Bytes)
  pub about_to_wait : List Bytes  -- receivers between mResetMutex.unlock and condition->wait
  pub waiting : List Bytes  -- receivers in condition->wait
  pub woken : List Bytes  -- receivers that have been woken and have not gone on

pub data Effect : Type 0 where
  deletes_engine : Effect
  starts : Bytes → Effect
  aborts : Bytes → Effect
  finished : Effect

abbrev pub Step : Type 0
Step = Threading × List Effect

abbrev pub has_thread : Bytes → Threading → Bool
has_thread id s = is_some (lookup id s.threads)

abbrev pub is_resetting : Threading → Bool
is_resetting s = is_some s.reset_started

abbrev pub occupied : Bytes → Bytes
occupied id = codes "Attempt to create a thread with an already occupied id " ++ id

unfoldable pub new : Threading
new = record {
  threads = [];
  finished_threads = [];
  prevent_from_start = [];
  error_message = [];
  reset_started = none;
  queues = [];
  about_to_wait = [];
  waiting = [];
  woken = [];
}

-- startThread.
unfoldable pub start_thread : Threading → Bytes → Step
start_thread s id =
    if is_resetting s
    then (s, deletes_engine ∷ [])
    else if has_thread id s
    then (record s { error_message = occupied id }, aborts id ∷ [])
    else if has id s.prevent_from_start
    then (
      record s {
        prevent_from_start = without id s.prevent_from_start;
        finished_threads = with_element id s.finished_threads;
      },
      [],
    )
    else (
      record s {
        threads = insert id [] s.threads;
        finished_threads = without id s.finished_threads;
      },
      starts id ∷ [],
    )

abbrev pub main_thread : Bytes
main_thread = codes "main"

unfoldable pub start_main_thread : Threading → Step
start_main_thread s =
    start_thread (record s { error_message = []; finished_threads = []; prevent_from_start = [] })
      main_thread

abbrev pub abort_all : List (Bytes × Bytes) → List Effect
abort_all [] = []
abort_all ((id, e) ∷ rest) = aborts id ∷ abort_all rest

-- reset up to the wait for all threads.
unfoldable pub begin_reset : Waiter → Threading → Step
begin_reset who s = if is_resetting s then (s, []) else (
  record s {
    reset_started = some who;
    waiting = [];
    woken = s.waiting ++ s.woken;
    finished_threads = [];
  },
  abort_all s.threads,
)

abbrev pub finish_by : Waiter → List Effect
finish_by caller = []
finish_by finishing = finished ∷ []

-- The rest of reset, when the last thread has finished.
abbrev pub end_by : Threading → Option Waiter → Step
end_by s none = (s, [])
end_by s (some who) = (record s { reset_started = none; queues = [] }, finish_by who)

unfoldable pub end_reset : Threading → Step
end_reset s = if is_empty s.threads then end_by s s.reset_started else (s, [])

abbrev pub error_of : Option Bytes → Bytes
error_of none = []
error_of (some e) = e

abbrev pub finish_if_empty : Step → Step
finish_if_empty (s, out) = (s, if is_empty s.threads then out ++ (finished ∷ []) else out)

-- threadFinished. When it begins a reset it goes on in end_reset.
unfoldable pub thread_finished : Threading → Bytes → Step
thread_finished s id =
    let e = error_of (lookup id s.threads) in
    let t = record s {
      error_message = if not (is_empty e) && is_empty s.error_message then e else s.error_message;
      threads = remove id s.threads;
      finished_threads = with_element id s.finished_threads;
    } in
    if not (is_empty t.error_message) && not (is_resetting t)
    then begin_reset finishing t
    else finish_if_empty (t, [])

-- The error that a script ends with.
unfoldable pub fails : Threading → Bytes → Bytes → Step
fails s id e = (if has_thread id s then record s { threads = insert id e s.threads } else s, [])

unfoldable pub kill_thread : Threading → Bytes → Step
kill_thread s id =
    if is_resetting s
    then (s, [])
    else if has_thread id s
    then (s, aborts id ∷ [])
    else if has id s.finished_threads
    then (s, [])
    else (record s { prevent_from_start = with_element id s.prevent_from_start }, [])

-- joinThread: `true` when it returns at once; a thread that runs or is not known is waited for.
unfoldable pub join_returns : Threading → Bytes → Bool
join_returns s id =
    if has id s.finished_threads then true else is_resetting s && not (has_thread id s)

abbrev pub messages : Option (List Bytes) → List Bytes
messages none = []
messages (some ms) = ms

abbrev pub queue : Bytes → Threading → List Bytes
queue id s = messages (lookup id s.queues)

-- wakeOne.
abbrev pub wake_one : Bytes → Threading → Threading
wake_one id s =
    if has id s.waiting
    then record s { waiting = without id s.waiting; woken = with_element id s.woken }
    else s

unfoldable pub send_message : Threading → Bytes → Bytes → Step
send_message s id message =
    if is_resetting s
    then (s, [])
    else (wake_one id (record s { queues = insert id (queue id s ++ (message ∷ [])) s.queues }), [])

-- What receiveMessage gives: an undefined value, an empty text, a message, or nothing yet.
pub data Received : Type 0 where
  undefined empty_text pending : Received
  message : Bytes → Received
  -- dequeue from an empty queue, which Qt leaves undefined
  broken : Received

abbrev pub dequeue : Bytes → List Bytes → Threading → Threading × Received
dequeue id [] s = (s, broken)
dequeue id (m ∷ ms) s = (record s { queues = insert id ms s.queues }, message m)

-- receiveMessage up to the wait.
unfoldable pub receive_message : Threading → Bytes → Bool → Threading × Received
receive_message s id wait =
    if is_resetting s
    then (s, undefined)
    else if not (is_empty (queue id s))
    then dequeue id (queue id s) s
    else if wait
    then (record s { about_to_wait = with_element id s.about_to_wait }, pending)
    else (s, empty_text)

-- condition->wait begins.
unfoldable pub begin_wait : Threading → Bytes → Threading
begin_wait s id =
    if has id s.about_to_wait
    then record s {
      about_to_wait = without id s.about_to_wait;
      waiting = with_element id s.waiting;
    }
    else s

-- A receiver that has been woken goes on.
unfoldable pub go_on : Threading → Bytes → Threading × Received
go_on s id =
    if has id s.woken
    then (let t = record s { woken = without id s.woken } in
        if is_resetting t then (t, undefined) else dequeue id (queue id t) t)
    else (s, pending)
