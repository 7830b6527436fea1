-- ===== src/Script/Threading/Tests.antt =====
-- Two threads of a script.
use trik_runtime.Prelude.{◌≡◌, refl, true, false, is_empty, List, [], ◌∷◌, ◌++◌, length}
use trik_runtime.Text.{Bytes, bytes_eq, codes}
use trik_runtime.Script.Threading.{
  Threading, new, thread_finished, caller, start_thread, kill_thread, has_thread, is_resetting,
  join_returns, send_message, begin_wait, begin_reset, end_reset, queue, receive_message,
}
use trik_runtime.Script.Threading.Disjoint.{
  Call, starts_main, ends, starts_thread, finishes, kills, has_failed, step, run, run-Apart,
}
use trik_runtime.Script.Threading.Places.{Apart}
use trik_runtime.Script.Threading.Killing.{start_thread-kill_thread}
use trik_runtime.Script.Threading.Messages.{
  send_all, sent_to, receive_all, as_messages, receive_all-send_all,
}
use trik_runtime.Script.Threading.Wakeups.{Sleeps, lost_wakeup}

abbrev first : Bytes
first = codes "first"

abbrev second : Bytes
second = codes "second"

abbrev calls : List Call
calls =
    starts_main
    ∷ starts_thread first
    ∷ kills second
    ∷ starts_thread second
    ∷ has_failed first (codes "error")
    ∷ finishes first
    ∷ finishes (codes "main")
    ∷ ends
    ∷ []

run-Apart_example : Apart first (run new calls)
unfolding new
run-Apart_example = run-Apart first new calls (refl, refl, refl)

start_thread-kill_thread_example :
    let (t, out) =
      start_thread
        (run (kill_thread new second).0 (starts_thread first ∷ finishes first ∷ []))
        second in
    (out ≡ []) × (has_thread second t ≡ false) × (join_returns t second ≡ true)
unfolding new run step start_thread kill_thread thread_finished
start_thread-kill_thread_example =
    start_thread-kill_thread second new (starts_thread first ∷ finishes first ∷ []) refl refl refl
      (refl, (refl, tt)) refl

abbrev sends : List (Bytes × Bytes)
sends = (first, codes "a") ∷ (second, codes "b") ∷ (first, codes "c") ∷ []

receive_all-send_all_example :
    receive_all (send_all new sends) first true (length (queue first new ++ sent_to first sends))
    ≡ as_messages (queue first new ++ sent_to first sends)
unfolding new
receive_all-send_all_example = receive_all-send_all new sends first true refl

-- A receiver that has seen its empty queue.
abbrev about : Threading
about = (receive_message (start_thread new first).0 first true).0

lost_wakeup_example :
    let t = begin_wait (send_message about first (codes "a")).0 first in
    let u = begin_wait (begin_reset caller about).0 first in
    (Sleeps first t × (is_empty (queue first t) ≡ false))
    × (Sleeps first u × (is_resetting (end_reset u).0 ≡ true))
unfolding new receive_message start_thread
lost_wakeup_example = lost_wakeup about first (codes "a") refl refl refl refl refl
