-- ===== src/Script/Threading/Wakeups.antt =====
-- A receiver that has seen an empty queue, and has not begun to wait.
use trik_runtime.Prelude.{
  ◌≡◌, refl, ap, ◌∙◌, sym, true, false, some, List, [], ◌∷◌, ◌++◌, is_empty, is_some, list_eq,
  list_eq_refl, arith, Bool-cases, inl, inr,
}
use trik_runtime.Prelude.Maps.{insert, lookup, lookup-insert}
use trik_runtime.Prelude.Sets.{has, has-with_element_self}
use trik_runtime.Text.{Bytes, bytes_eq}
use trik_runtime.Script.Threading.{
  Threading, caller, is_resetting, has_thread, begin_reset, end_reset, send_message, queue,
  messages, begin_wait,
}

-- A receiver sleeps where it waits and nobody has woken it.
abbrev pub Sleeps : Bytes → Threading → Type 0
Sleeps id s = (has id s.waiting ≡ true) × (has id s.woken ≡ false)

begin_wait-Sleeps :
    (s : Threading) (id : Bytes)
    → has id s.about_to_wait ≡ true
    → has id s.woken ≡ false
    → Sleeps id (begin_wait s id)
unfolding begin_wait
begin_wait-Sleeps s id h w = rw h (has-with_element_self id s.waiting, w)

queue-insert :
    (s : Threading) (id : Bytes) (ms : List Bytes)
    → queue id (record s { queues = insert id ms s.queues }) ≡ ms
queue-insert s id ms = ap messages (lookup-insert id id ms s.queues) ∙ rw (list_eq_refl id) refl

queue-begin_wait : (s : Threading) (id k : Bytes) → queue k (begin_wait s id) ≡ queue k s
unfolding begin_wait
queue-begin_wait s id k = elim (Bool-cases (has id s.about_to_wait)) [
  | inl h ↦ rw h refl
  | inr h ↦ rw h refl
]

append_one : (ms : List Bytes) (m : Bytes) → is_empty (ms ++ (m ∷ [])) ≡ false
append_one [] m = refl
append_one (x ∷ ms) m = refl

resetting-begin_wait :
    (s : Threading) (id : Bytes) → is_resetting (begin_wait s id) ≡ is_resetting s
unfolding begin_wait
resetting-begin_wait s id = elim (Bool-cases (has id s.about_to_wait)) [
  | inl h ↦ rw h refl
  | inr h ↦ rw h refl
]

threads-begin_wait :
    (s : Threading) (id : Bytes) → is_empty (begin_wait s id).threads ≡ is_empty s.threads
unfolding begin_wait
threads-begin_wait s id = elim (Bool-cases (has id s.about_to_wait)) [
  | inl h ↦ rw h refl
  | inr h ↦ rw h refl
]

not_alone :
    (id : Bytes) (threads : List (Bytes × Bytes))
    → is_some (lookup id threads) ≡ true
    → is_empty threads ≡ false
not_alone id [] h = cc
not_alone id (t ∷ ts) h = refl

-- A reset goes on while there are threads.
resetting-end_reset :
    (s : Threading) → is_empty s.threads ≡ false → is_resetting (end_reset s).0 ≡ is_resetting s
unfolding end_reset
resetting-end_reset s h = rw h refl

missed : (x id : Bytes) (xs : List Bytes) → list_eq x id ≡ false → has id (x ∷ xs) ≡ has id xs
missed x id xs q = rw q refl

has-neither :
    (id : Bytes) (xs ys : List Bytes)
    → has id xs ≡ false
    → has id ys ≡ false
    → has id (xs ++ ys) ≡ false
has-neither id [] ys h k = k
has-neither id (x ∷ xs) ys h k = elim (Bool-cases (list_eq x id)) [
  | inl q ↦ absurd (ground (arith, h, q))
  | inr q ↦ rw q (has-neither id xs ys (sym (missed x id xs q) ∙ h) k)
]

-- A message to a receiver that does not wait is queued, and nothing else.
send_message-unheard :
    (s : Threading) (id m : Bytes)
    → is_resetting s ≡ false
    → has id s.waiting ≡ false
    → (send_message s id m).0 ≡ record s { queues = insert id (queue id s ++ (m ∷ [])) s.queues }
unfolding send_message
send_message-unheard s id m r w = rw (r, w) refl

begin_reset_running :
    (s : Threading)
    → is_resetting s ≡ false
    → (begin_reset caller s).0 ≡ record s {
      reset_started = some caller;
      waiting = [];
      woken = s.waiting ++ s.woken;
      finished_threads = [];
    }
unfolding begin_reset
begin_reset_running s r = rw r refl

-- A message, or a reset, that comes between the moment when receiveMessage gives up its lock and the
-- moment when it begins to wait does not wake it: it sleeps although a message is queued, or
-- although the reset has begun, which does not come to its end because the thread of the receiver is
-- there. Nobody resets at the start, the thread runs, and the receiver does not wait yet.
pub lost_wakeup :
    (s : Threading) (id m : Bytes)
    → has_thread id s ≡ true
    → is_resetting s ≡ false
    → has id s.about_to_wait ≡ true
    → has id s.waiting ≡ false
    → has id s.woken ≡ false
    → let t = begin_wait (send_message s id m).0 id in
      let u = begin_wait (begin_reset caller s).0 id in
      (Sleeps id t × (is_empty (queue id t) ≡ false))
      × (Sleeps id u × (is_resetting (end_reset u).0 ≡ true))
lost_wakeup s id m runs r h w k =
    let sent = (send_message s id m).0 in
    let reset = (begin_reset caller s).0 in
    let after = send_message-unheard s id m r w in
    let down = begin_reset_running s r in
    (
      (
        begin_wait-Sleeps sent id (ap (λ t. has id t.about_to_wait) after ∙ h)
            (ap (λ t. has id t.woken) after ∙ k),
        ap is_empty (
              queue-begin_wait sent id id
              ∙ ap (queue id) after
              ∙ queue-insert s id (queue id s ++ (m ∷ [])))
            ∙ append_one (queue id s) m,
      ),
      (
        begin_wait-Sleeps reset id (ap (λ t. has id t.about_to_wait) down ∙ h)
            (ap (λ t. has id t.woken) down ∙ has-neither id s.waiting s.woken w k),
        resetting-end_reset (begin_wait reset id) (
              threads-begin_wait reset id
              ∙ ap (λ t. is_empty t.threads) down
              ∙ not_alone id s.threads runs)
            ∙ resetting-begin_wait reset id
            ∙ ap is_resetting down,
      ),
    )
