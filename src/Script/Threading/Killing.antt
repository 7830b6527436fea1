-- ===== src/Script/Threading/Killing.antt =====
-- A thread that is killed before it starts.
use trik_runtime.Prelude.{
  ◌≡◌, refl, ◌∙◌, sym, subst, list_eq→eq, Bool, true, false, Option, none, some, List, [], ◌∷◌,
  if◌then◌else◌, ◌&&◌, not, is_empty, list_eq, arith, Bool-cases, inl, inr, All,
}
use trik_runtime.Prelude.Maps.{lookup, remove}
use trik_runtime.Prelude.Sets.{
  has, with_element, has-with_element, has-with_element_self, has-without,
}
use trik_runtime.Text.{Bytes, bytes_eq}
use trik_runtime.Script.Threading.{
  Threading, Waiter, caller, finishing, has_thread, is_resetting, start_thread, begin_reset,
  end_reset, end_by, thread_finished, error_of, fails, kill_thread, join_returns,
}
use trik_runtime.Script.Threading.Disjoint.{
  Call, starts_main, resets, ends, starts_thread, finishes, kills, has_failed, step, run,
}
use trik_runtime.Script.Threading.Places.{is_some-lookup-insert, is_some-lookup-remove}

-- Calls that neither start the thread nor the script anew.
abbrev pub leaves : Bytes → Call → Bool
leaves id starts_main = false
leaves id (starts_thread j) = not (list_eq j id)
leaves id _ = true

-- An id that is kept from starting and does not run.
abbrev Kept : Bytes → Threading → Type 0
Kept id s = (has_thread id s ≡ false) × (has id s.prevent_from_start ≡ true)

either : (b : Bool) → (if b then false else false) ≡ false
either true = refl
either false = refl

both : (b : Bool) → (if b then true else true) ≡ true
both true = refl
both false = refl

start_thread-Kept :
    (id j : Bytes) (s : Threading) → list_eq j id ≡ false → Kept id s → Kept id (start_thread s j).0
unfolding start_thread
start_thread-Kept id j s n (t, p) = elim (Bool-cases (is_resetting s)) [
  | inl q ↦ rw q (t, p)
  | inr q ↦ elim (Bool-cases (has_thread j s)) [
    | inl a ↦ rw (q, a) (t, p)
    | inr a ↦ elim (Bool-cases (has j s.prevent_from_start)) [
      | inl b ↦ rw (q, a, b) (t, has-without id j s.prevent_from_start ∙ rw n p)
      | inr b ↦ rw (q, a, b) (is_some-lookup-insert id j [] s.threads ∙ rw n t, p)
    ]
  ]
]

begin_reset-Kept :
    (id : Bytes) (who : Waiter) (s : Threading) → Kept id s → Kept id (begin_reset who s).0
unfolding begin_reset
begin_reset-Kept id who s k = elim (Bool-cases (is_resetting s)) [ inl q ↦ rw q k | inr q ↦ rw q k ]

end_by-Kept : (id : Bytes) (s : Threading) (o : Option Waiter) → Kept id s → Kept id (end_by s o).0
end_by-Kept id s none k = k
end_by-Kept id s (some who) k = k

end_reset-Kept : (id : Bytes) (s : Threading) → Kept id s → Kept id (end_reset s).0
unfolding end_reset
end_reset-Kept id s k = elim (Bool-cases (is_empty s.threads)) [
  | inl q ↦ rw q (end_by-Kept id s s.reset_started k)
  | inr q ↦ rw q k
]

thread_finished-Kept : (id j : Bytes) (s : Threading) → Kept id s → Kept id (thread_finished s j).0
unfolding thread_finished
thread_finished-Kept id j s (t, p) =
    let e = error_of (lookup j s.threads) in
    let u = record s {
      error_message = if not (is_empty e) && is_empty s.error_message then e else s.error_message;
      threads = remove j s.threads;
      finished_threads = with_element j s.finished_threads;
    } in
    let gone : has_thread id u ≡ false =
      is_some-lookup-remove id j s.threads ∙ rw t (either (list_eq j id)) in
    elim (Bool-cases (not (is_empty u.error_message) && not (is_resetting u))) [
      | inl q ↦ rw q (begin_reset-Kept id finishing u (gone, p))
      | inr q ↦ rw q (gone, p)
    ]

kill_thread-Kept : (id j : Bytes) (s : Threading) → Kept id s → Kept id (kill_thread s j).0
unfolding kill_thread
kill_thread-Kept id j s (t, p) = elim (Bool-cases (is_resetting s)) [
  | inl q ↦ rw q (t, p)
  | inr q ↦ elim (Bool-cases (has_thread j s)) [
    | inl a ↦ rw (q, a) (t, p)
    | inr a ↦ elim (Bool-cases (has j s.finished_threads)) [
      | inl f ↦ rw (q, a, f) (t, p)
      | inr f ↦
          rw (q, a, f) (t, has-with_element id j s.prevent_from_start ∙ rw p (both (list_eq j id)))
    ]
  ]
]

fails-Kept : (id j e : Bytes) (s : Threading) → Kept id s → Kept id (fails s j e).0
unfolding fails
fails-Kept id j e s (t, p) = elim (Bool-cases (list_eq j id)) [
  | inl q ↦ rw (subst (λ x. has_thread x s ≡ false) (sym (list_eq→eq j id q)) t) (t, p)
  | inr q ↦ elim (Bool-cases (has_thread j s)) [
    | inl a ↦ rw a (is_some-lookup-insert id j e s.threads ∙ rw q t, p)
    | inr a ↦ rw a (t, p)
  ]
]

step-Kept :
    (id : Bytes) (s : Threading) (c : Call) → leaves id c ≡ true → Kept id s → Kept id (step s c)
unfolding step
step-Kept id s starts_main l k = ground arith
step-Kept id s resets l k = begin_reset-Kept id caller s k
step-Kept id s ends l k = end_reset-Kept id s k
step-Kept id s (starts_thread j) l k = start_thread-Kept id j s (ground arith) k
step-Kept id s (kills j) l k = kill_thread-Kept id j s k
step-Kept id s (has_failed j e) l k = fails-Kept id j e s k
step-Kept id s (finishes j) l k = elim (Bool-cases (has_thread j s)) [
  | inl t ↦ rw t (thread_finished-Kept id j s k)
  | inr t ↦ rw t k
]

run-Kept :
    (id : Bytes) (s : Threading) (cs : List Call)
    → All (λ c. leaves id c ≡ true) cs
    → Kept id s
    → Kept id (run s cs)
unfolding run
run-Kept id s [] l k = k
run-Kept id s (c ∷ cs) l k = run-Kept id (step s c) cs l.1 (step-Kept id s c l.0 k)

kill_thread-Kept_self :
    (id : Bytes) (s : Threading)
    → is_resetting s ≡ false
    → has_thread id s ≡ false
    → has id s.finished_threads ≡ false
    → Kept id (kill_thread s id).0
unfolding kill_thread
kill_thread-Kept_self id s r t f = rw (r, t, f) (t, has-with_element_self id s.prevent_from_start)

start_thread_held :
    (id : Bytes) (s : Threading)
    → Kept id s
    → is_resetting s ≡ false
    → let (t, out) = start_thread s id in
      (out ≡ []) × (has_thread id t ≡ false) × (join_returns t id ≡ true)
unfolding start_thread join_returns
start_thread_held id s (t, p) r =
    rw (r, t, p) (refl, t, rw (has-with_element_self id s.finished_threads) refl)

-- A thread that is killed before it starts never runs: whatever happens then, when it is started it
-- is only noted as finished, and whoever joins it returns at once. It neither runs nor has finished
-- when it is killed, it is not started and the script is not started anew in between, and nobody
-- resets at the two moments.
pub start_thread-kill_thread :
    (id : Bytes) (s : Threading) (cs : List Call)
    → is_resetting s ≡ false
    → has_thread id s ≡ false
    → has id s.finished_threads ≡ false
    → All (λ c. leaves id c ≡ true) cs
    → is_resetting (run (kill_thread s id).0 cs) ≡ false
    → let (t, out) = start_thread (run (kill_thread s id).0 cs) id in
      (out ≡ []) × (has_thread id t ≡ false) × (join_returns t id ≡ true)
start_thread-kill_thread id s cs r t f l q =
    start_thread_held id (run (kill_thread s id).0 cs)
      (run-Kept id (kill_thread s id).0 cs l (kill_thread-Kept_self id s r t f)) q
