-- ===== src/Script/Threading/Messages.antt =====
-- Messages come in the order in which they were sent.
use trik_runtime.Prelude.{
  ℕ, zero, suc, ◌≡◌, refl, ap, ap₂, list_eq→eq, ◌∙◌, sym, Bool, true, false, List, [], ◌∷◌, ◌++◌,
  append-nil, append_assoc, if◌then◌else◌, list_eq, list_eq_refl, Bool-cases, inl, inr, length,
}
use trik_runtime.Prelude.Maps.{insert, lookup-insert}
use trik_runtime.Prelude.Sets.{has}
use trik_runtime.Text.{Bytes, bytes_eq}
use trik_runtime.Script.Threading.{
  Threading, Received, message, is_resetting, send_message, receive_message, queue, messages,
  wake_one,
}

unfoldable pub send_all : Threading → List (Bytes × Bytes) → Threading
send_all s [] = s
send_all s ((id, m) ∷ rest) = send_all (send_message s id m).0 rest

abbrev pub sent_to : Bytes → List (Bytes × Bytes) → List Bytes
sent_to k [] = []
sent_to k ((id, m) ∷ rest) = let more = sent_to k rest in if list_eq id k then m ∷ more else more

-- The answers of receiveMessage, called n times.
unfoldable pub receive_all : Threading → Bytes → Bool → ℕ → List Received
receive_all s id wait zero = []
receive_all s id wait (suc n) =
    let (t, r) = receive_message s id wait in r ∷ receive_all t id wait n

abbrev pub as_messages : List Bytes → List Received
as_messages [] = []
as_messages (m ∷ ms) = message m ∷ as_messages ms

wake_one-queue : (s : Threading) (id k : Bytes) → queue k (wake_one id s) ≡ queue k s
wake_one-queue s id k = elim (Bool-cases (has id s.waiting)) [
  | inl h ↦ rw h refl
  | inr h ↦ rw h refl
]

wake_one-resetting : (s : Threading) (id : Bytes) → is_resetting (wake_one id s) ≡ is_resetting s
wake_one-resetting s id = elim (Bool-cases (has id s.waiting)) [
  | inl h ↦ rw h refl
  | inr h ↦ rw h refl
]

queue-insert :
    (s : Threading) (id k : Bytes) (ms : List Bytes)
    → queue k (record s { queues = insert id ms s.queues })
      ≡ (if list_eq id k then ms else queue k s)
queue-insert s id k ms = elim (Bool-cases (list_eq id k)) [
  | inl q ↦ ap messages (lookup-insert id k ms s.queues) ∙ rw q refl
  | inr q ↦ ap messages (lookup-insert id k ms s.queues) ∙ rw q refl
]

own_queue :
    (k : Bytes) (s : Threading) (id m : Bytes)
    → (if list_eq id k then queue id s ++ (m ∷ []) else queue k s)
      ≡ (if list_eq id k then queue k s ++ (m ∷ []) else queue k s)
own_queue k s id m = elim (Bool-cases (list_eq id k)) [
  | inl q ↦ rw q (ap (λ x. queue x s ++ (m ∷ [])) (list_eq→eq id k q))
  | inr q ↦ rw q refl
]

queue-send_message :
    (k : Bytes) (s : Threading) (id m : Bytes)
    → is_resetting s ≡ false
    → queue k (send_message s id m).0 ≡ (if list_eq id k then queue k s ++ (m ∷ []) else queue k s)
unfolding send_message
queue-send_message k s id m r = rw r (
    wake_one-queue (record s { queues = insert id (queue id s ++ (m ∷ [])) s.queues }) id k
    ∙ queue-insert s id k (queue id s ++ (m ∷ []))
    ∙ own_queue k s id m)

send_message-resetting :
    (s : Threading) (id m : Bytes)
    → is_resetting s ≡ false
    → is_resetting (send_message s id m).0 ≡ false
unfolding send_message
send_message-resetting s id m r =
    rw r (
      wake_one-resetting (record s { queues = insert id (queue id s ++ (m ∷ [])) s.queues }) id ∙ r)

sorted :
    (b : Bool) (old : List Bytes) (m : Bytes) (more : List Bytes)
    → (if b then old ++ (m ∷ []) else old) ++ more ≡ old ++ (if b then m ∷ more else more)
sorted true old m more = append_assoc old (m ∷ []) more
sorted false old m more = refl

queue-send_all :
    (k : Bytes) (s : Threading) (sends : List (Bytes × Bytes))
    → is_resetting s ≡ false
    → queue k (send_all s sends) ≡ queue k s ++ sent_to k sends
unfolding send_all send_message
queue-send_all k s [] r = sym (append-nil (queue k s))
queue-send_all k s ((id, m) ∷ rest) r =
    queue-send_all k (send_message s id m).0 rest (send_message-resetting s id m r)
    ∙ ap (λ q. q ++ sent_to k rest) (queue-send_message k s id m r)
    ∙ sorted (list_eq id k) (queue k s) m (sent_to k rest)

receive_message-queued :
    (s : Threading) (id : Bytes) (wait : Bool) (m : Bytes) (ms : List Bytes)
    → is_resetting s ≡ false
    → queue id s ≡ m ∷ ms
    → receive_message s id wait ≡ (record s { queues = insert id ms s.queues }, message m)
unfolding receive_message
receive_message-queued s id wait m ms r e = rw (r, e) refl

receive_all-queue :
    (ms : List Bytes) (s : Threading) (id : Bytes) (wait : Bool)
    → is_resetting s ≡ false
    → queue id s ≡ ms
    → receive_all s id wait (length ms) ≡ as_messages ms
unfolding receive_all receive_message
receive_all-queue [] s id wait r e = refl
receive_all-queue (m ∷ ms) s id wait r e =
    let first = receive_message-queued s id wait m ms r e in
    ap₂ ◌∷◌ (ap (λ p. p.1) first) (
      receive_all-queue ms (receive_message s id wait).0 id wait
        (ap (λ p. is_resetting p.0) first ∙ r)
        (ap (λ p. queue id p.0) first ∙ queue-insert s id id ms ∙ rw (list_eq_refl id) refl))

send_all-resetting :
    (s : Threading) (sends : List (Bytes × Bytes))
    → is_resetting s ≡ false
    → is_resetting (send_all s sends) ≡ false
unfolding send_all
send_all-resetting s [] r = r
send_all-resetting s ((id, m) ∷ rest) r =
    send_all-resetting (send_message s id m).0 rest (send_message-resetting s id m r)

-- What threads send to one thread, mixed with what they send to others, is received by it whole and
-- in order, after what its queue had before; nobody resets, and it receives as often as messages
-- are there.
pub receive_all-send_all :
    (s : Threading) (sends : List (Bytes × Bytes)) (k : Bytes) (wait : Bool)
    → is_resetting s ≡ false
    → let ms = queue k s ++ sent_to k sends in
      receive_all (send_all s sends) k wait (length ms) ≡ as_messages ms
receive_all-send_all s sends k wait r =
    receive_all-queue (queue k s ++ sent_to k sends) (send_all s sends) k wait
      (send_all-resetting s sends r) (queue-send_all k s sends r)
