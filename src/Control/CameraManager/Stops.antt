-- ===== src/Control/CameraManager/Stops.antt =====
-- trikControl/src/cameraManager.cpp: stopStreaming and close keep the buffers in their places.
use trik_runtime.Prelude.{
  ℕ, ◌+◌, ◌-◌, ◌≤◌, ◌≡◌, refl, ap, ◌∙◌, arith, Bool, true, false, Option, none, some, [], ◌∷◌, ◌++◌,
  map, ltb, leb, ◌==◌, ==_iff, Bool-cases, inl, inr,
}
use trik_runtime.Hal.VideoDevice
use trik_runtime.Hal.VideoDevice.{VideoDevice}
use trik_runtime.Control.CameraManager.{
  Token, Entry, device, Step, drop_latest, forget, with_refs, buffers_per_region,
}
use trik_runtime.Control.CameraManager.Stopping.{stop_streaming, stop_stream, tear_down_port}
use trik_runtime.Control.CameraManager.Claims.{with_refs-at}
use trik_runtime.Control.CameraManager.Frames.{Port, AllIdle, after_actions}
use trik_runtime.Control.CameraManager.States.{
  Inv, closed, parked, flowing, IsFree, Balanced, refs_of, bit, sign, parked_entry, streaming_entry,
  port_of, port_after,
}

-- A call succeeds and leaves the port in order.
pub record Succeeds (w : Bool) (o : Option Step) (held posted : ℕ → ℕ) (q : ℕ → Bool) : Type 0 where
  pub step : Step
  pub result : o ≡ some step
  pub in_order : Inv w (port_after step held posted q)

pub succeeds :
    {w : Bool} {o : Option Step} {held posted : ℕ → ℕ} {q : ℕ → Bool}
    → (s : Step) → o ≡ some s
    → Inv w (port_after s held posted q)
    → Succeeds w o held posted q
succeeds s r k = record { step = s; result = r; in_order = k }

forget-refs : (tokens : ℕ → Token) (i : ℕ) → refs_of (forget tokens) i ≡ refs_of tokens i
forget-refs tokens i = elim (Bool-cases (ltb i buffers_per_region)) [
  | inl h ↦ rw (refs_of, h) refl
  | inr h ↦ rw (refs_of, h) refl
]

-- The manager's claim is the last one if no client has a frame.
abbrev pub unclaimed : Option ℕ → (ℕ → Token) → ℕ → Token
unclaimed none tokens = forget tokens
unclaimed (some j) tokens = forget (with_refs j ((tokens j).refs - 1) tokens)

pub unclaimed-IsFree :
    {w : Bool} (n : ℕ) (latest : Option ℕ) (tokens : ℕ → Token) (held posted : ℕ → ℕ) (q : ℕ → Bool)
    → ((i : ℕ) → Balanced w n latest (refs_of tokens) held posted q i)
    → AllIdle held posted
    → (i : ℕ) → IsFree (unclaimed latest tokens) held posted i
unclaimed-IsFree n none tokens held posted q b idle i = record {
  no_refs = forget-refs tokens i ∙ omega (arith, (b i).counts, (idle i).0);
  not_held = (idle i).0;
  not_posted = (idle i).1;
}
unclaimed-IsFree n (some j) tokens held posted q b idle i = record {
  no_refs =
      forget-refs (with_refs j ((tokens j).refs - 1) tokens) i
      ∙ with_refs-at tokens j ((tokens j).refs - 1) i
      ∙ elim (Bool-cases (j == i)) [
        | inl h ↦
            let total = (b j).counts ∙ ap (λ x. bit x + held j) ((==_iff j j).1 refl) in
            rw h (omega (arith, (idle j).0))
        | inr h ↦
            let total = (b i).counts ∙ ap (λ x. bit x + held i) h in
            rw h (omega (arith, (idle i).0))
      ];
  not_held = (idle i).0;
  not_posted = (idle i).1;
}

stop_stream-flowing :
    (off : Bool) (e : Entry) (d : VideoDevice) (latest : Option ℕ) (tokens : ℕ → Token)
    → stop_stream off (streaming_entry e d latest tokens)
      ≡ some (
        parked_entry (record e { tokens = unclaimed latest tokens }) d,
        map device (VideoDevice.stop_actions off),
      )
unfolding drop_latest VideoDevice.stop_streaming
stop_stream-flowing off e d none tokens = refl
stop_stream-flowing off e d (some j) tokens = refl

-- What the driver has after STREAMOFF, which may fail.
abbrev pub left : Bool → (ℕ → Bool) → ℕ → Bool
left off q = after_actions (map device (VideoDevice.stop_actions off)) q

pub left-beyond :
    (off : Bool) (n : ℕ) (q : ℕ → Bool)
    → ((i : ℕ) → n ≤ i → q i ≡ false)
    → (i : ℕ) → n ≤ i
    → left off q i ≡ false
left-beyond true n q f i h = refl
left-beyond false n q f i h = f i h

not_queued : (p r : ℕ) (q : Bool) → p + bit q + sign r ≤ 0 → q ≡ false
not_queued p r true h = ground arith
not_queued p r false h = refl

pub queued-below :
    {w : Bool} (n : ℕ) (latest : Option ℕ) (refs held posted : ℕ → ℕ) (q : ℕ → Bool)
    → ((i : ℕ) → Balanced w n latest refs held posted q i)
    → (i : ℕ) → n ≤ i
    → q i ≡ false
queued-below n latest refs held posted q b i h =
    let far : ltb i n ≡ false = ground arith in
    not_queued (posted i) (refs i) (q i) (omega (arith, (b i).one_place.below, ap bit far))

-- A close leaves the driver nothing.
emptied :
    (off : Bool) (q : ℕ → Bool) (i : ℕ)
    → after_actions
        (map device (VideoDevice.stop_actions off ++ VideoDevice.frees ∷ VideoDevice.closes ∷ []))
        q
        i
      ≡ false
emptied true q i = refl
emptied false q i = refl

-- A stream stops.

stopped :
    {w : Bool} (off : Bool) (e : Entry) (d : VideoDevice) (latest : Option ℕ) (tokens : ℕ → Token)
    (held posted : ℕ → ℕ) (q : ℕ → Bool)
    → d.buffers ≤ 3
    → ((i : ℕ) → Balanced w d.buffers latest (refs_of tokens) held posted q i)
    → AllIdle held posted
    → Inv w (
        port_of
          (parked_entry (record e { tokens = unclaimed latest tokens }) d)
          held
          posted
          (left off q))
stopped off e d latest tokens held posted q n b idle =
    parked (record e { tokens = unclaimed latest tokens }) d held posted (left off q) n
      (unclaimed-IsFree d.buffers latest tokens held posted q b idle)
      (left-beyond off d.buffers q (queued-below d.buffers latest (refs_of tokens) held posted q b))

forgotten :
    (tokens : ℕ → Token) (held posted : ℕ → ℕ) (i : ℕ)
    → IsFree tokens held posted i
    → IsFree (forget tokens) held posted i
forgotten tokens held posted i f = record {
  no_refs = forget-refs tokens i ∙ f.no_refs;
  not_held = f.not_held;
  not_posted = f.not_posted;
}

-- Whatever the state of a port, stopStreaming succeeds.
pub stop_streaming-Succeeds :
    {w : Bool} (off : Bool) (p : Port)
    → Inv w p
    → (p.entry.ref_count ≤ 1 → AllIdle p.held p.posted)
    → Succeeds w (stop_streaming off p.entry) p.held p.posted p.queued
unfolding stop_streaming drop_latest VideoDevice.stop_streaming
stop_streaming-Succeeds off p (closed e held posted q f b c) idle =
    succeeds _ refl (closed e held posted q f b c)
stop_streaming-Succeeds off p (parked e d held posted q n f b) idle =
    elim (Bool-cases (leb e.ref_count 1)) [
      | inl h ↦
          succeeds (parked_entry (record e { stop_latched = true }) d, []) (rw h refl)
            (parked (record e { stop_latched = true }) d held posted q n f b)
      | inr h ↦
          succeeds (parked_entry (record e { stop_latched = true }) d, []) (rw h refl)
            (parked (record e { stop_latched = true }) d held posted q n f b)
    ]
stop_streaming-Succeeds off p (flowing e d latest tokens held posted q n b) idle =
    let l = record e { stop_latched = true } in
    elim (Bool-cases (leb e.ref_count 1)) [
      | inl h ↦
          succeeds
            (
              parked_entry (record l { tokens = unclaimed latest tokens }) d,
              map device (VideoDevice.stop_actions off),
            )
            (rw h (stop_stream-flowing off l d latest tokens))
            (stopped off l d latest tokens held posted q n b (idle (ground arith)))
      | inr h ↦
          succeeds (streaming_entry l d latest tokens, []) (rw h refl)
            (flowing l d latest tokens held posted q n b)
    ]

pub tear_down_port-Inv :
    {w : Bool} (off : Bool) (p : Port)
    → Inv w p
    → AllIdle p.held p.posted
    → Inv w (record p {
      entry = (tear_down_port off p.entry).0;
      queued = after_actions (tear_down_port off p.entry).1 p.queued;
    })
unfolding tear_down_port drop_latest VideoDevice.stop_streaming VideoDevice.close
    VideoDevice.free_buffers
tear_down_port-Inv off p (closed e held posted q f b c) idle =
    closed (record e { ref_count = 0; stop_latched = false; tokens = forget e.tokens }) held posted
      q (λ i. forgotten e.tokens held posted i (f i)) b refl
tear_down_port-Inv off p (parked e d held posted q n f b) idle =
    closed (record e { ref_count = 0; stop_latched = false; tokens = forget e.tokens }) held posted
      _ (λ i. forgotten e.tokens held posted i (f i)) (λ i. refl) refl
tear_down_port-Inv off p (flowing e d none tokens held posted q n b) idle =
    closed (record e { ref_count = 0; stop_latched = false; tokens = unclaimed none tokens }) held
      posted _ (unclaimed-IsFree d.buffers none tokens held posted q b idle) (emptied off q) refl
tear_down_port-Inv off p (flowing e d (some j) tokens held posted q n b) idle =
    closed (record e { ref_count = 0; stop_latched = false; tokens = unclaimed (some j) tokens })
      held posted _ (unclaimed-IsFree d.buffers (some j) tokens held posted q b idle)
      (emptied off q) refl
