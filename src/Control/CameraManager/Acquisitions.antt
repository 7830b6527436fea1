-- ===== src/Control/CameraManager/Acquisitions.antt =====
-- trikControl/src/cameraManager.cpp: acquire keeps the buffers in their places.
use trik_runtime.Prelude.{
  ℕ, suc, ◌+◌, ◌≤◌, ◌≡◌, refl, ap, ap₂, subst, sym, ◌∙◌, arith, Bool, true, false, none, some, List,
  [], ◌∷◌, ◌++◌, ltb, Bool-cases, inl, inr, map,
}
use trik_runtime.Hal.VideoDevice
use trik_runtime.Hal.VideoDevice.{VideoDevice, queue_from}
use trik_runtime.Control.CameraManager.{
  Entry, Answers, Action, device, Step, acquire, acquire_open, open_device_locked, open_new,
  acquire_opened,
}
use trik_runtime.Control.CameraManager.Frames.{after_actions, after_device}
use trik_runtime.Control.CameraManager.States.{
  Inv, closed, parked, flowing, IsFree, refs_of, fits, bit, sign, closed_entry, parked_entry,
  port_after,
}
use trik_runtime.Control.CameraManager.Streams.{start_queue, beyond, after-append}
use trik_runtime.Control.CameraManager.Devices.{Opened}
use trik_runtime.Control.CameraManager.Openings.{Opening, fails, opens, open_new-Opening}

after_map :
    (x y : List VideoDevice.Action) (q : ℕ → Bool)
    → after_actions (map device (x ++ y)) q
      ≡ after_actions (map device y) (after_actions (map device x) q)
after_map [] y q = refl
after_map (a ∷ x) y q = after_map x y (after_device a q)

after-map :
    (pre : List Action) (x y : List VideoDevice.Action) (q : ℕ → Bool) (j : ℕ)
    → after_actions (pre ++ map device (x ++ y)) q j
      ≡ after_actions (map device y) (after_actions (map device x) (after_actions pre q)) j
after-map pre x y q j =
    ap (λ f. f j) (after-append pre (map device (x ++ y)) q ∙ after_map x y (after_actions pre q))

fresh : (p r : ℕ) (q b : Bool) → p ≡ 0 → r ≡ 0 → q ≡ b → p + bit q + sign r ≡ bit b
fresh p r q b h k l = rw (h, k, l) (omega arith)

-- A camera that is open starts to stream, or does not.
started :
    {w : Bool} (a : Answers) (e : Entry) (d : VideoDevice) (pre : List Action) (held posted : ℕ → ℕ)
    (q : ℕ → Bool)
    → d.buffers ≤ 3
    → ((i : ℕ) → IsFree e.tokens held posted i)
    → ((j : ℕ) → d.buffers ≤ j → after_actions pre q j ≡ false)
    → Inv w (port_after (acquire_open a (parked_entry e d, pre)) held posted q)
unfolding VideoDevice.start_streaming
started a e d pre held posted q n f b =
    let loop = queue_from a.accepts 0 d.buffers in
    let q1 = after_actions pre q in
    let far : (j : ℕ) → d.buffers ≤ j → after_actions (pre ++ map device loop.1) q j ≡ false =
      λ j l.
        ap (λ g. g j) (after-append pre (map device loop.1) q)
        ∙ beyond a.accepts 0 d.buffers q1 j (omega (arith, l))
        ∙ b j l in
    elim (Bool-cases loop.0) [
      | inl h ↦ elim (Bool-cases a.streams) [
        | inl s ↦
            rw (h, s)
              (flowing (record e { ref_count = suc e.ref_count }) d none e.tokens held posted _ n
                (λ j. record {
                  counts = omega (arith, (f j).no_refs, (f j).not_held);
                  one_place = fits (
                      fresh (posted j) (refs_of e.tokens j) _ (ltb j d.buffers) (f j).not_posted
                        (f j).no_refs
                        (after-map pre loop.1 (VideoDevice.streams_on ∷ []) q j
                          ∙ start_queue a.accepts d.buffers q1 h b j));
                }))
        | inr s ↦ rw (h, s) (parked e d held posted _ n f far)
      ]
      | inr h ↦ rw h (parked e d held posted _ n f far)
    ]

same_device : (d : VideoDevice) → Opened d → record d { is_streaming = false; is_open = true } ≡ d
same_device d o =
    ap₂ (λ s x. record d { is_streaming = s; is_open = x }) (sym o.silent) (sym o.opened)

-- acquire of a port whose camera is closed.
opened-closed :
    {w : Bool} (a : Answers) (e : Entry) (held posted : ℕ → ℕ) (q : ℕ → Bool) (r : Bool × Step)
    → ((i : ℕ) → IsFree e.tokens held posted i)
    → ((j : ℕ) → q j ≡ false)
    → e.ref_count ≡ 0
    → Opening (closed_entry e) r
    → Inv w (port_after (acquire_opened a r) held posted q)
opened-closed a e held posted q r f b c (fails s actions y) =
    closed (record e { sensor_initialized = s }) held posted _ f (y q b) c
opened-closed {w = w} a e held posted q r f b c (opens s d actions o y) =
    subst
      (λ x. Inv w (
        port_after
          (acquire_opened a (
            true,
            (
              record e {
                dev = some x;
                is_streaming = false;
                latest = none;
                sensor_initialized = s;
              },
              actions,
            ),
          ))
          held posted q))
      (same_device d o)
      (started a (record e { sensor_initialized = s }) d actions held posted q o.few f
        (λ j l. y q b j))

is_opened :
    (a : Answers) (e : Entry)
    → acquire a (closed_entry (record e { is_ready = true }))
      ≡ acquire_opened a (open_new a (closed_entry (record e { is_ready = true })))
unfolding acquire open_device_locked
is_opened a e = refl

is_refused :
    (a : Answers) (e : Entry)
    → acquire a (closed_entry (record e { is_ready = false }))
      ≡ (closed_entry (record e { is_ready = false }), [])
unfolding acquire
is_refused a e = refl

pub acquire-closed :
    {w : Bool} (a : Answers) (e : Entry) (held posted : ℕ → ℕ) (q : ℕ → Bool)
    → ((i : ℕ) → IsFree e.tokens held posted i)
    → ((j : ℕ) → q j ≡ false)
    → e.ref_count ≡ 0
    → Inv w (port_after (acquire a (closed_entry e)) held posted q)
acquire-closed {w = w} a e held posted q f b r =
    let P = λ (s : Step). Inv w (port_after s held posted q) in
    elim (Bool-cases e.is_ready) [
      | inr y ↦
          subst (λ x. P (acquire a (closed_entry (record e { is_ready = x })))) (sym y)
            (subst P (sym (is_refused a e))
              (closed (record e { is_ready = false }) held posted q f b r))
      | inl y ↦
          subst (λ x. P (acquire a (closed_entry (record e { is_ready = x })))) (sym y)
            (subst P (sym (is_opened a e)) (
              opened-closed a (record e { is_ready = true }) held posted q
                (open_new a (closed_entry (record e { is_ready = true }))) f b r
                (open_new-Opening a (closed_entry (record e { is_ready = true })))))
    ]

-- acquire of a port whose camera is open without a stream.
pub acquire-parked :
    {w : Bool} (a : Answers) (e : Entry) (d : VideoDevice) (held posted : ℕ → ℕ) (q : ℕ → Bool)
    → d.buffers ≤ 3
    → ((i : ℕ) → IsFree e.tokens held posted i)
    → ((j : ℕ) → d.buffers ≤ j → q j ≡ false)
    → Inv w (port_after (acquire a (parked_entry e d)) held posted q)
unfolding acquire open_device_locked
acquire-parked a e d held posted q n f b = elim (Bool-cases e.is_ready) [
  | inr y ↦ rw y (parked (record e { is_ready = false }) d held posted q n f b)
  | inl y ↦ rw y (started a (record e { is_ready = true }) d [] held posted q n f b)
]
