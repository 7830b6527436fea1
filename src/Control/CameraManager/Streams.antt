-- ===== src/Control/CameraManager/Streams.antt =====
-- trikControl/src/cameraManager.cpp: what the start of a stream does to the buffers.
use trik_runtime.Prelude.{
  ℕ, zero, suc, ◌+◌, ◌<◌, ◌≤◌, ◌≡◌, refl, sym, ◌∙◌, arith, Bool, true, false, List, [], ◌∷◌, ◌++◌,
  ltb, ◌==◌, ltb→lt, put, Bool-cases, inl, inr, map,
}
use trik_runtime.Hal.VideoDevice.{queue_from}
use trik_runtime.Control.CameraManager.{Action, device, inits_sensor, disconnects}
use trik_runtime.Control.CameraManager.Frames.{after_actions, after_device}

-- The loop of startStreaming touches nothing beyond the buffers.
pub beyond :
    (a : ℕ → Bool) (i count : ℕ) (q : ℕ → Bool) (j : ℕ)
    → i + count ≤ j
    → after_actions (map device (queue_from a i count).1) q j ≡ q j
beyond a i zero q j h = refl
beyond a i (suc count) q j h = elim (Bool-cases (a i)) [
  | inl e ↦
      let differ : i == j ≡ false = ground arith in
      rw e (beyond a (suc i) count (put i true q) j (omega arith) ∙ rw differ refl)
  | inr e ↦ rw e refl
]

pub before :
    (a : ℕ → Bool) (i count : ℕ) (q : ℕ → Bool) (j : ℕ)
    → j < i
    → after_actions (map device (queue_from a i count).1) q j ≡ q j
before a i zero q j h = refl
before a i (suc count) q j h = elim (Bool-cases (a i)) [
  | inl e ↦
      let differ : i == j ≡ false = ground arith in
      rw e (before a (suc i) count (put i true q) j (omega arith) ∙ rw differ refl)
  | inr e ↦ rw e refl
]

-- If it succeeds, the driver has each of them.
pub all_queued :
    (a : ℕ → Bool) (i count : ℕ) (q : ℕ → Bool) (j : ℕ)
    → (queue_from a i count).0 ≡ true
    → i ≤ j
    → j < i + count
    → after_actions (map device (queue_from a i count).1) q j ≡ true
all_queued a i zero q j h k l = ground arith
all_queued a i (suc count) q j h k l = elim (Bool-cases (a i)) [
  | inl e ↦
      let rest : (queue_from a i (suc count)).0 ≡ (queue_from a (suc i) count).0 = rw e refl in
      elim (Bool-cases (i == j)) [
        | inl s ↦ rw e (before a (suc i) count (put i true q) j (ground arith) ∙ rw s refl)
        | inr s ↦ rw e (
            all_queued a (suc i) count (put i true q) j (sym rest ∙ h) (ground arith) (omega arith))
      ]
  | inr e ↦ let none : (queue_from a i (suc count)).0 ≡ false = rw e refl in cc
]

-- What a stream leaves in the queue of the driver, if it starts, and if it does not.
pub start_queue :
    (a : ℕ → Bool) (n : ℕ) (q : ℕ → Bool)
    → (queue_from a 0 n).0 ≡ true
    → ((j : ℕ) → n ≤ j → q j ≡ false)
    → (j : ℕ) → after_actions (map device (queue_from a 0 n).1) q j ≡ ltb j n
start_queue a n q h f j = elim (Bool-cases (ltb j n)) [
  | inl e ↦ all_queued a 0 n q j h (omega arith) (omega (arith, ltb→lt j n e)) ∙ sym e
  | inr e ↦ let far : n ≤ j = ground arith in beyond a 0 n q j (omega arith) ∙ f j far ∙ sym e
]

pub after-append :
    (a b : List Action) (q : ℕ → Bool)
    → after_actions (a ++ b) q ≡ after_actions b (after_actions a q)
after-append [] b q = refl
after-append (device x ∷ a) b q = after-append a b (after_device x q)
after-append (inits_sensor ∷ a) b q = after-append a b q
after-append (disconnects ∷ a) b q = after-append a b q
