-- ===== src/Control/CameraManager/Releases.antt =====
-- trikControl/src/cameraManager.cpp: release keeps the buffers in their places.
use trik_runtime.Prelude.{
  ℕ, zero, suc, ◌≤◌, ◌≡◌, refl, arith, Bool, true, false, Option, none, some, [], ◌∷◌, ◌++◌, map,
  ltb,
}
use trik_runtime.Hal.VideoDevice
use trik_runtime.Hal.VideoDevice.{VideoDevice}
use trik_runtime.Control.CameraManager.{Token, Entry, device, drop_latest}
use trik_runtime.Control.CameraManager.Stopping.{release}
use trik_runtime.Control.CameraManager.Frames.{Port, AllIdle, after_actions}
use trik_runtime.Control.CameraManager.States.{
  Inv, closed, parked, flowing, IsFree, Balanced, refs_of, closed_entry, parked_entry,
  streaming_entry,
}
use trik_runtime.Control.CameraManager.Stops.{
  Succeeds, succeeds, unclaimed, unclaimed-IsFree, left, left-beyond, queued-below,
}

-- A camera that is open without a stream is released by its last client.
last_release :
    {w : Bool} (off : Bool) (e : Entry) (d : VideoDevice) (held posted : ℕ → ℕ) (q : ℕ → Bool)
    (latched : Bool)
    → d.buffers ≤ 3
    → ((i : ℕ) → IsFree e.tokens held posted i)
    → ((i : ℕ) → d.buffers ≤ i → q i ≡ false)
    → Succeeds w
        (release off
          (parked_entry (record e { is_ready = true; ref_count = 1; stop_latched = latched }) d))
        held
        posted
        q
unfolding release VideoDevice.close VideoDevice.stop_streaming VideoDevice.free_buffers
last_release off e d held posted q true n f b = succeeds _ refl (
    parked (record e { is_ready = true; ref_count = 0; stop_latched = true }) d held posted q n f b)
last_release off e d held posted q false n f b = succeeds _ refl (
    closed (record e { is_ready = true; ref_count = 0; stop_latched = false }) held posted _ f
      (λ i. refl) refl)

release-parked :
    {w : Bool} (off : Bool) (e : Entry) (d : VideoDevice) (held posted : ℕ → ℕ) (q : ℕ → Bool)
    (ready : Bool) (count : ℕ)
    → d.buffers ≤ 3
    → ((i : ℕ) → IsFree e.tokens held posted i)
    → ((i : ℕ) → d.buffers ≤ i → q i ≡ false)
    → Succeeds w
        (release off (parked_entry (record e { is_ready = ready; ref_count = count }) d))
        held
        posted
        q
unfolding release
release-parked off e d held posted q false count n f b =
    succeeds _ refl
      (parked (record e { is_ready = false; ref_count = count }) d held posted q n f b)
release-parked off e d held posted q true zero n f b =
    succeeds _ refl (parked (record e { is_ready = true; ref_count = 0 }) d held posted q n f b)
release-parked off e d held posted q true (suc zero) n f b =
    last_release off e d held posted q e.stop_latched n f b
release-parked off e d held posted q true (suc (suc k)) n f b =
    let more : ltb 0 (suc k) ≡ true = ground arith in
    succeeds (parked_entry (record e { is_ready = true; ref_count = suc k }) d, []) (rw more refl)
      (parked (record e { is_ready = true; ref_count = suc k }) d held posted q n f b)

-- The stream stops, and the camera is closed.
emptied :
    (off : Bool) (q : ℕ → Bool) (i : ℕ)
    → after_actions
        (map device (VideoDevice.stop_actions off)
          ++ map device (VideoDevice.frees ∷ VideoDevice.closes ∷ []))
        q
        i
      ≡ false
emptied true q i = refl
emptied false q i = refl

-- The last client of a stream lets go.
last_stream :
    {w : Bool} (off : Bool) (e : Entry) (d : VideoDevice) (latest : Option ℕ) (tokens : ℕ → Token)
    (held posted : ℕ → ℕ) (q : ℕ → Bool) (latched : Bool)
    → d.buffers ≤ 3
    → ((i : ℕ) → IsFree (unclaimed latest tokens) held posted i)
    → ((i : ℕ) → d.buffers ≤ i → q i ≡ false)
    → Succeeds w
        (release off (
          streaming_entry
            (record e { is_ready = true; ref_count = 1; stop_latched = latched })
            d
            latest
            tokens))
        held
        posted
        q
unfolding release drop_latest VideoDevice.close VideoDevice.stop_streaming VideoDevice.free_buffers
last_stream off e d none tokens held posted q true n f b = succeeds _ refl (
    parked
      (record e {
        is_ready = true;
        ref_count = 0;
        stop_latched = true;
        tokens = unclaimed none tokens;
      })
      d held posted (left off q) n f (left-beyond off d.buffers q b))
last_stream off e d none tokens held posted q false n f b = succeeds _ refl (
    closed
      (record e {
        is_ready = true;
        ref_count = 0;
        stop_latched = false;
        tokens = unclaimed none tokens;
      })
      held posted _ f (emptied off q) refl)
last_stream off e d (some j) tokens held posted q true n f b = succeeds _ refl (
    parked
      (record e {
        is_ready = true;
        ref_count = 0;
        stop_latched = true;
        tokens = unclaimed (some j) tokens;
      })
      d held posted (left off q) n f (left-beyond off d.buffers q b))
last_stream off e d (some j) tokens held posted q false n f b = succeeds _ refl (
    closed
      (record e {
        is_ready = true;
        ref_count = 0;
        stop_latched = false;
        tokens = unclaimed (some j) tokens;
      })
      held posted _ f (emptied off q) refl)

release-flowing :
    {w : Bool} (off : Bool) (e : Entry) (d : VideoDevice) (latest : Option ℕ) (tokens : ℕ → Token)
    (held posted : ℕ → ℕ) (q : ℕ → Bool) (ready : Bool) (count : ℕ)
    → d.buffers ≤ 3
    → ((i : ℕ) → Balanced w d.buffers latest (refs_of tokens) held posted q i)
    → (count ≡ 1 → AllIdle held posted)
    → Succeeds w
        (release off
          (streaming_entry (record e { is_ready = ready; ref_count = count }) d latest tokens))
        held
        posted
        q
unfolding release
release-flowing off e d latest tokens held posted q false count n b idle =
    succeeds _ refl
      (flowing (record e { is_ready = false; ref_count = count }) d latest tokens held posted q n b)
release-flowing off e d latest tokens held posted q true zero n b idle =
    succeeds _ refl
      (flowing (record e { is_ready = true; ref_count = 0 }) d latest tokens held posted q n b)
release-flowing off e d latest tokens held posted q true (suc zero) n b idle =
    last_stream off e d latest tokens held posted q e.stop_latched n
      (unclaimed-IsFree d.buffers latest tokens held posted q b (idle refl))
      (queued-below d.buffers latest (refs_of tokens) held posted q b)
release-flowing off e d latest tokens held posted q true (suc (suc k)) n b idle =
    let more : ltb 0 (suc k) ≡ true = ground arith in
    succeeds (streaming_entry (record e { is_ready = true; ref_count = suc k }) d latest tokens, [])
      (rw more refl)
      (flowing (record e { is_ready = true; ref_count = suc k }) d latest tokens held posted q n b)

release-closed :
    {w : Bool} (off : Bool) (e : Entry) (held posted : ℕ → ℕ) (q : ℕ → Bool) (ready : Bool)
    (count : ℕ)
    → ((i : ℕ) → IsFree e.tokens held posted i)
    → ((i : ℕ) → q i ≡ false)
    → count ≡ 0
    → Succeeds w
        (release off (closed_entry (record e { is_ready = ready; ref_count = count })))
        held
        posted
        q
unfolding release
release-closed off e held posted q false count f b c =
    succeeds _ refl (closed (record e { is_ready = false; ref_count = count }) held posted q f b c)
release-closed off e held posted q true zero f b c =
    succeeds _ refl (closed (record e { is_ready = true; ref_count = 0 }) held posted q f b refl)
release-closed off e held posted q true (suc k) f b c = ground arith

-- Whatever the state of a port, release succeeds.
pub release-Succeeds :
    {w : Bool} (off : Bool) (p : Port)
    → Inv w p
    → (p.entry.ref_count ≡ 1 → AllIdle p.held p.posted)
    → Succeeds w (release off p.entry) p.held p.posted p.queued
unfolding release
release-Succeeds off p (closed e held posted q f b c) idle =
    release-closed off e held posted q e.is_ready e.ref_count f b c
release-Succeeds off p (parked e d held posted q n f b) idle =
    release-parked off e d held posted q e.is_ready e.ref_count n f b
release-Succeeds off p (flowing e d latest tokens held posted q n b) idle =
    release-flowing off e d latest tokens held posted q e.is_ready e.ref_count n b idle
