-- ===== src/Control/CameraManager/States.antt =====
-- trikControl/src/cameraManager.cpp: the states of a port and the places of its buffers.
use trik_runtime.Prelude.{
  ℕ, zero, suc, ◌+◌, ◌≤◌, ◌≡◌, ◌∙◌, arith, Bool, true, false, Option, none, some, ltb, ◌==◌,
}
use trik_runtime.Hal.VideoDevice.{VideoDevice}
use trik_runtime.Control.CameraManager.{Token, Entry, Step}
use trik_runtime.Control.CameraManager.Frames.{Port, after_actions}

abbrev pub bit : Bool → ℕ
bit true = 1
bit false = 0

abbrev pub sign : ℕ → ℕ
sign zero = 0
sign (suc n) = 1

-- The manager's claim of a buffer.
abbrev pub claim : Option ℕ → ℕ → ℕ
claim none i = 0
claim (some j) i = bit (j == i)

-- A count is within a bound, and reaches it where the driver is reliable.
pub record Fits (reliable : Bool) (m n : ℕ) : Type 0 where
  pub below : m ≤ n
  pub exact : reliable ≡ true → m ≡ n

pub fits : {w : Bool} {m n : ℕ} → m ≡ n → Fits w m n
fits h = record { below = omega (arith, h); exact = λ r. h }

-- The same count.
pub refits : {w : Bool} {m n k : ℕ} → Fits w m n → k ≡ m → Fits w k n
refits f h = record { below = omega (arith, h, f.below); exact = λ r. h ∙ f.exact r }

-- The count of a token is the manager's claim with the frames of the clients, and each buffer of the
-- device is in one place: with the driver, on its way there, or claimed. A driver that is not reliable
-- may have refused it, so that it is in none.
pub record Balanced (reliable : Bool) (n : ℕ) (latest : Option ℕ) (refs held posted : ℕ → ℕ)
    (queued : ℕ → Bool) (i : ℕ) : Type 0 where
  pub counts : refs i ≡ claim latest i + held i
  pub one_place : Fits reliable (posted i + bit (queued i) + sign (refs i)) (bit (ltb i n))

abbrev pub refs_of : (ℕ → Token) → ℕ → ℕ
refs_of tokens i = (tokens i).refs

-- Nobody claims a buffer, and no return of it waits.
pub record IsFree (tokens : ℕ → Token) (held posted : ℕ → ℕ) (i : ℕ) : Type 0 where
  pub no_refs : refs_of tokens i ≡ 0
  pub not_held : held i ≡ 0
  pub not_posted : posted i ≡ 0

abbrev pub closed_entry : Entry → Entry
closed_entry e = record e { dev = none; is_streaming = false; latest = none }

abbrev pub parked_entry : Entry → VideoDevice → Entry
parked_entry e d = record e {
  dev = some (record d { is_streaming = false; is_open = true });
  is_streaming = false;
  latest = none;
}

abbrev pub streaming_entry : Entry → VideoDevice → Option ℕ → (ℕ → Token) → Entry
streaming_entry e d latest tokens = record e {
  dev = some (record d { is_streaming = true; is_open = true });
  is_streaming = true;
  latest = latest;
  tokens = tokens;
}

abbrev pub port_of : Entry → (ℕ → ℕ) → (ℕ → ℕ) → (ℕ → Bool) → Port
port_of e held posted queued = record { entry = e; held = held; posted = posted; queued = queued }

-- The port after a step, from a queue of the driver.
abbrev pub port_after : Step → (ℕ → ℕ) → (ℕ → ℕ) → (ℕ → Bool) → Port
port_after s held posted queued = port_of s.0 held posted (after_actions s.1 queued)

-- A port whose camera is closed, one whose camera is open without a stream, and one with a stream.
pub data Inv (w : Bool) : Port → Type 0 where
  closed :
      (e : Entry) (held posted : ℕ → ℕ) (queued : ℕ → Bool)
      → ((i : ℕ) → IsFree e.tokens held posted i)
      → ((i : ℕ) → queued i ≡ false)
      → e.ref_count ≡ 0
      → Inv w (port_of (closed_entry e) held posted queued)
  parked :
      (e : Entry) (d : VideoDevice) (held posted : ℕ → ℕ) (queued : ℕ → Bool)
      → d.buffers ≤ 3
      → ((i : ℕ) → IsFree e.tokens held posted i)
      → ((i : ℕ) → d.buffers ≤ i → queued i ≡ false)
      → Inv w (port_of (parked_entry e d) held posted queued)
  flowing :
      (e : Entry) (d : VideoDevice) (latest : Option ℕ) (tokens : ℕ → Token) (held posted : ℕ → ℕ)
      (queued : ℕ → Bool)
      → d.buffers ≤ 3
      → ((i : ℕ) → Balanced w d.buffers latest (refs_of tokens) held posted queued i)
      → Inv w (port_of (streaming_entry e d latest tokens) held posted queued)
