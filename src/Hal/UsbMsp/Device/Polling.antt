-- ===== src/Hal/UsbMsp/Device/Polling.antt =====
-- The loop that reads a register of the microcontroller: it ends, and what it ends with.
use trik_runtime.Prelude.{
  ℕ, zero, suc, ◌+◌, ◌-◌, ◌%◌, ◌^◌, ◌≤◌, ◌<◌, ◌≡◌, refl, Bool, true, false, Option, none, some,
  arith, if◌then◌else◌, ◌==◌, ◌⊎◌, inl, inr, Bool-cases, ltb, not, ◌&&◌, ◌||◌,
}
use trik_runtime.Hal.UsbMsp.Defines.Registers.{time_out}
use trik_runtime.Hal.UsbMsp.Packets.{Fields, make_read_reg_packet}
use trik_runtime.Hal.UsbMsp.Device.{
  Tty, Device, Outcome, ok, fault, uninitialized, Poll, Buffer, goes_on, decoded, poll_round, poll,
  if_more, ◌>>=◌, poll_fuel, send_usb_packet,
}

-- The rounds that are left before tmout stops the loop. A loop that begins with tmout = TIME_OUT first
-- wraps around.
abbrev rounds_left : ℕ → ℕ
rounds_left t = if ltb t time_out then time_out - t else 2 ^ 16

-- How the loop may end: with a packet of the register that was asked, or when the tries are used up,
-- or on devaddr that no packet has assigned.
abbrev pub Settled : {World : Type 0} → ℕ → ℕ → Outcome (Poll × Device World) → Type 0
Settled dev reg (ok (l, d)) =
    (f : Fields) × (l.seen ≡ some f)
    × (((f.dev_addr ≡ dev) × (f.reg_addr ≡ reg)) ⊎ (l.tmout ≡ time_out))
Settled dev reg (fault e) = e ≡ uninitialized

-- One round counts, or meets a variable that is not assigned.
abbrev Counts : {World : Type 0} → ℕ → Outcome (Poll × Device World) → Type 0
Counts t (ok (l, d)) = l.tmout ≡ (t + 1) % 2 ^ 16
Counts t (fault e) = e ≡ uninitialized

-- What the condition of the loop says.
abbrev Verdict : ℕ → ℕ → Option Fields → ℕ → Outcome Bool → Type 0
Verdict dev reg seen t (ok true) = t < time_out
Verdict dev reg seen t (ok false) =
    (f : Fields) × (seen ≡ some f) × (((f.dev_addr ≡ dev) × (f.reg_addr ≡ reg)) ⊎ (time_out ≤ t))
Verdict dev reg seen t (fault e) = e ≡ uninitialized

test-Verdict :
    (dev reg : ℕ) (f : Fields) (t : ℕ) (m : Bool)
    → ((not (f.dev_addr == dev) || not (f.reg_addr == reg)) && ltb t time_out) ≡ m
    → Verdict dev reg (some f) t (ok m)
test-Verdict dev reg f t true e = ground arith
test-Verdict dev reg f t false e = elim (Bool-cases (ltb t time_out)) [
  | inl more ↦ (f, refl, inl (ground arith, ground arith))
  | inr over ↦ (f, refl, inr (ground arith))
]

goes_on-Verdict :
    (dev reg : ℕ) (seen : Option Fields) (t : ℕ) → Verdict dev reg seen t (goes_on dev reg seen t)
unfolding goes_on
goes_on-Verdict dev reg none t = refl
goes_on-Verdict dev reg (some f) t = test-Verdict dev reg f t _ refl

module _ (os : Tty) where
  decoded-Counts : (l : Poll) (b : Buffer) (d : Device os.World) → Counts l.tmout (decoded os l b d)
  unfolding decoded
  decoded-Counts l none d = refl
  decoded-Counts l (some p) d = refl

  poll_round-Counts :
      (dev reg : ℕ) (l : Poll) (d : Device os.World) → Counts l.tmout (poll_round os dev reg l d)
  unfolding poll_round
  poll_round-Counts dev reg l d =
      let sent = send_usb_packet os (make_read_reg_packet dev reg) l.s2 d in
      decoded-Counts l sent.1 sent.2

  if_more-Settled :
      (dev reg : ℕ) (l : Poll) (d : Device os.World) (rest : Outcome (Poll × Device os.World))
      (v : Outcome Bool)
      → l.tmout < 2 ^ 16
      → Verdict dev reg l.seen l.tmout v
      → (l.tmout < time_out → Settled dev reg rest)
      → Settled dev reg (if_more v rest (l, d))
  if_more-Settled dev reg l d rest (ok true) h v ih = ih v
  if_more-Settled dev reg l d rest (ok false) h (f, e, inl same) ih = (f, e, inl same)
  if_more-Settled dev reg l d rest (ok false) h (f, e, inr over) ih = (f, e, inr (omega arith))
  if_more-Settled dev reg l d rest (fault e) h v ih = v

  round-Settled :
      (fuel dev reg t : ℕ) (r : Outcome (Poll × Device os.World))
      → t < 2 ^ 16
      → rounds_left t ≤ suc fuel
      → Counts t r
      → ((l : Poll) (d : Device os.World)
          → l.tmout < 2 ^ 16
          → rounds_left l.tmout ≤ fuel
          → Settled dev reg (poll os fuel dev reg l d))
      → Settled dev reg
          (r >>= λ s. if_more (goes_on dev reg s.0.seen s.0.tmout) (poll os fuel dev reg s.0 s.1) s)
  round-Settled fuel dev reg t (ok (l, d)) h k c ih =
      if_more-Settled dev reg l d (poll os fuel dev reg l d) _ (omega arith)
        (goes_on-Verdict dev reg l.seen l.tmout) (λ more. ih l d (omega arith) (ground arith))
  round-Settled fuel dev reg t (fault e) h k c ih = c

  poll_settles :
      (fuel dev reg : ℕ) (l : Poll) (d : Device os.World)
      → l.tmout < 2 ^ 16
      → rounds_left l.tmout ≤ fuel
      → Settled dev reg (poll os fuel dev reg l d)
  unfolding poll
  poll_settles zero dev reg l d h k = absurd (ground arith)
  poll_settles (suc fuel) dev reg l d h k =
      round-Settled fuel dev reg l.tmout (poll_round os dev reg l d) h k
        (poll_round-Counts dev reg l d) (poll_settles fuel dev reg)

  -- The loop that reads a register ends, whatever the microcontroller answers and however often the
  -- exchange fails: with a packet of that register, or when TIME_OUT tries are used up, or with
  -- undefined behaviour since no packet has assigned devaddr.
  pub poll-Settled :
      (dev reg : ℕ) (l : Poll) (d : Device os.World)
      → l.tmout < 2 ^ 16
      → Settled dev reg (poll os poll_fuel dev reg l d)
  poll-Settled dev reg l d h = poll_settles poll_fuel dev reg l d h (ground arith)
