-- ===== src/Control/Gamepad/Connections.antt =====
-- The signals about the connection alternate.
use trik_runtime.Prelude.{
  ℕ, ◌≡◌, refl, ap, sym, subst, Bool, true, false, Option, none, some, List, [], ◌∷◌, ◌++◌,
  if◌then◌else◌, list_eq, Bool-cases, inl, inr, ◌∙◌, arith,
}
use trik_runtime.Prelude.Int.{ℤ}
use trik_runtime.Text.{Bytes, Decimal, codes, split, without_empty}
use trik_runtime.Control.Gamepad.{
  Gamepad, Signal, is_connected, is_disconnected, pad_up, pad, wheel_event, button, custom, Step,
  new, connected_now, on_keepalive_timeout, disconnect, on_button_timeout, ask_button,
  handle_pad_up, handle_pad, handle_button, handle_wheel, handle_keepalive, handle_custom, reset,
}
use trik_runtime.Control.Gamepad.Commands.{
  trimmed, command, after_signal, on_new_data, pad_command, button_command, wheel_command,
  keepalive_command,
}

-- What listeners know: `none` where a signal about the connection came twice in a row.
abbrev pub told : Bool → Signal → Option Bool
told b is_connected = if b then none else some true
told b is_disconnected = if b then some false else none
told b (pad_up p) = some b
told b (pad p x y) = some b
told b (wheel_event p) = some b
told b (button n p) = some b
told b (custom m) = some b

abbrev pub follow : Bool → List Signal → Option Bool
follow b [] = some b
follow b (s ∷ ss) = elim (told b s) [ none ↦ none | some c ↦ follow c ss ]

follow-append :
    (b c : Bool) (xs ys : List Signal) → follow b xs ≡ some c → follow b (xs ++ ys) ≡ follow c ys
follow-append b c [] ys h = ground arith
follow-append true c (is_connected ∷ xs) ys h = ground arith
follow-append false c (is_connected ∷ xs) ys h = follow-append true c xs ys h
follow-append true c (is_disconnected ∷ xs) ys h = follow-append false c xs ys h
follow-append false c (is_disconnected ∷ xs) ys h = ground arith
follow-append b c (pad_up p ∷ xs) ys h = follow-append b c xs ys h
follow-append b c (pad p x y ∷ xs) ys h = follow-append b c xs ys h
follow-append b c (wheel_event p ∷ xs) ys h = follow-append b c xs ys h
follow-append b c (button n p ∷ xs) ys h = follow-append b c xs ys h
follow-append b c (custom m ∷ xs) ys h = follow-append b c xs ys h

-- A step that leaves the connection as it is and says nothing about it.
abbrev Quiet : Gamepad → Step → Type 0
Quiet s (t, out) =
    (t.connected ≡ s.connected) × (t.is_ready ≡ s.is_ready) × ((b : Bool) → follow b out ≡ some b)

abbrev QuietIf : Gamepad → Option Step → Type 0
QuietIf s none = Unit
QuietIf s (some p) = Quiet s p

if-Quiet :
    (s : Gamepad) (b : Bool) (p q : Step) → Quiet s p → Quiet s q → Quiet s (if b then p else q)
if-Quiet s true p q h k = h
if-Quiet s false p q h k = k

if-QuietIf :
    (s : Gamepad) (b : Bool) (p q : Option Step)
    → QuietIf s p
    → QuietIf s q
    → QuietIf s (if b then p else q)
if-QuietIf s true p q h k = h
if-QuietIf s false p q h k = k

handle_pad_up-Quiet : (s : Gamepad) (id : ℤ) → Quiet s (handle_pad_up s id)
unfolding handle_pad_up
handle_pad_up-Quiet s id = (refl, refl, λ b. refl)

handle_pad-Quiet : (s : Gamepad) (id x y : ℤ) → Quiet s (handle_pad s id x y)
unfolding handle_pad
handle_pad-Quiet s id x y = (refl, refl, λ b. refl)

handle_button-Quiet : (s : Gamepad) (n : ℤ) (pressed : Bool) → Quiet s (handle_button s n pressed)
unfolding handle_button
handle_button-Quiet s n pressed = (refl, refl, λ b. refl)

module _ (d : Decimal) (is_space : ℕ → Bool) where
  pad_command-Quiet : (s : Gamepad) (parts : List Bytes) → Quiet s (pad_command d is_space s parts)
  pad_command-Quiet s [] = (refl, refl, λ b. refl)
  pad_command-Quiet s (id ∷ []) = (refl, refl, λ b. refl)
  pad_command-Quiet s (id ∷ second ∷ []) =
      if-Quiet s (list_eq (trimmed d is_space second) (codes "up")) _ (s, [])
        (handle_pad_up-Quiet s _) (refl, refl, λ b. refl)
  pad_command-Quiet s (id ∷ second ∷ y ∷ more) =
      if-Quiet s (list_eq (trimmed d is_space second) (codes "up")) _ _ (handle_pad_up-Quiet s _)
        (handle_pad-Quiet s _ _ _)

  button_command-Quiet :
      (s : Gamepad) (parts : List Bytes) → Quiet s (button_command d is_space s parts)
  button_command-Quiet s [] = (refl, refl, λ b. refl)
  button_command-Quiet s (n ∷ []) = handle_button-Quiet s _ _
  button_command-Quiet s (n ∷ state ∷ more) = handle_button-Quiet s _ _

  wheel_command-QuietIf :
      (s : Gamepad) (parts : List Bytes) → QuietIf s (wheel_command d is_space s parts)
  unfolding handle_wheel
  wheel_command-QuietIf s [] = tt
  wheel_command-QuietIf s (p ∷ more) = (refl, refl, λ b. refl)

  keepalive_command-QuietIf :
      (s : Gamepad) (parts : List Bytes) → QuietIf s (keepalive_command d is_space s parts)
  unfolding handle_keepalive
  keepalive_command-QuietIf s [] = tt
  keepalive_command-QuietIf s (w ∷ more) = (refl, refl, λ b. refl)

  command-QuietIf :
      (s : Gamepad) (text : Bytes) (parts : List Bytes)
      → QuietIf s (command d is_space s text parts)
  unfolding command handle_custom
  command-QuietIf s text [] = (refl, refl, λ b. refl)
  command-QuietIf s text (first ∷ rest) =
      let name = trimmed d is_space first in
      if-QuietIf s (list_eq name (codes "pad")) _ _ (pad_command-Quiet s rest) (
        if-QuietIf s (list_eq name (codes "btn")) _ _ (button_command-Quiet s rest) (
          if-QuietIf s (list_eq name (codes "wheel")) _ _ (wheel_command-QuietIf s rest) (
            if-QuietIf s (list_eq name (codes "keepalive")) _ _ (keepalive_command-QuietIf s rest) (
              if-QuietIf s (list_eq name (codes "custom")) _ _ (refl, refl, λ b. refl)
                (refl, refl, λ b. refl)))))

  -- The signals of a call tell a listener, who knew whether the gamepad is connected, whether it is
  -- now; the FIFO stays ready.
  abbrev Tells : Gamepad → Option Step → Type 0
  Tells s none = Unit
  Tells s (some (t, out)) = (follow s.connected out ≡ some t.connected) × (t.is_ready ≡ true)

  quiet-Tells : (s : Gamepad) (o : Option Step) → s.is_ready ≡ true → QuietIf s o → Tells s o
  quiet-Tells s none r q = tt
  quiet-Tells s (some (t, out)) r (c, e, f) = (f s.connected ∙ ap some (sym c), e ∙ r)

  first-Tells :
      (s : Gamepad) (o : Option Step)
      → s.connected ≡ false
      → s.is_ready ≡ true
      → QuietIf (record s { connected = true }) o
      → Tells s (after_signal d is_space (is_connected ∷ []) o)
  first-Tells s none n r q = tt
  first-Tells s (some (t, out)) n r (c, e, f) = (rw n (f true ∙ ap some (sym c)), e ∙ r)

  not_connected : (s : Gamepad) → s.is_ready ≡ true → connected_now s ≡ false → s.connected ≡ false
  unfolding connected_now
  not_connected s r q = ground arith

  on_new_data-Tells :
      (s : Gamepad) (text : Bytes) → s.is_ready ≡ true → Tells s (on_new_data d is_space s text)
  unfolding on_new_data
  on_new_data-Tells s text r =
      let parts = without_empty (split b' ' text) in
      elim (Bool-cases (connected_now s)) [
        | inl q ↦
            rw q (quiet-Tells s (command d is_space s text parts) r (command-QuietIf s text parts))
        | inr q ↦ rw q (
            first-Tells s (command d is_space (record s { connected = true }) text parts)
              (not_connected s r q) r (command-QuietIf (record s { connected = true }) text parts))
      ]

  disconnect-Tells : (s : Gamepad) → s.is_ready ≡ true → Tells s (some (disconnect s).0)
  unfolding disconnect reset connected_now
  disconnect-Tells s r = elim (Bool-cases s.connected) [
    | inl q ↦ rw (q, r) (refl, refl)
    | inr q ↦ rw (q, r) (refl, refl)
  ]

  -- The histories of a gamepad whose FIFO is ready: lines come, where each parameter is there, timers
  -- run out, and scripts ask, disconnect and reset.
  pub data Life : Gamepad → List Signal → Type 0 where
    begin : (s : Gamepad) → s ≡ new true → Life s []
    hears :
        {s t : Gamepad} {signals out : List Signal} (text : Bytes)
        → Life s signals
        → on_new_data d is_space s text ≡ some (t, out)
        → Life t (signals ++ out)
    disconnects :
        {s : Gamepad} {signals : List Signal}
        → Life s signals
        → Life (disconnect s).0.0 (signals ++ (disconnect s).0.1)
    keepalive_ends :
        {s : Gamepad} {signals : List Signal}
        → Life s signals
        → Life (on_keepalive_timeout s).0 (signals ++ (on_keepalive_timeout s).1)
    button_ends :
        {s : Gamepad} {signals : List Signal} (b : ℤ)
        → Life s signals
        → Life (on_button_timeout s b) signals
    asks :
        {s : Gamepad} {signals : List Signal} (b : ℤ)
        → Life s signals
        → Life (ask_button s b).0 signals
    resets : {s : Gamepad} {signals : List Signal} → Life s signals → Life (reset s) signals

  extend :
      (s t : Gamepad) (signals out : List Signal)
      → (follow false signals ≡ some s.connected) × (s.is_ready ≡ true)
      → Tells s (some (t, out))
      → (follow false (signals ++ out) ≡ some t.connected) × (t.is_ready ≡ true)
  extend s t signals out (f, r) (g, e) = (follow-append false s.connected signals out f ∙ g, e)

  -- In every history the signals `connected` and `disconnected` alternate, beginning with
  -- `connected`, and the last one tells whether the gamepad is connected. The FIFO is ready, and
  -- every command comes with its parameters.
  pub follow-Life :
      {s : Gamepad} {signals : List Signal}
      → Life s signals
      → (follow false signals ≡ some s.connected) × (s.is_ready ≡ true)
  unfolding new on_keepalive_timeout on_button_timeout ask_button reset
  follow-Life (begin s e) = (ap (λ t. some t.connected) (sym e), ap (λ t. t.is_ready) e)
  follow-Life (hears {s = s} {t = t} {signals = signals} {out = out} text h e) =
      let known = follow-Life h in
      extend s t signals out known (subst (Tells s) e (on_new_data-Tells s text known.1))
  follow-Life (disconnects {s = s} {signals = signals} h) =
      let known = follow-Life h in
      extend s (disconnect s).0.0 signals (disconnect s).0.1 known (disconnect-Tells s known.1)
  follow-Life (keepalive_ends {s = s} {signals = signals} h) =
      let known = follow-Life h in
      let u = record s { keepalive = none } in
      extend u (disconnect u).0.0 signals (disconnect u).0.1 known (disconnect-Tells u known.1)
  follow-Life (button_ends b h) = follow-Life h
  follow-Life (asks b h) = follow-Life h
  follow-Life (resets h) = follow-Life h
