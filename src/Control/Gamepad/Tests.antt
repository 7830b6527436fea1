-- ===== src/Control/Gamepad/Tests.antt =====
-- A gamepad that sends its pads, and breaks off.
use trik_runtime.Prelude.{ℕ, ◌≡◌, refl, Bool, true, false, none, some, [], ◌∷◌, ◌==◌}
use trik_runtime.Prelude.Int.{pos}
use trik_runtime.Text.{codes}
use trik_runtime.Text.Decimals.{decimal, to_int}
use trik_runtime.Control.Gamepad.{
  Gamepad, is_connected, is_disconnected, pad, new, connected_now, handle_pad, disconnect,
  on_keepalive_timeout, reset,
}
use trik_runtime.Control.Gamepad.Commands.{command, on_new_data}
use trik_runtime.Control.Gamepad.Connections.{
  follow, Life, begin, hears, keepalive_ends, follow-Life,
}

abbrev is_blank : ℕ → Bool
is_blank c = c == 32

abbrev moved : Gamepad
moved = record {
  button_was_pressed = [];
  button_state = [];
  running_timers = [];
  pads = (pos 1, record { x = pos 20; y = pos 30; is_pressed = true }) ∷ [];
  wheel_percent = (new true).wheel_percent;
  keepalive = none;
  last_custom_message = [];
  connected = true;
  is_ready = true;
}

moved_run :
    on_new_data decimal is_blank (new true) (codes "pad 1 20  30")
    ≡ some (moved, is_connected ∷ pad (pos 1) (pos 20) (pos 30) ∷ [])
unfolding on_new_data new connected_now command handle_pad to_int
moved_run = refl

story :
    Life decimal is_blank
      (on_keepalive_timeout moved).0
      (is_connected ∷ pad (pos 1) (pos 20) (pos 30) ∷ is_disconnected ∷ [])
unfolding on_keepalive_timeout disconnect connected_now reset
story = keepalive_ends (hears (codes "pad 1 20  30") (begin (new true) refl) moved_run)

follow-Life_example :
    (follow false (is_connected ∷ pad (pos 1) (pos 20) (pos 30) ∷ is_disconnected ∷ [])
      ≡ some (on_keepalive_timeout moved).0.connected)
    × ((on_keepalive_timeout moved).0.is_ready ≡ true)
follow-Life_example = follow-Life decimal is_blank story
