-- ===== src/Control/Keys/Tests.antt =====
-- A key that is pressed, released and asked for.
use trik_runtime.Prelude.{◌≡◌, refl, true, false, List, [], ◌∷◌}
use trik_runtime.Prelude.Int.{pos}
use trik_runtime.Control.Keys.{Call, asks, hears, after, ask, new, step, read_keys_event, reset}
use trik_runtime.Control.Keys.Presses.{is_waiting, ask-after}

-- The last call first.
abbrev history : List Call
history =
    asks (pos 28)
    ∷ hears (pos 0) (pos 0) (pos 0)
    ∷ hears (pos 1) (pos 103) (pos 1)
    ∷ hears (pos 0) (pos 0) (pos 0)
    ∷ hears (pos 1) (pos 28) (pos 1)
    ∷ []

ask-after_example : (ask (after history) (pos 103)).1 ≡ is_waiting (pos 103) history
ask-after_example = ask-after (pos 103) history

keys_run : ((ask (after history) (pos 103)).1 ≡ true) × ((ask (after history) (pos 28)).1 ≡ false)
unfolding after new step read_keys_event reset ask
keys_run = (refl, refl)
