-- ===== src/Control/Gamepad/Malformed.antt =====
-- Commands without their parameter.
use trik_runtime.Prelude.{ℕ, ◌≡◌, refl, ap, Bool, true, none, [], ◌∷◌, Bool-cases, inl, inr, ◌⊎◌}
use trik_runtime.Text.{Bytes, Decimal, codes, split, without_empty}
use trik_runtime.Control.Gamepad.{Gamepad, is_connected, connected_now}
use trik_runtime.Control.Gamepad.Commands.{trimmed, command, after_signal, on_new_data}

module _ (d : Decimal) (is_space : ℕ → Bool) where
  command_alone :
      (s : Gamepad) (text p : Bytes)
      → (trimmed d is_space p ≡ codes "wheel") ⊎ (trimmed d is_space p ≡ codes "keepalive")
      → command d is_space s text (p ∷ []) ≡ none
  unfolding command
  command_alone s text p (inl e) = rw e refl
  command_alone s text p (inr e) = rw e refl

  -- A line that is only the word "wheel" or "keepalive" makes the gamepad read a parameter that is
  -- not there, in every state.
  pub on_new_data_alone :
      (s : Gamepad) (text p : Bytes)
      → without_empty (split b' ' text) ≡ p ∷ []
      → (trimmed d is_space p ≡ codes "wheel") ⊎ (trimmed d is_space p ≡ codes "keepalive")
      → on_new_data d is_space s text ≡ none
  unfolding on_new_data
  on_new_data_alone s text p e h = elim (Bool-cases (connected_now s)) [
    | inl q ↦ rw (q, e) (command_alone s text p h)
    | inr q ↦
        rw (q, e)
          (ap (after_signal d is_space (is_connected ∷ []))
            (command_alone (record s { connected = true }) text p h))
  ]
