-- ===== src/Control/Gamepad/Commands.antt =====
-- trikControl/src/gamepad.cpp: the lines that the remote control sends.
use trik_runtime.Prelude.{
  ℕ, Bool, true, Option, none, some, List, [], ◌∷◌, ◌++◌, if◌then◌else◌, ◌&&◌, is_empty, length,
  drop, list_eq,
}
use trik_runtime.Prelude.Int.{ℤ, int_eq}
use trik_runtime.Text.{Bytes, Decimal, codes, split, without_empty, zero_or}
use trik_runtime.Control.Gamepad.{
  Gamepad, Signal, is_connected, Step, connected_now, handle_pad_up, handle_pad, handle_button,
  handle_wheel, handle_keepalive, handle_custom,
}

-- `is_space` is QChar::isSpace.
module _ (d : Decimal) (is_space : ℕ → Bool) where
  abbrev pub trim_left : Bytes → Bytes
  trim_left [] = []
  trim_left (c ∷ cs) = let rest = trim_left cs in if is_space c then rest else c ∷ cs

  abbrev pub trim_right : Bytes → Bytes
  trim_right [] = []
  trim_right (c ∷ cs) =
      let rest = trim_right cs in if is_empty rest && is_space c then [] else c ∷ rest

  -- trimmed().
  abbrev pub trimmed : Bytes → Bytes
  trimmed b = trim_right (trim_left b)

  -- trimmed().toInt().
  abbrev pub number_of : Bytes → ℤ
  number_of b = zero_or (d.to_int (trimmed b))

  -- The commands, with the parts after the command name; `none` is cmd.at(1) out of range.
  abbrev pub pad_command : Gamepad → List Bytes → Step
  pad_command s (id ∷ second ∷ rest) =
      if list_eq (trimmed second) (codes "up") then handle_pad_up s (number_of id) else (elim rest [
        | [] ↦ (s, [])
        | y ∷ _ ↦ handle_pad s (number_of id) (number_of second) (number_of y)
      ])
  pad_command s _ = (s, [])

  abbrev pub button_command : Gamepad → List Bytes → Step
  button_command s [] = (s, [])
  button_command s (b ∷ []) = handle_button s (number_of b) true
  button_command s (b ∷ state ∷ _) = handle_button s (number_of b) (list_eq state (codes "down"))

  abbrev pub wheel_command : Gamepad → List Bytes → Option Step
  wheel_command s [] = none
  wheel_command s (p ∷ _) = some (handle_wheel s (number_of p))

  abbrev pub keepalive_command : Gamepad → List Bytes → Option Step
  keepalive_command s [] = none
  keepalive_command s (w ∷ _) = some (handle_keepalive s (number_of w))

  unfoldable pub command : Gamepad → Bytes → List Bytes → Option Step
  command s text [] = some (s, [])
  command s text (first ∷ rest) =
      let name = trimmed first in
      if list_eq name (codes "pad")
      then some (pad_command s rest)
      else if list_eq name (codes "btn")
      then some (button_command s rest)
      else if list_eq name (codes "wheel")
      then wheel_command s rest
      else if list_eq name (codes "keepalive")
      then keepalive_command s rest
      else if list_eq name (codes "custom")
      then some (handle_custom s (trimmed (drop (length name) text)))
      else some (s, [])

  abbrev pub after_signal : List Signal → Option Step → Option Step
  after_signal out none = none
  after_signal out (some (s, more)) = some (s, out ++ more)

  -- onNewData.
  unfoldable pub on_new_data : Gamepad → Bytes → Option Step
  on_new_data s text =
      let parts = without_empty (split b' ' text) in
      if connected_now s
      then command s text parts
      else after_signal (is_connected ∷ []) (command (record s { connected = true }) text parts)
