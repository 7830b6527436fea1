-- ===== src/Control/Gamepad.antt =====
-- trikControl/src/gamepad.cpp: the remote control.
pub mod Commands
pub mod Connections
pub mod Malformed
mod Tests
use trik_runtime.Prelude.{
  ℕ, ◌≡◌, Bool, true, false, Option, none, some, and_then, List, [], ◌∷◌, ◌++◌, if◌then◌else◌, ◌==◌,
  ◌&&◌, not, is_empty, length, drop, list_eq,
}
use trik_runtime.Prelude.Int.{ℤ, pos, negsuc, eq_ℤ, is_zero, int_eq}
use trik_runtime.Prelude.Maps.{lookup, insert}
use trik_runtime.Prelude.Sets.{has, with_element, without}
use trik_runtime.Text.{Bytes, Decimal, codes, split}

pub record PadStatus : Type 0 where
  pub x : ℤ
  pub y : ℤ
  pub is_pressed : Bool

pub record Gamepad : Type 0 where
  pub button_was_pressed : List ℤ  -- a set
  pub button_state : List (ℤ × Bool)
  pub running_timers : List ℤ  -- buttons whose clear timer runs, a set
  pub pads : List (ℤ × PadStatus)
  pub wheel_percent : ℤ
  pub keepalive : Option ℤ  -- the interval of the keepalive timer, where it runs
  pub last_custom_message : Bytes
  pub connected : Bool  -- mConnected
  pub is_ready : Bool  -- status() == Status::ready of the FIFO

pub data Signal : Type 0 where
  is_connected is_disconnected : Signal
  pad_up : ℤ → Signal
  pad : ℤ → ℤ → ℤ → Signal
  wheel_event : ℤ → Signal
  button : ℤ → ℤ → Signal
  custom : Bytes → Signal

abbrev pub Step : Type 0
Step = Gamepad × List Signal

-- -101.
abbrev pub no_value : ℤ
no_value = negsuc 100

-- The state of the constructor, over a FIFO in some state.
unfoldable pub new : Bool → Gamepad
new is_ready = record {
  button_was_pressed = [];
  button_state = [];
  running_timers = [];
  pads = [];
  wheel_percent = no_value;
  keepalive = none;
  last_custom_message = [];
  connected = false;
  is_ready = is_ready;
}

unfoldable pub reset : Gamepad → Gamepad
reset s = record s { button_was_pressed = []; pads = [] }

-- buttonWasPressed.
unfoldable pub ask_button : Gamepad → ℤ → Gamepad × Bool
ask_button s b =
    (record s { button_was_pressed = without b s.button_was_pressed }, has b s.button_was_pressed)

abbrev pub or_false : Option Bool → Bool
or_false none = false
or_false (some b) = b

unfoldable pub button_is_pressed : Gamepad → ℤ → Bool
button_is_pressed s b = or_false (lookup b s.button_state)

abbrev pub pressed_by : Option PadStatus → Bool
pressed_by none = false
pressed_by (some p) = p.is_pressed

abbrev pub x_by : Option PadStatus → ℤ
x_by none = no_value
x_by (some p) = if p.is_pressed then p.x else no_value

abbrev pub y_by : Option PadStatus → ℤ
y_by none = no_value
y_by (some p) = if p.is_pressed then p.y else no_value

unfoldable pub is_pad_pressed : Gamepad → ℤ → Bool
is_pad_pressed s p = pressed_by (lookup p s.pads)

unfoldable pub pad_x : Gamepad → ℤ → ℤ
pad_x s p = x_by (lookup p s.pads)

unfoldable pub pad_y : Gamepad → ℤ → ℤ
pad_y s p = y_by (lookup p s.pads)

-- isConnected.
unfoldable pub connected_now : Gamepad → Bool
connected_now s = s.connected && s.is_ready

-- disconnect, with its answer.
unfoldable pub disconnect : Gamepad → Step × Bool
disconnect s =
    if connected_now s
    then ((reset (record s { connected = false }), is_disconnected ∷ []), true)
    else ((s, []), false)

-- The slot of the keepalive timer, which shoots once.
unfoldable pub on_keepalive_timeout : Gamepad → Step
on_keepalive_timeout s = (disconnect (record s { keepalive = none })).0

abbrev pub pad_or_new : Option PadStatus → PadStatus
pad_or_new none = record { x = pos 0; y = pos 0; is_pressed = false }
pad_or_new (some p) = p

unfoldable pub handle_pad_up : Gamepad → ℤ → Step
handle_pad_up s id =
    let p = pad_or_new (lookup id s.pads) in
    (record s { pads = insert id (record p { is_pressed = false }) s.pads }, pad_up id ∷ [])

unfoldable pub handle_wheel : Gamepad → ℤ → Step
handle_wheel s percent = (record s { wheel_percent = percent }, wheel_event percent ∷ [])

unfoldable pub handle_pad : Gamepad → ℤ → ℤ → ℤ → Step
handle_pad s id x y = (
  record s { pads = insert id (record { x = x; y = y; is_pressed = true }) s.pads },
  pad id x y ∷ [],
)

unfoldable pub handle_button : Gamepad → ℤ → Bool → Step
handle_button s b pressed = (
  record s {
    button_was_pressed =
        if pressed then with_element b s.button_was_pressed else s.button_was_pressed;
    button_state = insert b pressed s.button_state;
    running_timers = with_element b s.running_timers;
  },
  button b (if pressed then pos 1 else pos 0) ∷ [],
)

unfoldable pub handle_keepalive : Gamepad → ℤ → Step
handle_keepalive s wait = (record s { keepalive = if is_zero wait then none else some wait }, [])

unfoldable pub handle_custom : Gamepad → Bytes → Step
handle_custom s message = (record s { last_custom_message = message }, custom message ∷ [])

-- onButtonStateClearTimerTimeout, for the button of the timer.
unfoldable pub on_button_timeout : Gamepad → ℤ → Gamepad
on_button_timeout s b = record s {
  button_state = insert b false s.button_state;
  running_timers = without b s.running_timers;
}
