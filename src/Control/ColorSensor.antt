-- ===== src/Control/ColorSensor.antt =====
-- trikControl/src/colorSensor.cpp: a camera as a grid of colours. `none` is an index out of range.
pub mod Cells
mod Tests
use trik_runtime.Prelude.{
  ℕ, zero, suc, ◌+◌, ◌-◌, ◌*◌, ◌/◌, ◌%◌, ◌^◌, min, Bool, true, false, Option, none, some, and_then,
  List, [], ◌∷◌, if◌then◌else◌, ◌||◌, ltb, length, get_elem?, set, replicate, is_empty,
}
use trik_runtime.Prelude.Int.{ℤ, pos, negsuc, leb_ℤ, ltb_ℤ, pos_part}
use trik_runtime.Control.DeviceState.{
  Status, permanent_failure, is_failed, fail, settled, become_ready,
}

abbrev pub Colour : Type 0
Colour = List ℤ

abbrev pub Grid : Type 0
Grid = List (List Colour)

pub record ColorSensor : Type 0 where
  pub status : Status
  pub m : ℤ
  pub n : ℤ
  pub video_out : Bool
  pub arg_m : ℕ  -- inArgs().m and inArgs().n, of 8 bits
  pub arg_n : ℕ
  pub reading : Grid

pub data Signal : Type 0 where
  activate_requested : ℕ → ℕ → Bool → Bool → Signal  -- m and n of the arguments, videoOut, canOpen
  stop_requested : ℤ → Signal
  emits_stopped : Signal

-- The tests of the size of the grid.
abbrev pub is_bad_size : ℤ → Bool
is_bad_size m = leb_ℤ m (pos 0) || ltb_ℤ (pos 3) m

-- The constructor, for the values of the configuration and the state that reading them leaves.
unfoldable pub new : Status → ℤ → ℤ → ColorSensor
unfolding become_ready fail
new status m n =
    let s : ColorSensor = record {
      status = status;
      m = m;
      n = n;
      video_out = false;
      arg_m = 0;
      arg_n = 0;
      reading = [];
    } in
    if is_bad_size m || (is_bad_size n || is_failed status)
    then record s { status = settled status (fail status) }
    else record s {
      status = settled status (become_ready status);
      arg_m = pos_part m % 2 ^ 8;
      arg_n = pos_part n % 2 ^ 8;
      reading = replicate (pos_part m) (replicate (pos_part n) (pos 0 ∷ pos 0 ∷ pos 0 ∷ []));
    }

unfoldable pub init : Bool → ColorSensor → ColorSensor × List Signal
init show_on_display s = if is_failed s.status then (s, []) else (
  record s { video_out = show_on_display },
  activate_requested s.arg_m s.arg_n show_on_display true ∷ [],
)

unfoldable pub stop : ℤ → ColorSensor → ColorSensor × List Signal
stop flags s = (record s { video_out = false }, stop_requested flags ∷ emits_stopped ∷ [])

abbrev pub no_colour : Colour
no_colour = negsuc 0 ∷ negsuc 0 ∷ negsuc 0 ∷ []

-- A cell by its place from 0.
abbrev pub cell : Grid → ℕ → ℕ → Option Colour
cell g row column = and_then (get_elem? g row) (λ cells. get_elem? cells column)

abbrev pub width : Grid → ℕ
width [] = 0
width (cells ∷ rows) = length cells

-- read, whose tests come first.
abbrev pub is_outside : Grid → ℤ → ℤ → Bool
is_outside g i j =
    is_empty g
    || (leb_ℤ i (pos 0)
        || (leb_ℤ j (pos 0) || (ltb_ℤ (pos (length g)) i || ltb_ℤ (pos (width g)) j)))

unfoldable pub read : ℤ → ℤ → ColorSensor → Option Colour
read i j s =
    if is_outside s.reading i j
    then some no_colour
    else cell s.reading (pos_part i - 1) (pos_part j - 1)

abbrev pub components : ℕ → Colour
components c = pos (c / 2 ^ 16 % 2 ^ 8) ∷ pos (c / 2 ^ 8 % 2 ^ 8) ∷ pos (c % 2 ^ 8) ∷ []

abbrev pub set_cell : Grid → ℕ → ℕ → Colour → Option Grid
set_cell g row column v =
    and_then (get_elem? g row)
      (λ cells. if ltb column (length cells) then some (set g row (set cells column v)) else none)

-- The loop of onResult: `count` cells from the i-th one on.
abbrev pub fill : (ℕ → ℕ) → ℕ → ℕ → ℕ → Grid → Option Grid
fill colors n zero i g = some g
fill colors n (suc count) i g =
    and_then (set_cell g (i / n) (i % n) (components (colors i))) (fill colors n count (suc i))

-- onResult, with the colours of the result. A product of two negative sizes is a positive number of
-- rounds, the first of which has no row to write to.
unfoldable pub on_result : (ℕ → ℕ) → ColorSensor → Option ColorSensor
on_result colors s = elim s.m [
  | pos m ↦ elim s.n [
    | pos n ↦
        and_then (fill colors n (min (m * n) 9) 0 s.reading) (λ g. some (record s { reading = g }))
    | negsuc n ↦ some s
  ]
  | negsuc m ↦ elim s.n [ pos n ↦ some s | negsuc n ↦ none ]
]
