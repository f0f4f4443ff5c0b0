-- ===== src/Tests/Page.antt =====
-- The page's moves, merged lanes, filters and shortcuts at a concrete day.
use greenlink.Prelude.{
  ℕ, String, ◌≡◌, refl, false, Option, none, some, List, [], ◌∷◌, arith, All, string_eq,
}
use greenlink.Prelude.Int.{ℤ}
use greenlink.Types.TeeSheet.{TeeSheetSlotView}
use greenlink.BookingMove.{LaneSlot, optimistically_move_booking}
use greenlink.BookingMove.Unique.{seats_in, seats_in-move}
use greenlink.Shortcuts.{Params, KeyPress, MultiKeyState, cleared, Effect, on_key}
use greenlink.Shortcuts.Keys.{IsAllowed, on_key-IsAllowed}
use greenlink.Tests.Data.{small_slot, busy_slot, empty_slot, day_of}

abbrev lane_of : TeeSheetSlotView → LaneSlot
lane_of slot = record {
  color_code = none;
  lane_label = "1st Tee";
  row_key = "r1";
  row_label = "1st Tee";
  slot = slot;
  start_lane = none;
  tee_id = none;
}

-- Ben leaves the two-ball for the empty slot.
seats_in-move_example :
    seats_in
      (some "p2")
      (optimistically_move_booking "b1" (some "p2") (some (day_of "c1")) (lane_of empty_slot))
    ≡ seats_in (some "p2") (some (day_of "c1"))
seats_in-move_example =
    seats_in-move "b1" (some "p2") (some "p2") (day_of "c1") (lane_of empty_slot) refl refl
      (omega arith)

abbrev keyboard : Params
keyboard = record {
  slot_rows = small_slot ∷ busy_slot ∷ empty_slot ∷ [];
  selected_slot_key = some "t1";
  selected_date = "2026-05-14";
  today = "2026-05-14";
  next_density = "default";
}

abbrev press : String → ℕ → KeyPress
press key now = record {
  key = key;
  shift_key = false;
  meta_key = false;
  alt_key = false;
  now = now;
}

abbrev no_shift : String → ℤ → Option String
no_shift date delta = none

on_key-IsAllowed_example :
    All (IsAllowed keyboard) (on_key no_shift none keyboard (press "c" 5) cleared).1
on_key-IsAllowed_example = on_key-IsAllowed no_shift none keyboard (press "c" 5) cleared

abbrev first_g : MultiKeyState × List Effect
first_g =
    on_key no_shift none keyboard (press "g" 100)
      (on_key no_shift none keyboard (press "j" 5) cleared).0

abbrev second_g : MultiKeyState × List Effect
second_g = on_key no_shift none keyboard (press "g" 900) first_g.0
