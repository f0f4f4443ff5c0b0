-- ===== src/Sheet/Segments.antt =====
-- sheet-shared.tsx: the cards of a slot's row, laid out over its player columns.
pub mod Tiling
use greenlink.Prelude.{ℕ, ◌+◌, ◌-◌, min, max, String, List, [], ◌∷◌, leb, if◌then◌else◌}
use greenlink.Types.TeeSheet.{TeeSheetBookingView, TeeSheetSlotView}
use greenlink.Sheet.Occupancy.{slot_capacity, booking_player_count, booking_participant_names}

pub data SlotBookingSegment : Type 0 where
  booking : TeeSheetBookingView → List String → ℕ → ℕ → SlotBookingSegment
  open_seats : ℕ → ℕ → SlotBookingSegment

abbrev pub start_column : SlotBookingSegment → ℕ
start_column (booking _ _ start _) = start
start_column (open_seats start _) = start

abbrev pub span : SlotBookingSegment → ℕ
span (booking _ _ _ n) = n
span (open_seats _ n) = n

-- The segment behind the loop: what the bookings leave of the row.
abbrev pub rest_of_row : ℕ → ℕ → List SlotBookingSegment
rest_of_row capacity column =
    if leb column capacity then open_seats column (capacity + 1 - column) ∷ [] else []

-- The loop over the bookings, at the value of `currentColumn`. It breaks at a span of 0, which
-- is also what `capacity + 1 - column` gives where the difference of the source is negative.
segments_from : ℕ → ℕ → List TeeSheetBookingView → List SlotBookingSegment
segments_from capacity column [] = rest_of_row capacity column
segments_from capacity column (b ∷ bs) =
    let n = min (max (booking_player_count b) 1) (capacity + 1 - column) in
    let later = segments_from capacity (column + n) bs in
    if leb n 0
    then rest_of_row capacity column
    else booking b (booking_participant_names b) column n ∷ later

unfoldable pub slot_booking_segments : TeeSheetSlotView → List SlotBookingSegment
unfolding segments_from
slot_booking_segments slot = segments_from (slot_capacity slot) 1 slot.bookings
