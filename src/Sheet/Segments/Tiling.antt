-- ===== src/Sheet/Segments/Tiling.antt =====
-- The segments of a slot cover its row exactly once.
use greenlink.Prelude.{ℕ, ◌+◌, ◌-◌, ◌≤◌, ◌<◌, min, max, ◌≡◌, List, [], ◌∷◌, map, arith, sum, All}
use greenlink.Types.TeeSheet.{TeeSheetBookingView, TeeSheetSlotView}
use greenlink.Sheet.Occupancy.{slot_capacity, booking_player_count, slot_remaining_capacity}
use greenlink.Sheet.Occupancy.Counts.{slot_capacity_bounds}
use greenlink.Sheet.Segments.{
  SlotBookingSegment, booking, open_seats, start_column, span, rest_of_row, segments_from,
  slot_booking_segments,
}

-- Each segment starts where the one before it ended, none is empty, and the last ends at `end`.
abbrev pub Tiles : ℕ → ℕ → List SlotBookingSegment → Type 0
Tiles column end [] = column ≡ end
Tiles column end (s ∷ ss) =
    (start_column s ≡ column) × (0 < span s) × Tiles (column + span s) end ss

rest_of_row-Tiles :
    (capacity column : ℕ)
    → column ≤ capacity + 1
    → Tiles column (capacity + 1) (rest_of_row capacity column)
rest_of_row-Tiles capacity column h = ground arith

segments_from-Tiles :
    (capacity column : ℕ) (bs : List TeeSheetBookingView)
    → column ≤ capacity + 1
    → Tiles column (capacity + 1) (segments_from capacity column bs)
unfolding segments_from
segments_from-Tiles capacity column [] h = rest_of_row-Tiles capacity column h
segments_from-Tiles capacity column (b ∷ bs) h = ground (
  arith,
  rest_of_row-Tiles capacity column h,
  segments_from-Tiles capacity
      (column + min (max (booking_player_count b) 1) (capacity + 1 - column)) bs,
)

-- The segments of a slot are laid out from column 1 to its capacity, without a gap, an overlap
-- or an empty segment.
pub slot_booking_segments-Tiles :
    (slot : TeeSheetSlotView) → Tiles 1 (slot_capacity slot + 1) (slot_booking_segments slot)
unfolding slot_booking_segments
slot_booking_segments-Tiles slot =
    segments_from-Tiles (slot_capacity slot) 1 slot.bookings
      (omega (arith, slot_capacity_bounds slot))

-- The seats that a layout shows as open, and the bookings with their widths.
abbrev pub open_span : List SlotBookingSegment → ℕ
open_span [] = 0
open_span (booking _ _ _ _ ∷ ss) = open_span ss
open_span (open_seats _ n ∷ ss) = n + open_span ss

abbrev pub shown : List SlotBookingSegment → List (TeeSheetBookingView × ℕ)
shown [] = []
shown (booking b _ _ n ∷ ss) = (b, n) ∷ shown ss
shown (open_seats _ _ ∷ ss) = shown ss

rest_of_row-open :
    (capacity column : ℕ) → open_span (rest_of_row capacity column) ≡ capacity + 1 - column
rest_of_row-open capacity column = ground arith

rest_of_row-shown : (capacity column : ℕ) → shown (rest_of_row capacity column) ≡ []
rest_of_row-shown capacity column = ground arith

abbrev pub HasPlayers : TeeSheetBookingView → Type 0
HasPlayers b = 0 < booking_player_count b

segments_from-open :
    (capacity column : ℕ) (bs : List TeeSheetBookingView)
    → column ≤ capacity + 1
    → All HasPlayers bs
    → open_span (segments_from capacity column bs)
      ≡ capacity + 1 - column - sum booking_player_count bs
unfolding segments_from
segments_from-open capacity column [] h p = omega (arith, rest_of_row-open capacity column)
segments_from-open capacity column (b ∷ bs) h p = ground (
  arith,
  rest_of_row-open capacity column,
  segments_from-open capacity
      (column + min (max (booking_player_count b) 1) (capacity + 1 - column)) bs,
)

-- If every booking of the slot has a player, the layout shows as open exactly the seats that
-- `slotRemainingCapacity` counts.
pub open_span-slot_booking_segments :
    (slot : TeeSheetSlotView)
    → All HasPlayers slot.bookings
    → open_span (slot_booking_segments slot) ≡ slot_remaining_capacity slot
unfolding slot_booking_segments slot_remaining_capacity
open_span-slot_booking_segments slot h = omega (
  arith,
  slot_capacity_bounds slot,
  segments_from-open (slot_capacity slot) 1 slot.bookings (omega (arith, slot_capacity_bounds slot))
      h,
)

-- The columns that a booking asks for: one at least.
abbrev pub wanted : TeeSheetBookingView → ℕ
wanted b = max (booking_player_count b) 1

segments_from-shown :
    (capacity column : ℕ) (bs : List TeeSheetBookingView)
    → column + sum wanted bs ≤ capacity + 1
    → shown (segments_from capacity column bs) ≡ map (λ b. (b, wanted b)) bs
unfolding segments_from
segments_from-shown capacity column [] h = rest_of_row-shown capacity column
segments_from-shown capacity column (b ∷ bs) h =
    let fits : min (wanted b) (capacity + 1 - column) ≡ wanted b = omega arith in
    rw fits (ground (arith, segments_from-shown capacity (column + wanted b) bs))

-- If the bookings fit into the slot, each is shown once, in order, at its own width.
pub shown-slot_booking_segments :
    (slot : TeeSheetSlotView)
    → sum wanted slot.bookings ≤ slot_capacity slot
    → shown (slot_booking_segments slot) ≡ map (λ b. (b, wanted b)) slot.bookings
unfolding slot_booking_segments
shown-slot_booking_segments slot h =
    segments_from-shown (slot_capacity slot) 1 slot.bookings (omega arith)
