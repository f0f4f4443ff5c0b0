-- ===== src/Tests/Sheet.antt =====
-- The rules of slots and bookings at concrete slots.
use greenlink.Prelude.{◌+◌, string_eq, ◌≡◌, refl, some, [], ◌∷◌, ◌++◌, replicate, ◌-◌, length}
use greenlink.Types.Booking.{status_eq}
use greenlink.Sheet.Occupancy.{slot_capacity, slot_remaining_capacity, update_slot_from_bookings}
use greenlink.Sheet.Occupancy.Counts.{IsCounted, update_slot-IsCounted}
use greenlink.Sheet.Segments.{slot_booking_segments}
use greenlink.Sheet.Segments.Tiling.{Tiles, slot_booking_segments-Tiles}
use greenlink.Sheet.Status.{check_in}
use greenlink.Sheet.Transition.{optimistically_transition_booking}
use greenlink.Sheet.Transition.Day.{bookings_of, stepped_of, bookings_of-transition}
use greenlink.Row.{build_player_cells, free, slot_column_count}
use greenlink.Row.Cells.{filled_cells, build_player_cells_lem}
use greenlink.Tests.Data.{small_slot, busy_slot, day_of, single}

slot_booking_segments-Tiles_example :
    Tiles 1 (slot_capacity busy_slot + 1) (slot_booking_segments busy_slot)
slot_booking_segments-Tiles_example = slot_booking_segments-Tiles busy_slot

one_seat_left : slot_remaining_capacity busy_slot ≡ 1
unfolding slot_remaining_capacity
one_seat_left = refl

update_slot-IsCounted_example :
    IsCounted busy_slot (update_slot_from_bookings busy_slot (single ∷ [])) (single ∷ [])
update_slot-IsCounted_example = update_slot-IsCounted busy_slot (single ∷ [])

bookings_of-transition_example :
    bookings_of (optimistically_transition_booking "b2" check_in (some (day_of "c1")))
    ≡ stepped_of "b2" check_in (some (day_of "c1"))
bookings_of-transition_example = bookings_of-transition "b2" check_in (some (day_of "c1"))

build_player_cells_lem_example :
    build_player_cells busy_slot
    ≡ filled_cells busy_slot ++ replicate (slot_column_count - length (filled_cells busy_slot)) free
build_player_cells_lem_example = build_player_cells_lem busy_slot

small_slot_full : slot_remaining_capacity small_slot ≡ 0
unfolding slot_remaining_capacity
small_slot_full = refl
