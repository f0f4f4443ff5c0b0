-- ===== src/Lanes.antt =====
-- frontend/src/pages/admin-golf-tee-sheet-page.tsx: the slots of several tees at one time, merged
-- into the one that the grid shows.
pub mod Merge
use greenlink.Prelude.{
  ℕ, String, Bool, true, false, ◌&&◌, ◌||◌, Option, none, some, List, [], ◌∷◌, ◌++◌, map,
  if◌then◌else◌, ◌==◌, string_eq, option_eq, length, ltb,
}
use greenlink.Prelude.Text.{◌++ₛ◌}
use greenlink.Types.Booking.{StartLane, hole_1, hole_10, lane_eq}
use greenlink.Types.TeeSheet.{
  TeeSheetSlotDisplayStatus, available, warning, indeterminate, display_eq, TeeSheetBookingView,
  TeeSheetSlotView, TeeSheetNotice,
}
use greenlink.Sheet.Occupancy.{can_create, update_slot_from_bookings}
use greenlink.BookingMove.{LaneSlot}

unfoldable pub lane_label : Option StartLane → String
lane_label value = if value == some hole_10 then "10th Tee" else "1st Tee"

unfoldable pub slot_surface_priority : TeeSheetSlotView → ℕ
unfolding can_create
slot_surface_priority slot =
    if ltb 0 (length slot.bookings)
    then 4
    else if can_create slot
    then 3
    else if slot.display_status == warning || slot.display_status == indeterminate
    then 2
    else if slot.display_status == available
    then 1
    else 0

-- The head of the group sorted by falling priority. The sort is stable, so it is the first one of
-- the highest priority.
pub representative : LaneSlot → List LaneSlot → LaneSlot
representative best [] = best
representative best (item ∷ items) =
    representative
      (if ltb (slot_surface_priority best.slot) (slot_surface_priority item.slot)
        then item
        else best)
      items

-- Array.from(new Map(items.map((item) => [key(item), item])).values()): a key stands where it came
-- first, with the value that came last.
module _ {A : Type 0} (key : A → String) where
  pub put : A → List A → List A
  put a [] = a ∷ []
  put a (b ∷ bs) = let later = put a bs in if key b == key a then a ∷ bs else b ∷ later

  pub by_key : List A → List A → List A
  by_key values [] = values
  by_key values (a ∷ items) = by_key (put a values) items

abbrev pub bookings_of_group : List LaneSlot → List TeeSheetBookingView
bookings_of_group [] = []
bookings_of_group (item ∷ items) = item.slot.bookings ++ bookings_of_group items

abbrev pub warnings_of_group : List LaneSlot → List TeeSheetNotice
warnings_of_group [] = []
warnings_of_group (item ∷ items) = item.slot.warnings ++ warnings_of_group items

-- The group is not empty: it is `first ∷ rest`.
unfoldable pub merge_lane_slot_group : LaneSlot → List LaneSlot → LaneSlot
unfolding representative by_key put lane_label
merge_lane_slot_group first rest =
    let chosen = representative first rest in
    let bookings = by_key (λ b. b.id) [] (bookings_of_group (first ∷ rest)) in
    let warnings =
      by_key (λ w. w.code ++ₛ ":" ++ₛ w.message) [] (warnings_of_group (first ∷ rest)) in
    record chosen {
      color_code = none;
      lane_label = lane_label chosen.start_lane;
      row_label = lane_label chosen.start_lane;
      slot = record (update_slot_from_bookings chosen.slot bookings) { warnings = warnings };
    }
