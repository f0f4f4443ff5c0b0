-- ===== src/GolfPage/Slots.antt =====
-- frontend/src/pages/admin-golf-tee-sheet-page.tsx: the slots of a day as the grid shows them.
-- `locale_compare` is the browser's `localeCompare`.
pub mod Grouped
use greenlink.Prelude.{
  ℕ, zero, String, Bool, true, false, ◌&&◌, ◌||◌, Option, none, some, List, [], ◌∷◌, ◌++◌, map, not,
  if◌then◌else◌, ◌==◌, string_eq, option_eq, filter, sum, length,
}
use greenlink.Prelude.Int.{ℤ, pos, sub_ℕ}
use greenlink.Prelude.Text.{◌++ₛ◌}
use greenlink.Types.Booking.{
  StartLane, hole_1, hole_10, lane_eq, BookingStatus, reserved, status_eq,
}
use greenlink.Types.TeeSheet.{
  TeeSheetBookingView, TeeSheetSlotView, TeeSheetRow, TeeSheetDayResponse,
}
use greenlink.Sheet.Occupancy.{get_or}
use greenlink.BookingMove.{LaneSlot}
use greenlink.Lanes.{lane_label, merge_lane_slot_group}
use greenlink.GolfPage.Groups.{Group, group, members, sort}

abbrev pub lane_order : Option StartLane → ℕ
lane_order value = if value == some hole_10 then 1 else 0

abbrev lane_text : StartLane → String
lane_text hole_1 = "hole_1"
lane_text hole_10 = "hole_10"

abbrev pub lane_group_key : Option StartLane → String
lane_group_key none = "hole_1"
lane_group_key (some lane) = lane_text lane

abbrev pub lane_slot_key : LaneSlot → String
lane_slot_key slot = lane_group_key slot.start_lane ++ₛ ":" ++ₛ slot.slot.slot_datetime

abbrev pub lane_slot : TeeSheetRow → TeeSheetSlotView → LaneSlot
lane_slot row slot = record {
  color_code = row.color_code;
  lane_label = lane_label row.start_lane;
  row_key = row.row_key;
  row_label = row.label;
  slot = slot;
  start_lane = row.start_lane;
  tee_id = row.tee_id;
}

-- rows.flatMap((row) => row.slots.map(…))
abbrev pub all_slots : List TeeSheetRow → List LaneSlot
all_slots [] = []
all_slots (row ∷ rows) = map (lane_slot row) row.slots ++ all_slots rows

abbrev pub rows_of : Option TeeSheetDayResponse → List TeeSheetRow
rows_of none = []
rows_of (some day) = day.rows

-- a || b of two differences
abbrev or_else_by : ℤ → ℤ → ℤ
or_else_by (pos zero) later = later
or_else_by first later = first

pub record Bucket : Type 0 where
  pub local_time : String
  pub slot_datetime : String
  pub slots : List LaneSlot

abbrev pub merged : Group LaneSlot → LaneSlot
merged g = merge_lane_slot_group g.first g.rest

module _ (locale_compare : String → String → ℤ) where
  abbrev pub by_lane : LaneSlot → LaneSlot → ℤ
  by_lane a b =
      or_else_by (sub_ℕ (lane_order a.start_lane) (lane_order b.start_lane))
        (locale_compare a.row_label b.row_label)

  abbrev pub by_time : LaneSlot → LaneSlot → ℤ
  by_time a b = or_else_by (locale_compare a.slot.local_time b.slot.local_time) (by_lane a b)

  unfoldable pub raw_slots : Option TeeSheetDayResponse → List LaneSlot
  raw_slots day = sort by_time (all_slots (rows_of day))

  unfoldable pub slots : Option TeeSheetDayResponse → List LaneSlot
  unfolding raw_slots
  slots day = sort by_time (map merged (group lane_slot_key (raw_slots day)))

  abbrev pub bucket_of : Group LaneSlot → Bucket
  bucket_of g = record {
    local_time = g.first.slot.local_time;
    slot_datetime = g.group_key;
    slots = sort by_lane (g.first ∷ g.rest);
  }

  unfoldable pub buckets : Option TeeSheetDayResponse → List Bucket
  unfolding slots
  buckets day = map bucket_of (group (λ s. s.slot.slot_datetime) (slots day))

abbrev pub is_reserved : TeeSheetBookingView → Bool
is_reserved booking = booking.status == reserved

abbrev pub bookings_in : (TeeSheetBookingView → Bool) → List LaneSlot → List TeeSheetBookingView
bookings_in p [] = []
bookings_in p (slot ∷ slots) = filter p slot.slot.bookings ++ bookings_in p slots

-- reservedBookingsByBucket.get(slot_datetime) ?? []
unfoldable pub reserved_bookings_by_bucket : String → List Bucket → List TeeSheetBookingView
reserved_bookings_by_bucket slot_datetime [] = []
reserved_bookings_by_bucket slot_datetime (bucket ∷ buckets) =
    let later = reserved_bookings_by_bucket slot_datetime buckets in
    if bucket.slot_datetime == slot_datetime then bookings_in is_reserved bucket.slots else later

unfoldable pub count_bookings : List LaneSlot → (TeeSheetBookingView → TeeSheetSlotView → Bool) → ℕ
count_bookings slot_rows predicate =
    sum (λ item. length (filter (λ b. predicate b item.slot) item.slot.bookings)) slot_rows
