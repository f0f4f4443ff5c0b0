-- ===== src/GolfPage/Slots/Grouped.antt =====
-- What the grid keeps of the slots of a day.
use greenlink.Prelude.{◌≤◌, ◌≡◌, String, Bool, Option, if◌then◌else◌, ◌==◌, string_eq, any, sum}
use greenlink.Prelude.Int.{ℤ}
use greenlink.Types.TeeSheet.{TeeSheetDayResponse}
use greenlink.BookingMove.{LaneSlot}
use greenlink.Lanes.Merge.{lists_key, id_of}
use greenlink.GolfPage.Groups
use greenlink.GolfPage.Groups.{members, sort}
use greenlink.GolfPage.Slots.{lane_slot_key, all_slots, rows_of, slots, buckets}

-- Whether a slot lists a booking.
abbrev pub lists : String → LaneSlot → Bool
lists id s = lists_key id_of id s.slot.bookings

-- What the grid shows of the day `day`.
pub record IsGrid (lc : String → String → ℤ) (day : Option TeeSheetDayResponse) : Type 0 where
  pub slots_all :
      (k : String)
      → any (λ s. lane_slot_key s == k) (slots lc day)
        ≡ any (λ s. lane_slot_key s == k) (all_slots (rows_of day))
  pub slots_once :
      (k : String) → sum (λ s. if lane_slot_key s == k then 1 else 0) (slots lc day) ≤ 1
  pub slots_kept :
      (id : String) → any (lists id) (slots lc day) ≡ any (lists id) (all_slots (rows_of day))
  pub buckets_all :
      (k : String)
      → any (λ b. b.slot_datetime == k) (buckets lc day)
        ≡ any (λ s. s.slot.slot_datetime == k) (slots lc day)
  pub buckets_once :
      (k : String) → sum (λ b. if b.slot_datetime == k then 1 else 0) (buckets lc day) ≤ 1
  pub buckets_kept :
      (id : String)
      → any (λ b. any (lists id) b.slots) (buckets lc day)
        ≡ any (lists id) (all_slots (rows_of day))
