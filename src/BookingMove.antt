-- ===== src/BookingMove.antt =====
-- frontend/src/pages/admin-golf-tee-sheet-page.tsx: the optimistic move of a booking, or of one of
-- its participants, to the slot that it was dropped on.
pub mod Balance
pub mod Found
pub mod Unique
use greenlink.Prelude.{
  ℕ, String, Bool, true, false, ◌&&◌, ◌||◌, not, Option, none, some, List, [], ◌∷◌, ◌++◌, map,
  if◌then◌else◌, ◌==◌, ◌!=◌, string_eq, option_eq, filter, find?, any, length, ltb,
}
use greenlink.Prelude.Text.{◌++ₛ◌, is_set}
use greenlink.Types.Booking.{StartLane, lane_eq, BookingParticipantSummary}
use greenlink.Types.TeeSheet.{
  TeeSheetBookingView, TeeSheetSlotView, TeeSheetRow, TeeSheetDayResponse,
}
use greenlink.Sheet.Occupancy.{get_or, normalize_optimistic_participants, update_slot_from_bookings}

pub record LaneSlot : Type 0 where
  pub color_code : Option String
  pub lane_label : String
  pub row_key : String
  pub row_label : String
  pub slot : TeeSheetSlotView
  pub start_lane : Option StartLane
  pub tee_id : Option String

-- `sourceBooking`, where it has been set, and the `movingParticipant` set with it.
pub record Source : Type 0 where
  pub booking : TeeSheetBookingView
  pub participant : Option BookingParticipantSummary

abbrev pub present : Option BookingParticipantSummary → List BookingParticipantSummary
present none = []
present (some p) = p ∷ []

module _ (booking_id : String) (participant_id : Option String) where
  abbrev pub source_of : TeeSheetBookingView → Source
  source_of booking = record {
    booking = booking;
    participant =
        if is_set participant_id
        then find? (λ p. p.id == participant_id) booking.participants
        else none;
  }

  abbrev pub found_or : Option Source → Option TeeSheetBookingView → Option Source
  found_or found none = found
  found_or found (some booking) = some (source_of booking)

  -- The loops over the rows and slots: a later slot overwrites what an earlier one has found.
  pub source_in_slots : Option Source → List TeeSheetSlotView → Option Source
  source_in_slots found [] = found
  source_in_slots found (slot ∷ slots) =
      source_in_slots (found_or found (find? (λ b. b.id == booking_id) slot.bookings)) slots

  pub source_in_rows : Option Source → List TeeSheetRow → Option Source
  source_in_rows found [] = found
  source_in_rows found (row ∷ rows) = source_in_rows (source_in_slots found row.slots) rows

  abbrev pub is_split : Source → Bool
  is_split source =
      is_set participant_id
      && ltb 0 (length (present source.participant))
      && ltb 1 (length source.booking.participants)

  unfoldable pub booking_to_move : LaneSlot → Source → TeeSheetBookingView
  booking_to_move target source =
      if is_split source
      then record source.booking {
        id = source.booking.id ++ₛ ":optimistic:" ++ₛ get_or participant_id "";
        party_size = 1;
        slot_datetime = target.slot.slot_datetime;
        start_lane = target.start_lane;
        participants = normalize_optimistic_participants (present source.participant);
      }
      else record source.booking {
        slot_datetime = target.slot.slot_datetime;
        start_lane = target.start_lane;
      }

  -- What stays of the bookings of a slot.
  pub staying_bookings : Bool → List TeeSheetBookingView → List TeeSheetBookingView
  staying_bookings split [] = []
  staying_bookings split (b ∷ bs) =
      let later = staying_bookings split bs in
      let remaining = filter (λ p. p.id != participant_id) b.participants in
      if b.id != booking_id
      then b ∷ later
      else if not split || not (is_set participant_id)
      then later
      else elim remaining [
        | [] ↦ later
        | p ∷ ps ↦
            record b {
              party_size = length (p ∷ ps);
              participants = normalize_optimistic_participants (p ∷ ps);
            }
            ∷ later
      ]

  abbrev pub is_target : LaneSlot → Option StartLane → TeeSheetSlotView → Bool
  is_target target lane slot =
      lane == target.start_lane && slot.slot_datetime == target.slot.slot_datetime

  unfoldable pub move_in_slot :
      LaneSlot → Source → Option StartLane → TeeSheetSlotView → TeeSheetSlotView
  unfolding staying_bookings booking_to_move
  move_in_slot target source lane slot =
      let next = staying_bookings (is_split source) slot.bookings in
      if not (any (λ b. b.id == booking_id) slot.bookings) && not (is_target target lane slot)
      then slot
      else update_slot_from_bookings slot
          (if is_target target lane slot then next ++ booking_to_move target source ∷ [] else next)

  abbrev pub move_in_day : LaneSlot → Source → TeeSheetDayResponse → TeeSheetDayResponse
  move_in_day target source day = record day {
    rows =
        map {A = TeeSheetRow} {B = TeeSheetRow}
          (λ row. record row { slots = map (move_in_slot target source row.start_lane) row.slots })
          day.rows;
  }

  abbrev pub move_found : LaneSlot → TeeSheetDayResponse → Option Source → TeeSheetDayResponse
  move_found target day none = day
  move_found target day (some source) = move_in_day target source day

  unfoldable pub optimistically_move_booking :
      Option TeeSheetDayResponse → LaneSlot → Option TeeSheetDayResponse
  unfolding source_in_slots source_in_rows
  optimistically_move_booking none target = none
  optimistically_move_booking (some day) target =
      some (move_found target day (source_in_rows none day.rows))
