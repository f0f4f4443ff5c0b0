-- ===== src/Sheet/Transition.antt =====
-- sheet-shared.tsx: the lifecycle of a booking, and its optimistic step on the cached day.
pub mod Effect
pub mod Day
use greenlink.Prelude.{
  String, Bool, true, false, ◌||◌, Option, none, some, List, [], ◌∷◌, if◌then◌else◌, ◌==◌, ◌!=◌,
  string_eq, any,
}
use greenlink.Types.Booking.{BookingStatus, status_eq}
use greenlink.Types.TeeSheet.{
  TeeSheetBookingView, TeeSheetSlotView, TeeSheetRow, TeeSheetDayResponse,
}
use greenlink.Sheet.Occupancy.{update_slot_from_bookings}
use greenlink.Sheet.Status.{Action, cancel, check_in, complete, no_show}

-- LIFECYCLE_TRANSITIONS[action]
abbrev pub from_status : Action → BookingStatus
from_status cancel = BookingStatus.reserved
from_status check_in = BookingStatus.reserved
from_status complete = BookingStatus.checked_in
from_status no_show = BookingStatus.reserved

abbrev pub to_status : Action → BookingStatus
to_status cancel = BookingStatus.cancelled
to_status check_in = BookingStatus.checked_in
to_status complete = BookingStatus.completed
to_status no_show = BookingStatus.no_show

-- The loops carry the variable `changed`, which the source declares outside all of them: once a
-- booking has changed it stays set for the slots and rows behind.
module _ (booking_id : String) (action : Action) where
  pub transition_bookings : Bool → List TeeSheetBookingView → Bool × List TeeSheetBookingView
  transition_bookings changed [] = (changed, [])
  transition_bookings changed (b ∷ bs) =
      let kept = b.id != booking_id || b.status != from_status action in
      let (changed', bs') = transition_bookings (if kept then changed else true) bs in
      (changed', (if kept then b else record b { status = to_status action }) ∷ bs')

  pub transition_slots : Bool → List TeeSheetSlotView → Bool × List TeeSheetSlotView
  transition_slots changed [] = (changed, [])
  transition_slots changed (slot ∷ slots) =
      let listed = any (λ b. b.id == booking_id) slot.bookings in
      let (changed', next) =
        if listed then transition_bookings changed slot.bookings else (changed, slot.bookings) in
      let (changed'', slots') = transition_slots changed' slots in
      (
        changed'',
        (if listed then (if changed' then update_slot_from_bookings slot next else slot) else slot)
            ∷ slots',
      )

  pub transition_rows : Bool → List TeeSheetRow → Bool × List TeeSheetRow
  transition_rows changed [] = (changed, [])
  transition_rows changed (row ∷ rows) =
      let (changed', slots) = transition_slots changed row.slots in
      let (changed'', rows') = transition_rows changed' rows in
      (changed'', record row { slots = slots } ∷ rows')

  pub transition_day : TeeSheetDayResponse → TeeSheetDayResponse
  transition_day day =
      let (changed, rows) = transition_rows false day.rows in
      if changed then record day { rows = rows } else day

  unfoldable pub optimistically_transition_booking :
      Option TeeSheetDayResponse → Option TeeSheetDayResponse
  unfolding transition_bookings transition_slots transition_rows transition_day
  optimistically_transition_booking none = none
  optimistically_transition_booking (some day) = some (transition_day day)
