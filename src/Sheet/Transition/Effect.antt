-- ===== src/Sheet/Transition/Effect.antt =====
-- What an optimistic lifecycle step does to the bookings of the day.
use greenlink.Prelude.{
  String, ◌≡◌, refl, ap, Bool, true, false, ◌||◌, List, [], ◌∷◌, map, arith, ◌==◌, ◌!=◌, string_eq,
  any, if◌then◌else◌, not,
}
use greenlink.Types.Booking.{status_eq}
use greenlink.Types.TeeSheet.{
  TeeSheetBookingView, TeeSheetSlotView, TeeSheetRow, TeeSheetDayResponse,
}
use greenlink.Sheet.Status.{Action, cancel, check_in, complete, no_show, can_quick_action}
use greenlink.Sheet.Transition.{from_status, to_status, transition_bookings}

-- The quick actions offered are exactly the lifecycle steps that the transition table allows.
pub can_quick_action-lifecycle :
    (b : TeeSheetBookingView) (action : Action)
    → can_quick_action b action ≡ (b.status == from_status action)
unfolding can_quick_action
can_quick_action-lifecycle b cancel = refl
can_quick_action-lifecycle b check_in = refl
can_quick_action-lifecycle b complete = refl
can_quick_action-lifecycle b no_show = refl

-- The intended step of one booking.
abbrev pub stepped : String → Action → TeeSheetBookingView → TeeSheetBookingView
stepped booking_id action b =
    if b.id != booking_id || b.status != from_status action
    then b
    else record b { status = to_status action }

-- The booking that the step takes: the one named, in the status that the action starts from.
abbrev pub eligible : String → Action → TeeSheetBookingView → Bool
eligible booking_id action b = not (b.id != booking_id || b.status != from_status action)

-- The bookings of a day, slot by slot.
abbrev pub slot_bookings : TeeSheetDayResponse → List (List (List TeeSheetBookingView))
slot_bookings day = map (λ row. map (λ slot. slot.bookings) row.slots) day.rows

module _ (booking_id : String) (action : Action) where
  abbrev pub any_eligible : List TeeSheetBookingView → Bool
  any_eligible bs = any (eligible booking_id action) bs

  abbrev pub slots_eligible : List TeeSheetSlotView → Bool
  slots_eligible slots = any (λ slot. any_eligible slot.bookings) slots

  abbrev pub rows_eligible : List TeeSheetRow → Bool
  rows_eligible rows = any (λ row. slots_eligible row.slots) rows

  pub transition_bookings-stepped :
      (changed : Bool) (bs : List TeeSheetBookingView)
      → (transition_bookings booking_id action changed bs).1 ≡ map (stepped booking_id action) bs
  unfolding transition_bookings
  transition_bookings-stepped changed [] = refl
  transition_bookings-stepped changed (b ∷ bs) =
      ap (λ rest. stepped booking_id action b ∷ rest)
        (transition_bookings-stepped
          (if b.id != booking_id || b.status != from_status action then changed else true) bs)

  pub transition_bookings-flag :
      (changed : Bool) (bs : List TeeSheetBookingView)
      → (transition_bookings booking_id action changed bs).0 ≡ (changed || any_eligible bs)
  unfolding transition_bookings
  transition_bookings-flag true [] = refl
  transition_bookings-flag false [] = refl
  transition_bookings-flag changed (b ∷ bs) = ground (
    arith,
    transition_bookings-flag
        (if b.id != booking_id || b.status != from_status action then changed else true) bs,
  )

  pub not-listed_eligible :
      (bs : List TeeSheetBookingView)
      → any (λ b. b.id == booking_id) bs ≡ false
      → any_eligible bs ≡ false
  not-listed_eligible [] h = refl
  not-listed_eligible (b ∷ bs) h = ground (arith, not-listed_eligible bs)

  pub stepped_not_eligible :
      (bs : List TeeSheetBookingView)
      → any_eligible bs ≡ false
      → map (stepped booking_id action) bs ≡ bs
  stepped_not_eligible [] h = refl
  stepped_not_eligible (b ∷ bs) h = ground (arith, stepped_not_eligible bs)

  -- No booking is eligible once it has been stepped: no action leaves a status as it is.
  pub not-eligible-stepped :
      (b : TeeSheetBookingView) → eligible booking_id action (stepped booking_id action b) ≡ false
  not-eligible-stepped b = go action refl
    where
      go :
          (a : Action)
          → action ≡ a
          → eligible booking_id action (stepped booking_id action b) ≡ false
      go cancel e = rw e (ground arith)
      go check_in e = rw e (ground arith)
      go complete e = rw e (ground arith)
      go no_show e = rw e (ground arith)

  pub any_eligible-stepped :
      (bs : List TeeSheetBookingView) → any_eligible (map (stepped booking_id action) bs) ≡ false
  any_eligible-stepped [] = refl
  any_eligible-stepped (b ∷ bs) = ground (arith, not-eligible-stepped b, any_eligible-stepped bs)
