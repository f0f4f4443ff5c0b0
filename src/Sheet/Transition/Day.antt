-- ===== src/Sheet/Transition/Day.antt =====
-- What an optimistic lifecycle step does to the whole day, although its flag is shared by all slots.
use greenlink.Prelude.{
  String, ◌≡◌, refl, ap, ◌∙◌, Bool, true, false, ◌||◌, Option, none, some, List, [], ◌∷◌, map,
  arith, ◌==◌, string_eq, any, Bool-cases, inl, inr,
}
use greenlink.Types.TeeSheet.{
  TeeSheetBookingView, TeeSheetSlotView, TeeSheetRow, TeeSheetDayResponse,
}
use greenlink.Sheet.Occupancy.{update_slot_from_bookings}
use greenlink.Sheet.Status.{Action}
use greenlink.Sheet.Transition.{
  transition_bookings, transition_slots, transition_rows, transition_day,
  optimistically_transition_booking,
}
use greenlink.Sheet.Transition.Effect.{
  stepped, slot_bookings, any_eligible, slots_eligible, rows_eligible, transition_bookings-stepped,
  transition_bookings-flag, not-listed_eligible, stepped_not_eligible, any_eligible-stepped,
}

module _ (booking_id : String) (action : Action) where
  transition_slots-flag :
      (changed : Bool) (slots : List TeeSheetSlotView)
      → (transition_slots booking_id action changed slots).0
        ≡ (changed || slots_eligible booking_id action slots)
  unfolding transition_slots
  transition_slots-flag true [] = refl
  transition_slots-flag false [] = refl
  transition_slots-flag changed (slot ∷ slots) =
      elim (Bool-cases (any (λ b. b.id == booking_id) slot.bookings)) [
        | inl listed ↦ ground (
          arith,
          transition_bookings-flag booking_id action changed slot.bookings,
          transition_slots-flag (transition_bookings booking_id action changed slot.bookings).0
              slots,
        )
        | inr absent ↦ ground (
          arith,
          not-listed_eligible booking_id action slot.bookings absent,
          transition_slots-flag changed slots,
        )
      ]

  transition_slots-stepped :
      (changed : Bool) (slots : List TeeSheetSlotView)
      → map (λ slot. slot.bookings) (transition_slots booking_id action changed slots).1
        ≡ map (λ slot. map (stepped booking_id action) slot.bookings) slots
  unfolding transition_slots update_slot_from_bookings
  transition_slots-stepped changed [] = refl
  transition_slots-stepped changed (slot ∷ slots) =
      elim (Bool-cases (any (λ b. b.id == booking_id) slot.bookings)) [
        | inl listed ↦ ground (
          arith,
          transition_bookings-flag booking_id action changed slot.bookings,
          transition_bookings-stepped booking_id action changed slot.bookings,
          stepped_not_eligible booking_id action slot.bookings,
          transition_slots-stepped (transition_bookings booking_id action changed slot.bookings).0
              slots,
        )
        | inr absent ↦ ground (
          arith,
          not-listed_eligible booking_id action slot.bookings absent,
          stepped_not_eligible booking_id action slot.bookings,
          transition_slots-stepped changed slots,
        )
      ]

  transition_rows-flag :
      (changed : Bool) (rows : List TeeSheetRow)
      → (transition_rows booking_id action changed rows).0
        ≡ (changed || rows_eligible booking_id action rows)
  unfolding transition_rows
  transition_rows-flag true [] = refl
  transition_rows-flag false [] = refl
  transition_rows-flag changed (row ∷ rows) = ground (
    arith,
    transition_slots-flag changed row.slots,
    transition_rows-flag (transition_slots booking_id action changed row.slots).0 rows,
  )

  abbrev pub rows_bookings : List TeeSheetRow → List (List (List TeeSheetBookingView))
  rows_bookings rows = map (λ row. map (λ slot. slot.bookings) row.slots) rows

  abbrev pub rows_stepped : List TeeSheetRow → List (List (List TeeSheetBookingView))
  rows_stepped rows =
      map (λ row. map (λ slot. map (stepped booking_id action) slot.bookings) row.slots) rows

  transition_rows-stepped :
      (changed : Bool) (rows : List TeeSheetRow)
      → rows_bookings (transition_rows booking_id action changed rows).1 ≡ rows_stepped rows
  unfolding transition_rows
  transition_rows-stepped changed [] = refl
  transition_rows-stepped changed (row ∷ rows) = ground (
    arith,
    transition_slots-stepped changed row.slots,
    transition_rows-stepped (transition_slots booking_id action changed row.slots).0 rows,
  )

  slots_not_eligible :
      (slots : List TeeSheetSlotView)
      → slots_eligible booking_id action slots ≡ false
      → map (λ slot. map (stepped booking_id action) slot.bookings) slots
        ≡ map (λ slot. slot.bookings) slots
  slots_not_eligible [] h = refl
  slots_not_eligible (slot ∷ slots) h =
      ground (arith, stepped_not_eligible booking_id action slot.bookings, slots_not_eligible slots)

  rows_not_eligible :
      (rows : List TeeSheetRow)
      → rows_eligible booking_id action rows ≡ false
      → rows_stepped rows ≡ rows_bookings rows
  rows_not_eligible [] h = refl
  rows_not_eligible (row ∷ rows) h =
      ground (arith, slots_not_eligible row.slots, rows_not_eligible rows)

  transition_day-stepped :
      (day : TeeSheetDayResponse)
      → slot_bookings (transition_day booking_id action day) ≡ rows_stepped day.rows
  unfolding transition_day
  transition_day-stepped day = elim (Bool-cases (rows_eligible booking_id action day.rows)) [
    | inl some_eligible ↦
        ground (arith, transition_rows-flag false day.rows, transition_rows-stepped false day.rows)
    | inr none_eligible ↦
        ground
          (arith, transition_rows-flag false day.rows, rows_not_eligible day.rows none_eligible)
  ]

  transition_day_unchanged :
      (day : TeeSheetDayResponse)
      → rows_eligible booking_id action day.rows ≡ false
      → transition_day booking_id action day ≡ day
  unfolding transition_day
  transition_day_unchanged day h = ground (arith, transition_rows-flag false day.rows)

  -- Whether a booking is eligible can be read off the bookings alone.
  rows_eligible_of_bookings :
      (rows : List TeeSheetRow)
      → rows_eligible booking_id action rows
        ≡ any (λ slots. any (any_eligible booking_id action) slots) (rows_bookings rows)
  rows_eligible_of_bookings [] = refl
  rows_eligible_of_bookings (row ∷ rows) =
      ground (arith, slots_of row.slots, rows_eligible_of_bookings rows)
    where
      slots_of :
          (slots : List TeeSheetSlotView)
          → slots_eligible booking_id action slots
            ≡ any (any_eligible booking_id action) (map (λ slot. slot.bookings) slots)
      slots_of [] = refl
      slots_of (slot ∷ slots) =
          ap (λ rest. any_eligible booking_id action slot.bookings || rest) (slots_of slots)

  slots_stepped_not_eligible :
      (slots : List TeeSheetSlotView)
      → any
          (any_eligible booking_id action)
          (map (λ slot. map (stepped booking_id action) slot.bookings) slots)
        ≡ false
  slots_stepped_not_eligible [] = refl
  slots_stepped_not_eligible (slot ∷ slots) = ground (
    arith,
    any_eligible-stepped booking_id action slot.bookings,
    slots_stepped_not_eligible slots,
  )

  rows_stepped_not_eligible :
      (rows : List TeeSheetRow)
      → any (λ slots. any (any_eligible booking_id action) slots) (rows_stepped rows) ≡ false
  rows_stepped_not_eligible [] = refl
  rows_stepped_not_eligible (row ∷ rows) =
      ground (arith, slots_stepped_not_eligible row.slots, rows_stepped_not_eligible rows)

  transition_day_idem :
      (day : TeeSheetDayResponse)
      → transition_day booking_id action (transition_day booking_id action day)
        ≡ transition_day booking_id action day
  transition_day_idem day =
      let day' = transition_day booking_id action day in
      transition_day_unchanged day' (
        rows_eligible_of_bookings day'.rows
        ∙ (rw (transition_day-stepped day) (rows_stepped_not_eligible day.rows)))

-- The bookings of a cached day, slot by slot, and what one lifecycle step is meant to make of them.
abbrev pub bookings_of : Option TeeSheetDayResponse → List (List (List TeeSheetBookingView))
bookings_of none = []
bookings_of (some day) = slot_bookings day

abbrev pub stepped_of :
    String → Action → Option TeeSheetDayResponse → List (List (List TeeSheetBookingView))
stepped_of booking_id action none = []
stepped_of booking_id action (some day) = rows_stepped booking_id action day.rows

-- An optimistic step changes the status of the named booking where the action starts from its
-- status, in every slot that lists it, and leaves all other bookings of the day as they are.
pub bookings_of-transition :
    (booking_id : String) (action : Action) (day : Option TeeSheetDayResponse)
    → bookings_of (optimistically_transition_booking booking_id action day)
      ≡ stepped_of booking_id action day
unfolding optimistically_transition_booking
bookings_of-transition booking_id action none = refl
bookings_of-transition booking_id action (some day) = transition_day-stepped booking_id action day

-- A step that is applied a second time changes nothing.
pub transition_idem :
    (booking_id : String) (action : Action) (day : Option TeeSheetDayResponse)
    → optimistically_transition_booking booking_id action
        (optimistically_transition_booking booking_id action day)
      ≡ optimistically_transition_booking booking_id action day
unfolding optimistically_transition_booking
transition_idem booking_id action none = refl
transition_idem booking_id action (some day) = ap some (transition_day_idem booking_id action day)
