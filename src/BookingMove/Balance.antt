-- ===== src/BookingMove/Balance.antt =====
-- Who leaves and who arrives in a move of a booking.
use greenlink.Prelude.{
  ℕ, ◌+◌, String, ◌≡◌, refl, Bool, false, ◌||◌, not, Option, List, [], ◌∷◌, map, arith,
  if◌then◌else◌, ◌==◌, ◌!=◌, string_eq, option_eq, filter, any, length, sum, sum-append, map_from,
}
use greenlink.Prelude.Text.{is_set}
use greenlink.Types.Booking.{StartLane, BookingParticipantSummary}
use greenlink.Types.TeeSheet.{
  TeeSheetBookingView, TeeSheetSlotView, TeeSheetRow, TeeSheetDayResponse,
}
use greenlink.Sheet.Occupancy.{normalize_optimistic_participants, update_slot_from_bookings}
use greenlink.BookingMove.{
  LaneSlot, Source, is_split, booking_to_move, staying_bookings, is_target, move_in_slot,
  move_in_day,
}

-- How often a list has a participant, how often the bookings of a slot have it, and those of a day.
abbrev pub listed : Option String → List BookingParticipantSummary → ℕ
listed k ps = sum (λ p. if p.id == k then 1 else 0) ps

abbrev pub seats : Option String → List TeeSheetBookingView → ℕ
seats k bs = sum (λ b. listed k b.participants) bs

abbrev pub seats_of_rows : Option String → List TeeSheetRow → ℕ
seats_of_rows k rows = sum (λ row. sum (λ slot. seats k slot.bookings) row.slots) rows

listed-map_from :
    (k : Option String) (f : BookingParticipantSummary → ℕ → BookingParticipantSummary)
    → ((p : BookingParticipantSummary) (i : ℕ) → (f p i).id ≡ p.id)
    → (i : ℕ) (ps : List BookingParticipantSummary) → listed k (map_from f i ps) ≡ listed k ps
listed-map_from k f same i [] = refl
listed-map_from k f same i (p ∷ ps) =
    rw (same p i) (omega (arith, listed-map_from k f same (i + 1) ps))

pub listed-normalize :
    (k : Option String) (ps : List BookingParticipantSummary)
    → listed k (normalize_optimistic_participants ps) ≡ listed k ps
unfolding normalize_optimistic_participants
listed-normalize k ps = listed-map_from k _ (λ p i. refl) 0 ps

listed-filter_not :
    (k o : Option String) (ps : List BookingParticipantSummary)
    → listed k (filter (λ p. p.id != o) ps) + listed k (filter (λ p. p.id == o) ps) ≡ listed k ps
listed-filter_not k o [] = refl
listed-filter_not k o (p ∷ ps) = ground (arith, listed-filter_not k o ps)

-- The participants with an id are listed under that id.
pub listed-filter :
    (o : Option String) (ps : List BookingParticipantSummary)
    → listed o (filter (λ p. p.id == o) ps) ≡ length (filter (λ p. p.id == o) ps)
listed-filter o [] = refl
listed-filter o (p ∷ ps) = ground (arith, listed-filter o ps)

module _ (booking_id : String) (participant_id : Option String) where
  -- The participants of a booking that the move takes away.
  abbrev pub leaving : Option String → Bool → TeeSheetBookingView → ℕ
  leaving k split b =
      if b.id != booking_id
      then 0
      else if not split || not (is_set participant_id)
      then listed k b.participants
      else listed k (filter (λ p. p.id == participant_id) b.participants)

  staying_bookings-seats :
      (k : Option String) (split : Bool) (bs : List TeeSheetBookingView)
      → seats k (staying_bookings booking_id participant_id split bs) + sum (leaving k split) bs
        ≡ seats k bs
  unfolding staying_bookings
  staying_bookings-seats k split [] = refl
  staying_bookings-seats k split (b ∷ bs) = ground (
    arith,
    staying_bookings-seats k split bs,
    listed-filter_not k participant_id b.participants,
    listed-normalize k (filter (λ p. p.id != participant_id) b.participants),
  )

  none_leave :
      (k : Option String) (split : Bool) (bs : List TeeSheetBookingView)
      → any (λ b. b.id == booking_id) bs ≡ false
      → sum (leaving k split) bs ≡ 0
  none_leave k split [] h = refl
  none_leave k split (b ∷ bs) h = ground (arith, none_leave k split bs)

  module _ (target : LaneSlot) (source : Source) where
    -- The participants that arrive at a slot.
    abbrev pub arriving : Option String → Option StartLane → TeeSheetSlotView → ℕ
    arriving k lane slot =
        if is_target booking_id participant_id target lane slot
        then listed k (booking_to_move booking_id participant_id target source).participants
        else 0

    move_in_slot-seats :
        (k : Option String) (lane : Option StartLane) (slot : TeeSheetSlotView)
        → seats k (move_in_slot booking_id participant_id target source lane slot).bookings
            + sum (leaving k (is_split booking_id participant_id source)) slot.bookings
          ≡ seats k slot.bookings + arriving k lane slot
    unfolding move_in_slot update_slot_from_bookings
    move_in_slot-seats k lane slot = ground (
      arith,
      none_leave k (is_split booking_id participant_id source) slot.bookings,
      staying_bookings-seats k (is_split booking_id participant_id source) slot.bookings,
      sum-append (λ b. listed k b.participants)
          (staying_bookings booking_id participant_id (is_split booking_id participant_id source)
            slot.bookings)
          (booking_to_move booking_id participant_id target source ∷ []),
    )

    abbrev pub departures : Option String → List TeeSheetRow → ℕ
    departures k rows =
        sum
          (λ row.
            sum (λ slot. sum (leaving k (is_split booking_id participant_id source)) slot.bookings)
              row.slots)
          rows

    abbrev pub arrivals : Option String → List TeeSheetRow → ℕ
    arrivals k rows = sum (λ row. sum (arriving k row.start_lane) row.slots) rows

    slots_balance :
        (k : Option String) (lane : Option StartLane) (slots : List TeeSheetSlotView)
        → sum
              (λ slot. seats k slot.bookings)
              (map (move_in_slot booking_id participant_id target source lane) slots)
            + sum
                (λ slot. sum (leaving k (is_split booking_id participant_id source)) slot.bookings)
                slots
          ≡ sum (λ slot. seats k slot.bookings) slots + sum (arriving k lane) slots
    slots_balance k lane [] = refl
    slots_balance k lane (slot ∷ slots) =
        omega (arith, move_in_slot-seats k lane slot, slots_balance k lane slots)

    pub rows_balance :
        (k : Option String) (day : TeeSheetDayResponse) (rows : List TeeSheetRow)
        → seats_of_rows k
              (move_in_day booking_id participant_id target source
                (record day { rows = rows })).rows
            + departures k rows
          ≡ seats_of_rows k rows + arrivals k rows
    rows_balance k day [] = refl
    rows_balance k day (row ∷ rows) =
        omega (arith, slots_balance k row.start_lane row.slots, rows_balance k day rows)
