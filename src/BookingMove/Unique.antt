-- ===== src/BookingMove/Unique.antt =====
-- A move of a booking that the day lists once, to a slot that it lists once.
use greenlink.Prelude.{
  ℕ, ap, ◌∙◌, ◌≤◌, String, ◌≡◌, refl, Bool, true, Option, none, some, List, [], ◌∷◌, arith,
  if◌then◌else◌, ◌==◌, string_eq, option_eq, filter, find?, length, sum, Option-cases, Bool-cases,
  inl, inr,
}
use greenlink.Prelude.Text.{is_set}
use greenlink.Types.Booking.{StartLane, BookingParticipantSummary}
use greenlink.Types.TeeSheet.{
  TeeSheetBookingView, TeeSheetSlotView, TeeSheetRow, TeeSheetDayResponse,
}
use greenlink.BookingMove.{
  LaneSlot, Source, source_of, is_split, booking_to_move, is_target, move_in_day,
  optimistically_move_booking, move_found,
}
use greenlink.BookingMove.Balance.{
  seats_of_rows, leaving, arrivals, arriving, rows_balance, listed, listed-normalize, listed-filter,
}
use greenlink.BookingMove.Found.{
  one_of_two, copies_in_rows, targets_in_rows, listings_in_rows, leaving_rows, leaving_slots,
  rows-IsOnly,
}

-- How often a day lists a participant.
abbrev pub seats_in : Option String → Option TeeSheetDayResponse → ℕ
seats_in k none = 0
seats_in k (some day) = seats_of_rows k day.rows

empty {ℓ} : {A : Type ℓ} (xs : List A) → length xs ≡ 0 → xs ≡ []
empty [] h = refl
empty (x ∷ xs) h = absurd (omega arith)

-- The only participant with an id is the one that is found.
find-filter :
    (o : Option String) (p : BookingParticipantSummary) (ps : List BookingParticipantSummary)
    → find? (λ q. q.id == o) ps ≡ some p
    → length (filter (λ q. q.id == o) ps) ≤ 1
    → filter (λ q. q.id == o) ps ≡ p ∷ []
find-filter o p [] h few = absurd cc
find-filter o p (q ∷ ps) h few = elim (Bool-cases (q.id == o)) [
  | inl same ↦
      let first : q ≡ p = ground (arith, same) in
      let alone : length (filter (λ q. q.id == o) ps) ≡ 0 = ground (arith, same) in
      rw same (λ i. first i ∷ empty (filter (λ q. q.id == o) ps) alone i)
  | inr other ↦ rw other (find-filter o p ps (ground (arith, other)) (ground (arith, other)))
]

module _ (booking_id : String) (participant_id : Option String) where
  module _ (target : LaneSlot) (source : Source) where
    abbrev slots_target : Option StartLane → List TeeSheetSlotView → ℕ
    slots_target lane slots =
        sum (λ slot. if is_target booking_id participant_id target lane slot then 1 else 0) slots

    abbrev slots_arriving : Option String → Option StartLane → List TeeSheetSlotView → ℕ
    slots_arriving k lane slots =
        sum (arriving booking_id participant_id target source k lane) slots

    abbrev moved_size : Option String → ℕ
    moved_size k = listed k (booking_to_move booking_id participant_id target source).participants

    one_slot_arrives :
        (k : Option String) (lane : Option StartLane) (slots : List TeeSheetSlotView)
        → (slots_target lane slots ≡ 0 → slots_arriving k lane slots ≡ 0)
          × (slots_target lane slots ≡ 1 → slots_arriving k lane slots ≡ moved_size k)
    one_slot_arrives k lane [] = (λ z. refl, λ o. absurd (omega arith))
    one_slot_arrives k lane (slot ∷ slots) =
        let later = one_slot_arrives k lane slots in
        (λ z. ground (arith, later.0), λ o. ground (arith, later.0, later.1))

    one_arrives :
        (k : Option String) (rows : List TeeSheetRow)
        → (targets_in_rows booking_id participant_id target rows ≡ 0
            → arrivals booking_id participant_id target source k rows ≡ 0)
          × (targets_in_rows booking_id participant_id target rows ≡ 1
              → arrivals booking_id participant_id target source k rows ≡ moved_size k)
    one_arrives k [] = (λ z. refl, λ o. absurd (omega arith))
    one_arrives k (row ∷ rows) =
        let here = one_slot_arrives k row.start_lane row.slots in
        let later = one_arrives k rows in
        (
          λ z. omega (arith, here.0 (omega arith), later.0 (omega arith)),
          λ o.
              elim (one_of_two (slots_target row.start_lane row.slots)
                (targets_in_rows booking_id participant_id target rows) o) [
                  | inl (h, l) ↦ omega (arith, here.0 h, later.1 l)
                  | inr (h, l) ↦ omega (arith, here.1 h, later.0 l)
                ],
        )

  leaving-listed :
      (k : Option String) (split : Bool) (b : TeeSheetBookingView)
      → is_split booking_id participant_id (source_of booking_id participant_id b) ≡ split
      → (b.id == booking_id) ≡ true
      → (is_set participant_id ≡ true
          → length (filter (λ p. p.id == participant_id) b.participants) ≤ 1)
      → (target : LaneSlot)
      → leaving booking_id participant_id k split b
        ≡ listed k
            (booking_to_move booking_id participant_id target
              (source_of booking_id participant_id b)).participants
  unfolding booking_to_move
  leaving-listed k split b e named h target =
      elim (Option-cases (find? (λ p. p.id == participant_id) b.participants)) [
        | inl missing ↦ ground arith
        | inr (p, there) ↦ elim (Bool-cases (is_set participant_id)) [
          | inl set ↦
              let one = find-filter participant_id p b.participants there (h set) in
              ground (arith, set, one, ap (listed k) one, listed-normalize k (p ∷ []))
          | inr unset ↦ ground (arith, unset)
        ]
      ]

  leaving-listings_bookings :
      (bs : List TeeSheetBookingView)
      → is_set participant_id ≡ true
      → sum (leaving booking_id participant_id participant_id true) bs
        ≡ sum
            (λ b.
              if b.id == booking_id
              then length (filter (λ p. p.id == participant_id) b.participants)
              else 0)
            bs
  leaving-listings_bookings [] h = refl
  leaving-listings_bookings (b ∷ bs) h =
      ground (arith, leaving-listings_bookings bs, listed-filter participant_id b.participants)

  leaving-listings_slots :
      (slots : List TeeSheetSlotView)
      → is_set participant_id ≡ true
      → leaving_slots booking_id participant_id participant_id true slots
        ≡ sum
            (λ slot.
              sum
                (λ b.
                  if b.id == booking_id
                  then length (filter (λ p. p.id == participant_id) b.participants)
                  else 0)
                slot.bookings)
            slots
  leaving-listings_slots [] h = refl
  leaving-listings_slots (slot ∷ slots) h =
      omega (arith, leaving-listings_bookings slot.bookings h, leaving-listings_slots slots h)

  leaving-listings :
      (rows : List TeeSheetRow)
      → is_set participant_id ≡ true
      → leaving_rows booking_id participant_id participant_id true rows
        ≡ listings_in_rows booking_id participant_id rows
  leaving-listings [] h = refl
  leaving-listings (row ∷ rows) h =
      omega (arith, leaving-listings_slots row.slots h, leaving-listings rows h)

  -- If the day lists the booking once, has the target slot once and lists the participant to be
  -- moved at most once in the booking, then the day lists each participant as often after the move
  -- as before: none is lost, doubled or exchanged for another.
  pub seats_in-move :
      (k : Option String) (day : TeeSheetDayResponse) (target : LaneSlot)
      → copies_in_rows booking_id participant_id day.rows ≡ 1
      → targets_in_rows booking_id participant_id target day.rows ≡ 1
      → listings_in_rows booking_id participant_id day.rows ≤ 1
      → seats_in k (optimistically_move_booking booking_id participant_id (some day) target)
        ≡ seats_in k (some day)
  unfolding optimistically_move_booking
  seats_in-move k day target once one listed_once =
      let only = rows-IsOnly booking_id participant_id none day.rows once in
      let source = source_of booking_id participant_id only.booking in
      let split = is_split booking_id participant_id source in
      let found : optimistically_move_booking booking_id participant_id (some day) target
          ≡ some (move_in_day booking_id participant_id target source day) =
        ap (λ s. some (move_found booking_id participant_id target day s)) only.is_found in
      ap (seats_in k) found
      ∙ omega (
        arith,
        rows_balance booking_id participant_id target source k day day.rows,
        only.leaves k split,
        leaving-listed k split only.booking refl only.named
            (λ set. ground (
              arith,
              only.named,
              only.leaves participant_id true,
              leaving-listings day.rows set,
              listed-filter participant_id only.booking.participants,
            ))
            target,
        (one_arrives target source k day.rows).1 one,
      )
