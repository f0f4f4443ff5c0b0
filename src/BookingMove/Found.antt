-- ===== src/BookingMove/Found.antt =====
-- What a day that lists a booking once finds as the source of its move.
use greenlink.Prelude.{
  ℕ, zero, suc, ◌∙◌, ◌⊎◌, ◌+◌, String, ◌≡◌, refl, Bool, true, Option, none, some, List, [], ◌∷◌,
  arith, if◌then◌else◌, ◌==◌, string_eq, option_eq, filter, find?, length, sum, Bool-cases, inl,
  inr,
}
use greenlink.Types.TeeSheet.{TeeSheetBookingView, TeeSheetSlotView, TeeSheetRow}
use greenlink.BookingMove.{
  LaneSlot, Source, source_of, found_or, source_in_slots, source_in_rows, is_target,
}
use greenlink.BookingMove.Balance.{leaving}

pub one_of_two : (m n : ℕ) → m + n ≡ 1 → ((m ≡ 0) × (n ≡ 1)) ⊎ ((m ≡ 1) × (n ≡ 0))
one_of_two zero n h = inl (refl, omega arith)
one_of_two (suc m) n h = inr (omega arith, omega arith)

module _ (booking_id : String) (participant_id : Option String) where
  -- How often the bookings of a slot list the id.
  abbrev pub copies : List TeeSheetBookingView → ℕ
  copies bs = sum (λ b. if b.id == booking_id then 1 else 0) bs

  abbrev pub copies_in_slots : List TeeSheetSlotView → ℕ
  copies_in_slots slots = sum (λ slot. copies slot.bookings) slots

  abbrev pub copies_in_rows : List TeeSheetRow → ℕ
  copies_in_rows rows = sum (λ row. copies_in_slots row.slots) rows

  -- How often the bookings with the id list the participant.
  abbrev pub listings_in_rows : List TeeSheetRow → ℕ
  listings_in_rows rows =
      sum
        (λ row.
          sum
            (λ slot.
              sum
                (λ b.
                  if b.id == booking_id
                  then length (filter (λ p. p.id == participant_id) b.participants)
                  else 0)
                slot.bookings)
            row.slots)
        rows

  abbrev pub targets_in_rows : LaneSlot → List TeeSheetRow → ℕ
  targets_in_rows target rows =
      sum
        (λ row.
          sum
            (λ slot.
              if is_target booking_id participant_id target row.start_lane slot then 1 else 0)
            row.slots)
        rows

  abbrev pub leaving_slots : Option String → Bool → List TeeSheetSlotView → ℕ
  leaving_slots k split slots =
      sum (λ slot. sum (leaving booking_id participant_id k split) slot.bookings) slots

  abbrev pub leaving_rows : Option String → Bool → List TeeSheetRow → ℕ
  leaving_rows k split rows = sum (λ row. leaving_slots k split row.slots) rows

  absent_bookings :
      (k : Option String) (split : Bool) (bs : List TeeSheetBookingView)
      → copies bs ≡ 0
      → (find? (λ b. b.id == booking_id) bs ≡ none)
        × (sum (leaving booking_id participant_id k split) bs ≡ 0)
  absent_bookings k split [] h = (refl, refl)
  absent_bookings k split (b ∷ bs) h = ground (arith, absent_bookings k split bs)

  absent_slots :
      (k : Option String) (split : Bool) (found : Option Source) (slots : List TeeSheetSlotView)
      → copies_in_slots slots ≡ 0
      → (source_in_slots booking_id participant_id found slots ≡ found)
        × (leaving_slots k split slots ≡ 0)
  unfolding source_in_slots
  absent_slots k split found [] h = (refl, refl)
  absent_slots k split found (slot ∷ slots) h =
      let here = absent_bookings k split slot.bookings (omega arith) in
      let later = absent_slots k split found slots (omega arith) in
      (rw here.0 later.0, omega (arith, here.1, later.1))

  absent_rows :
      (k : Option String) (split : Bool) (found : Option Source) (rows : List TeeSheetRow)
      → copies_in_rows rows ≡ 0
      → (source_in_rows booking_id participant_id found rows ≡ found)
        × (leaving_rows k split rows ≡ 0)
  unfolding source_in_rows
  absent_rows k split found [] h = (refl, refl)
  absent_rows k split found (row ∷ rows) h =
      let here = absent_slots k split found row.slots (omega arith) in
      let later = absent_rows k split found rows (omega arith) in
      (rw here.0 later.0, omega (arith, here.1, later.1))

  -- The one booking is what is found and all that leaves.
  pub record IsOnly (found : Option Source) (left : Option String → Bool → ℕ) : Type 0 where
    pub booking : TeeSheetBookingView
    pub named : (booking.id == booking_id) ≡ true
    pub is_found : found ≡ some (source_of booking_id participant_id booking)
    pub leaves :
        (k : Option String) (split : Bool)
        → left k split ≡ leaving booking_id participant_id k split booking

  bookings-IsOnly :
      (found : Option Source) (bs : List TeeSheetBookingView)
      → copies bs ≡ 1
      → IsOnly
          (found_or booking_id participant_id found (find? (λ b. b.id == booking_id) bs))
          (λ k split. sum (leaving booking_id participant_id k split) bs)
  bookings-IsOnly found [] h = absurd (omega arith)
  bookings-IsOnly found (b ∷ bs) h = elim (Bool-cases (b.id == booking_id)) [
    | inl same ↦ record {
      booking = b;
      named = same;
      is_found = ground arith;
      leaves = λ k split. ground (arith, absent_bookings k split bs);
    }
    | inr other ↦
        let rest = bookings-IsOnly found bs (ground arith) in
        record {
          booking = rest.booking;
          named = rest.named;
          is_found = ground (arith, rest.is_found);
          leaves = λ k split. ground (arith, rest.leaves k split);
        }
  ]

  slots-IsOnly :
      (found : Option Source) (slots : List TeeSheetSlotView)
      → copies_in_slots slots ≡ 1
      → IsOnly
          (source_in_slots booking_id participant_id found slots)
          (λ k split. leaving_slots k split slots)
  unfolding source_in_slots
  slots-IsOnly found [] h = absurd (omega arith)
  slots-IsOnly found (slot ∷ slots) h =
      elim (one_of_two (copies slot.bookings) (copies_in_slots slots) h) [
        | inl (here, later) ↦
            let absent =
              λ (k : Option String) (split : Bool). absent_bookings k split slot.bookings here in
            let only = slots-IsOnly found slots later in
            rw (absent none true).0 (record {
              booking = only.booking;
              named = only.named;
              is_found = only.is_found;
              leaves = λ k split. omega (arith, (absent k split).1, only.leaves k split);
            })
        | inr (here, later) ↦
            let only = bookings-IsOnly found slot.bookings here in
            let absent = λ (k : Option String) (split : Bool).
              absent_slots k split
                (found_or booking_id participant_id found
                  (find? (λ b. b.id == booking_id) slot.bookings))
                slots later in
            record {
              booking = only.booking;
              named = only.named;
              is_found = (absent none true).0 ∙ only.is_found;
              leaves = λ k split. omega (arith, (absent k split).1, only.leaves k split);
            }
      ]

  pub rows-IsOnly :
      (found : Option Source) (rows : List TeeSheetRow)
      → copies_in_rows rows ≡ 1
      → IsOnly
          (source_in_rows booking_id participant_id found rows)
          (λ k split. leaving_rows k split rows)
  unfolding source_in_rows
  rows-IsOnly found [] h = absurd (omega arith)
  rows-IsOnly found (row ∷ rows) h =
      elim (one_of_two (copies_in_slots row.slots) (copies_in_rows rows) h) [
        | inl (here, later) ↦
            let absent =
              λ (k : Option String) (split : Bool). absent_slots k split found row.slots here in
            let only = rows-IsOnly found rows later in
            rw (absent none true).0 (record {
              booking = only.booking;
              named = only.named;
              is_found = only.is_found;
              leaves = λ k split. omega (arith, (absent k split).1, only.leaves k split);
            })
        | inr (here, later) ↦
            let only = slots-IsOnly found row.slots here in
            let absent = λ (k : Option String) (split : Bool).
              absent_rows k split (source_in_slots booking_id participant_id found row.slots) rows
                later in
            record {
              booking = only.booking;
              named = only.named;
              is_found = (absent none true).0 ∙ only.is_found;
              leaves = λ k split. omega (arith, (absent k split).1, only.leaves k split);
            }
      ]
