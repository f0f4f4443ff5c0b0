-- ===== src/Move/Patch.antt =====
-- What the optimistic patch of a move makes of the day.
use greenlink.Prelude.{
  ◌≤◌, ◌-◌, max, true, length, ap, subst, Bool-cases, inl, ◌⊎◌, inr, String, ◌≡◌, ◌≢◌, refl, Bool,
  false, some, List, [], ◌∷◌, ◌++◌, arith, ◌==◌, ◌!=◌, string_eq, option_eq, eq_iff, filter, any,
  if◌then◌else◌,
}
use greenlink.Types.Booking.{BookingParticipantSummary}
use greenlink.Types.TeeSheet.{TeeSheetBookingView, TeeSheetSlotView}
use greenlink.Move.{
  MoveParticipantVariables, without_participant, optimistic_move_booking, patch_slot_with_move,
}

-- A participant of the moved booking that is still listed.
abbrev pub lists_moved : MoveParticipantVariables → TeeSheetBookingView → Bool
lists_moved v b =
    if b.id == v.booking_id then any (λ p. p.id == some v.participant_id) b.participants else false

not-any-filter :
    (id : String) (ps : List BookingParticipantSummary)
    → any (λ p. p.id == some id) (filter (λ p. p.id != some id) ps) ≡ false
not-any-filter id [] = refl
not-any-filter id (p ∷ ps) = ground (arith, not-any-filter id ps)

-- No booking of the source slot lists the moved participant any more.
pub not-lists_moved-without :
    (v : MoveParticipantVariables) (bs : List TeeSheetBookingView)
    → any (lists_moved v) (without_participant v bs) ≡ false
unfolding without_participant
not-lists_moved-without v [] = refl
not-lists_moved-without v (b ∷ bs) =
    ground (arith, not-any-filter v.participant_id b.participants, not-lists_moved-without v bs)

-- The other bookings, and the participants of the moved one, in order.
abbrev pub others : MoveParticipantVariables → List TeeSheetBookingView → List TeeSheetBookingView
others v bs = filter (λ b. b.id != v.booking_id) bs

abbrev pub staying :
    MoveParticipantVariables → List TeeSheetBookingView → List BookingParticipantSummary
staying v [] = []
staying v (b ∷ bs) =
    if b.id != v.booking_id
    then staying v bs
    else filter (λ p. p.id != some v.participant_id) b.participants ++ staying v bs

abbrev pub passengers :
    MoveParticipantVariables → List TeeSheetBookingView → List BookingParticipantSummary
passengers v [] = []
passengers v (b ∷ bs) =
    if b.id != v.booking_id then passengers v bs else b.participants ++ passengers v bs

others-without :
    (v : MoveParticipantVariables) (bs : List TeeSheetBookingView)
    → others v (without_participant v bs) ≡ others v bs
unfolding without_participant
others-without v [] = refl
others-without v (b ∷ bs) = ground (arith, others-without v bs)

passengers-without :
    (v : MoveParticipantVariables) (bs : List TeeSheetBookingView)
    → passengers v (without_participant v bs) ≡ staying v bs
unfolding without_participant
passengers-without v [] = refl
passengers-without v (b ∷ bs) = ground (arith, passengers-without v bs)

-- A booking is kept as it is, or gone from the slot where the participant was the only one left in
-- the named booking, or has one seat less, down to one, and the participant no more.
pub data Leaves (v : MoveParticipantVariables) (b : TeeSheetBookingView)
    : List TeeSheetBookingView → Type 0 where
  other : b.id ≢ v.booking_id → Leaves v b (b ∷ [])
  emptied :
      b.id ≡ v.booking_id
      → filter (λ p. p.id != some v.participant_id) b.participants ≡ []
      → Leaves v b []
  smaller :
      b.id ≡ v.booking_id
      → 1 ≤ length (filter (λ p. p.id != some v.participant_id) b.participants)
      → Leaves v b (
          record b {
            party_size = max 1 (b.party_size - 1);
            participants = filter (λ p. p.id != some v.participant_id) b.participants;
          }
          ∷ [])

-- The bookings of a slot, one by one and in order.
pub data AllLeave (v : MoveParticipantVariables)
    : List TeeSheetBookingView → List TeeSheetBookingView → Type 0 where
  done : AllLeave v [] []
  then_left :
      {b : TeeSheetBookingView} {left later late : List TeeSheetBookingView}
      → Leaves v b left
      → AllLeave v later late
      → AllLeave v (b ∷ later) (left ++ late)

List-cases {ℓ} : {A : Type ℓ} (xs : List A) → (xs ≡ []) ⊎ ((x : A) × (ys : List A) × (xs ≡ x ∷ ys))
List-cases [] = inl refl
List-cases (x ∷ xs) = inr (x, xs, refl)

without-AllLeave :
    (v : MoveParticipantVariables) (bs : List TeeSheetBookingView)
    → AllLeave v bs (without_participant v bs)
unfolding without_participant
without-AllLeave v [] = done
without-AllLeave v (b ∷ bs) =
    let later = without-AllLeave v bs in
    elim (Bool-cases (b.id != v.booking_id)) [
      | inl apart ↦
          rw apart (then_left (other (ground (arith, apart, eq_iff b.id v.booking_id))) later)
      | inr same ↦
          (let named : b.id ≡ v.booking_id = ground (arith, same, eq_iff b.id v.booking_id) in
            rw same
              (elim (List-cases (filter (λ p. p.id != some v.participant_id) b.participants)) [
                | inl gone ↦ rw gone (then_left (emptied named gone) later)
                | inr (p, ps, rest) ↦ rw rest (
                    subst
                      (λ qs. AllLeave v (b ∷ bs) (
                        record b { party_size = max 1 (b.party_size - 1); participants = qs }
                        ∷ without_participant v bs))
                      rest (then_left (smaller named (ground (arith, ap length rest))) later))
              ]))
    ]

-- What the patch makes of a slot.
pub record IsPatched (v : MoveParticipantVariables) (id : String) (slot slot' : TeeSheetSlotView)
    : Type 0 where
  pub datetime_kept : slot'.slot_datetime ≡ slot.slot_datetime
  pub occupancy_kept : slot'.occupancy ≡ slot.occupancy
  pub elsewhere :
      slot.slot_datetime ≢ v.source_slot_datetime
      → slot.slot_datetime ≢ v.target_slot_datetime
      → slot' ≡ slot
  pub arrived :
      slot.slot_datetime ≢ v.source_slot_datetime
      → slot.slot_datetime ≡ v.target_slot_datetime
      → slot'.bookings ≡ slot.bookings ++ optimistic_move_booking v id ∷ []
  pub left :
      slot.slot_datetime ≡ v.source_slot_datetime
      → AllLeave v slot.bookings slot'.bookings
        × (others v slot'.bookings ≡ others v slot.bookings)
        × (passengers v slot'.bookings ≡ staying v slot.bookings)

-- At the source slot the participant leaves the named booking, which has one seat less, down to one,
-- and is dropped where nobody else takes part in it, and nothing else changes among the bookings; at another slot with the target's time the transient booking is appended; every
-- other slot stays as it is, and so does the occupancy of all.
pub patch_slot-IsPatched :
    (v : MoveParticipantVariables) (id : String) (slot : TeeSheetSlotView)
    → IsPatched v id slot (patch_slot_with_move v id slot)
unfolding patch_slot_with_move
patch_slot-IsPatched v id slot = record {
  datetime_kept = ground arith;
  occupancy_kept = ground arith;
  elsewhere = λ s t. ground (
    arith,
    eq_iff slot.slot_datetime v.source_slot_datetime,
    eq_iff slot.slot_datetime v.target_slot_datetime,
  );
  arrived = λ s t. ground (
    arith,
    eq_iff slot.slot_datetime v.source_slot_datetime,
    eq_iff slot.slot_datetime v.target_slot_datetime,
  );
  left = λ s.
      let here : (slot.slot_datetime == v.source_slot_datetime) ≡ true =
        ground (arith, s, eq_iff slot.slot_datetime v.source_slot_datetime) in
      rw here (
        without-AllLeave v slot.bookings,
        others-without v slot.bookings,
        passengers-without v slot.bookings,
      );
}
