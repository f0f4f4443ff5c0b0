-- ===== src/Sheet/Occupancy/Counts.antt =====
-- What the recomputed counts of a slot say of its bookings.
use greenlink.Prelude.{
  ℕ, ◌+◌, ◌≤◌, max, ◌≡◌, refl, some, List, [], ◌∷◌, arith, ltb, length, filter, sum, ◌==◌,
}
use greenlink.Types.Booking.{
  reserved, checked_in, BookingParticipantType, member, guest, staff, BookingParticipantSummary,
  status_eq, participant_type_eq,
}
use greenlink.Types.TeeSheet.{TeeSheetBookingView, TeeSheetSlotView}
use greenlink.Sheet.Occupancy.{
  get_or, slot_capacity, booking_player_count, slot_player_count, type_count, with_status,
  update_slot_from_bookings,
}

pub slot_capacity_bounds :
    (slot : TeeSheetSlotView) → (1 ≤ slot_capacity slot) × (slot_capacity slot ≤ 4)
unfolding slot_capacity
slot_capacity_bounds slot = omega arith

abbrev of_type : BookingParticipantType → List BookingParticipantSummary → ℕ
of_type t ps = length (filter (λ p. p.participant_type == t) ps)

-- Every participant has exactly one of the three types.
types_partition :
    (ps : List BookingParticipantSummary)
    → of_type member ps + of_type guest ps + of_type staff ps ≡ length ps
types_partition [] = omega arith
types_partition (p ∷ ps) = ground (arith, types_partition ps)

bookings_partition :
    (bs : List TeeSheetBookingView)
    → sum (type_count member) bs + sum (type_count guest) bs + sum (type_count staff) bs
      ≡ sum (λ b. length b.participants) bs
bookings_partition [] = omega arith
bookings_partition (b ∷ bs) = omega (arith, types_partition b.participants, bookings_partition bs)

-- The reserved and the checked-in players are disjoint shares of the players of the slot.
statuses_share :
    (bs : List TeeSheetBookingView)
    → sum booking_player_count (with_status reserved bs)
        + sum booking_player_count (with_status checked_in bs)
      ≤ sum booking_player_count bs
statuses_share [] = omega arith
statuses_share (b ∷ bs) = ground (arith, statuses_share bs)

-- The recomputed party summary counts each participant of the slot's bookings once.
pub total_players-update_slot :
    (slot : TeeSheetSlotView) (bookings : List TeeSheetBookingView)
    → (update_slot_from_bookings slot bookings).party_summary.total_players
      ≡ some (sum (λ b. length b.participants) bookings)
unfolding update_slot_from_bookings
total_players-update_slot slot bookings = ground (arith, bookings_partition bookings)

-- What an update promises of the counts of a slot, and that it keeps the rest.
pub record IsCounted (slot slot' : TeeSheetSlotView) (bookings : List TeeSheetBookingView)
    : Type 0 where
  pub bookings_set : slot'.bookings ≡ bookings
  pub capacity_kept : slot'.occupancy.player_capacity ≡ slot.occupancy.player_capacity
  pub datetime_kept : slot'.slot_datetime ≡ slot.slot_datetime
  pub status_kept : slot'.display_status ≡ slot.display_status
  pub total_counted :
      slot'.party_summary.total_players ≡ some (sum (λ b. length b.participants) bookings)
  pub activity_iff :
      slot'.party_summary.has_activity ≡ ltb 0 (sum (λ b. length b.participants) bookings)
  pub within :
      get_or slot'.occupancy.reserved_player_count 0
        + get_or slot'.occupancy.occupied_player_count 0
      ≤ slot_player_count slot'
  pub balanced :
      get_or slot'.occupancy.remaining_player_capacity 0
        + (get_or slot'.occupancy.reserved_player_count 0
            + get_or slot'.occupancy.occupied_player_count 0)
      ≡ max (get_or slot.occupancy.player_capacity 4) (
          get_or slot'.occupancy.reserved_player_count 0
          + get_or slot'.occupancy.occupied_player_count 0)

-- The updated slot has the new bookings; its party summary counts each participant of them once;
-- the reserved and the checked-in players are within the players of the slot, and with the
-- remaining capacity they make up the capacity, or exceed it with none remaining.
pub update_slot-IsCounted :
    (slot : TeeSheetSlotView) (bookings : List TeeSheetBookingView)
    → IsCounted slot (update_slot_from_bookings slot bookings) bookings
unfolding update_slot_from_bookings slot_player_count
update_slot-IsCounted slot bookings = record {
  bookings_set = refl;
  capacity_kept = refl;
  datetime_kept = refl;
  status_kept = refl;
  total_counted = ground (arith, bookings_partition bookings);
  activity_iff = ground (arith, bookings_partition bookings);
  within = omega (arith, statuses_share bookings);
  balanced = omega arith;
}
