-- ===== src/Sheet/Occupancy.antt =====
-- sheet-shared.tsx: how many players a slot holds, and the counts that an optimistic change
-- recomputes.
pub mod Counts
use greenlink.Prelude.{
  ℕ, ◌+◌, ◌-◌, ◌<◌, min, max, String, Bool, true, false, ◌&&◌, Option, none, some, List, [], ◌∷◌,
  map, ltb, if◌then◌else◌, ◌==◌, ◌!=◌, length, filter, sum, find?, tabulate, map_from, nat_eq,
}
use greenlink.Prelude.Text.{◌++ₛ◌, show}
use greenlink.Types.Booking.{
  BookingStatus, reserved, checked_in, BookingParticipantType, member, guest, staff,
  BookingParticipantSummary, status_eq, participant_type_eq,
}
use greenlink.Types.TeeSheet.{
  TeeSheetBookingView, TeeSheetSlotView, TeeSheetSlotDisplayStatus, display_eq,
}

-- a ?? b
abbrev pub get_or {ℓ} : {A : Type ℓ} → Option A → A → A
get_or none b = b
get_or (some a) b = a

-- `slot_capacity`: the stated capacity, or 4, brought between 1 and 4.
unfoldable pub slot_capacity : TeeSheetSlotView → ℕ
slot_capacity slot = max 1 (min (get_or slot.occupancy.player_capacity 4) 4)

unfoldable pub booking_player_count : TeeSheetBookingView → ℕ
booking_player_count booking =
    if ltb 0 (length booking.participants) then length booking.participants else booking.party_size

unfoldable pub slot_player_count : TeeSheetSlotView → ℕ
unfolding booking_player_count
slot_player_count slot = sum booking_player_count slot.bookings

-- `Math.max(a - b, 0)` is the subtraction that stops at 0.
unfoldable pub slot_remaining_capacity : TeeSheetSlotView → ℕ
unfolding slot_capacity slot_player_count
slot_remaining_capacity slot = slot_capacity slot - slot_player_count slot

unfoldable pub booking_participant_names : TeeSheetBookingView → List String
unfolding show
booking_participant_names booking =
    if ltb 0 (length booking.participants)
    then map (λ p. p.display_name) booking.participants
    else tabulate (λ index. "Player " ++ₛ show (index + 1)) 0 booking.party_size

-- xs[0]
abbrev pub head? {ℓ} : {A : Type ℓ} → List A → Option A
head? [] = none
head? (x ∷ xs) = some x

abbrev pub or_else {ℓ} : {A : Type ℓ} → Option A → Option A → Option A
or_else none o = o
or_else (some a) o = some a

unfoldable pub booking_lead_participant : TeeSheetBookingView → Option BookingParticipantSummary
booking_lead_participant booking =
    or_else (find? (λ p. p.is_primary) booking.participants) (head? booking.participants)

abbrev participant_type_of : Option BookingParticipantSummary → Option BookingParticipantType
participant_type_of none = none
participant_type_of (some p) = some p.participant_type

unfoldable pub booking_primary_type : TeeSheetBookingView → Option BookingParticipantType
booking_primary_type booking =
    or_else (participant_type_of (find? (λ p. p.is_primary) booking.participants))
      (participant_type_of (head? booking.participants))

unfoldable pub normalize_optimistic_participants :
    List BookingParticipantSummary → List BookingParticipantSummary
normalize_optimistic_participants participants =
    map_from {A = BookingParticipantSummary} {B = BookingParticipantSummary}
      (λ participant index. record participant { is_primary = index == 0; sort_order = some index })
      0 participants

-- The participants of one type, and the players of the bookings in one status.
abbrev pub type_count : BookingParticipantType → TeeSheetBookingView → ℕ
type_count type booking =
    length (filter (λ participant. participant.participant_type == type) booking.participants)

abbrev pub with_status : BookingStatus → List TeeSheetBookingView → List TeeSheetBookingView
with_status status bookings = filter (λ booking. booking.status == status) bookings

-- `playerCapacity` is never null behind its `?? 4`, so the other branch of its test is dead.
unfoldable pub update_slot_from_bookings :
    TeeSheetSlotView → List TeeSheetBookingView → TeeSheetSlotView
unfolding booking_player_count
update_slot_from_bookings slot bookings =
    let player_capacity = get_or slot.occupancy.player_capacity 4 in
    let member_count = sum (type_count member) bookings in
    let guest_count = sum (type_count guest) bookings in
    let staff_count = sum (type_count staff) bookings in
    let reserved_players = sum booking_player_count (with_status reserved bookings) in
    let checked_in_players = sum booking_player_count (with_status checked_in bookings) in
    record slot {
      bookings = bookings;
      occupancy = record slot.occupancy {
        occupied_player_count = some checked_in_players;
        reserved_player_count = some reserved_players;
        confirmed_booking_count = some (length (with_status checked_in bookings));
        reserved_booking_count = some (length (with_status reserved bookings));
        remaining_player_capacity = some (player_capacity - checked_in_players - reserved_players);
      };
      party_summary = record slot.party_summary {
        member_count = some member_count;
        guest_count = some guest_count;
        staff_count = some staff_count;
        total_players = some (member_count + guest_count + staff_count);
        has_activity = ltb 0 (member_count + guest_count + staff_count);
      };
    }

unfoldable pub can_manage : TeeSheetSlotView → Bool
can_manage slot = ltb 0 (length slot.bookings)

unfoldable pub can_create : TeeSheetSlotView → Bool
unfolding slot_remaining_capacity
can_create slot =
    slot.display_status != TeeSheetSlotDisplayStatus.blocked
    && slot.display_status != TeeSheetSlotDisplayStatus.reserved
    && ltb 0 (slot_remaining_capacity slot)

unfoldable pub can_drop : TeeSheetSlotView → Bool
can_drop slot =
    slot.display_status != TeeSheetSlotDisplayStatus.blocked
    && slot.display_status != TeeSheetSlotDisplayStatus.reserved
