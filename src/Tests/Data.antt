-- ===== src/Tests/Data.antt =====
-- A morning of one course: a full two-ball slot, a slot with one booking, and an empty slot.
use greenlink.Prelude.{ℕ, String, Bool, true, false, Option, none, some, List, [], ◌∷◌}
use greenlink.Types.Booking.{
  BookingStatus, reserved, checked_in, BookingPaymentStatus, pending, member, allowed, blocked,
  BookingParticipantSummary, BookingMoveResult,
}
use greenlink.Prelude.{◌==◌, string_eq, if◌then◌else◌}
use greenlink.Prelude.Int.{ℤ, pos}
use greenlink.Types.TeeSheet.{
  BookingRuleAppliesTo, available, TeeSheetBookingView, TeeSheetSlotView, TeeSheetRow,
  TeeSheetDayResponse,
}
use greenlink.Types.Lock.{TeeSheetLockResponse}
use greenlink.Move.{MoveParticipantVariables}
use greenlink.Walkin.{walkin, CreateWalkinBookingVariables}
use greenlink.Swap.{SwapInput}

abbrev pub person : String → String → Bool → BookingParticipantSummary
person id name primary = record {
  id = some id;
  display_name = name;
  participant_type = member;
  person_id = none;
  club_membership_id = none;
  guest_name = none;
  sort_order = none;
  is_primary = primary;
}

abbrev pub booking_of :
    String
    → BookingStatus
    → Option BookingPaymentStatus
    → String
    → List BookingParticipantSummary
    → TeeSheetBookingView
booking_of id status payment slot participants = record {
  id = id;
  status = status;
  party_size = 2;
  holes = 18;
  slot_datetime = slot;
  start_lane = none;
  cart_flag = some true;
  caddie_flag = none;
  fee_label = none;
  fee_amount = none;
  fee_currency = none;
  payment_status = payment;
  participants = participants;
}

abbrev pub slot_of : String → String → Option ℕ → List TeeSheetBookingView → TeeSheetSlotView
slot_of datetime time capacity bookings = record {
  slot_datetime = datetime;
  local_time = time;
  display_status = available;
  state_flags = [];
  occupancy = record {
    player_capacity = capacity;
    occupied_player_count = none;
    reserved_player_count = none;
    confirmed_booking_count = none;
    reserved_booking_count = none;
    remaining_player_capacity = none;
  };
  party_summary = record {
    member_count = none;
    guest_count = none;
    staff_count = none;
    total_players = none;
    has_activity = false;
  };
  policy_summary = record {
    applies_to = BookingRuleAppliesTo.staff;
    availability_status = "available";
    blocker_count = 0;
    unresolved_count = 0;
    warning_count = 0;
  };
  blockers = [];
  unresolved_checks = [];
  warnings = [];
  bookings = bookings;
}

abbrev pub two_ball : TeeSheetBookingView
two_ball =
    booking_of "b1" reserved (some pending) "t1"
      (person "p1" "Ann" true ∷ person "p2" "Ben" false ∷ [])

abbrev pub single : TeeSheetBookingView
single = booking_of "b2" reserved none "t2" (person "p3" "Cas" true ∷ [])

abbrev pub played : TeeSheetBookingView
played = booking_of "b3" checked_in (some pending) "t2" []

abbrev pub small_slot : TeeSheetSlotView
small_slot = slot_of "t1" "06:30:00" (some 2) (two_ball ∷ [])

abbrev pub busy_slot : TeeSheetSlotView
busy_slot = slot_of "t2" "06:38:00" (some 4) (single ∷ played ∷ [])

abbrev pub empty_slot : TeeSheetSlotView
empty_slot = slot_of "t3" "06:46:00" none []

abbrev pub lane : TeeSheetRow
lane = record {
  row_key = "r1";
  tee_id = none;
  start_lane = none;
  label = "1st Tee";
  color_code = none;
  slots = small_slot ∷ busy_slot ∷ empty_slot ∷ [];
}

abbrev pub day_of : String → TeeSheetDayResponse
day_of course = record {
  club_id = "club";
  course_id = course;
  course_name = "Course";
  date = "2026-05-14";
  timezone = "Africa/Johannesburg";
  interval_minutes = 8;
  membership_type = BookingRuleAppliesTo.staff;
  reference_datetime = "now";
  rows = lane ∷ [];
  warnings = [];
}

abbrev pub move_ben : MoveParticipantVariables
move_ben = record {
  booking_id = "b1";
  participant_id = "p2";
  target_slot_datetime = "t2";
  source_slot_datetime = "t1";
  display_name = "Ben";
}

abbrev pub party_of_three : CreateWalkinBookingVariables ℕ
party_of_three = record {
  entry = record {
    id = "w1";
    name = "Dlamini";
    party = 3;
    since = "06:10";
    note = "";
    source = walkin;
    fee_amount = none;
    fee_currency = none;
    suggestion = none;
  };
  slot_datetime = "t3";
  course_id = "c1";
}

abbrev pub swap_ben_cas : SwapInput
swap_ben_cas = record {
  participant_a = record {
    booking_id = "b1";
    participant_id = "p2";
    display_name = "Ben";
    party_size = 2;
    slot_datetime = "t1";
    row_key = "06:30";
  };
  participant_b = record {
    booking_id = "b2";
    participant_id = "p3";
    display_name = "Cas";
    party_size = 1;
    slot_datetime = "t2";
    row_key = "06:38";
  };
}

abbrev pub moved : BookingMoveResult
moved = record {
  booking_id = "b1";
  decision = allowed;
  transition_applied = true;
  booking = none;
  failures = [];
}

abbrev pub refused : BookingMoveResult
refused = record moved { decision = blocked }

abbrev pub lock_of : String → String → TeeSheetLockResponse
lock_of id slot = record {
  id = id;
  club_id = "club";
  course_id = "c1";
  slot_datetime = slot;
  holder_user_id = "me";
  holder_display_name = "Me";
  acquired_at = "a";
  expires_at = "e";
  remaining_seconds = 60;
}

-- Every text is read as the hour one, but "now" as the hour zero.
abbrev pub clock : String → Option ℤ
clock s = if s == "now" then some (pos 0) else some (pos 3600000)
