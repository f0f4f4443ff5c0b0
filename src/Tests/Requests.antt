-- ===== src/Tests/Requests.antt =====
-- The check-in and the no-show requests at a concrete session.
use greenlink.Prelude.{String, true, none, some, []}
use greenlink.Types.Booking.{allowed, BookingLifecycleMutationResult}
use greenlink.Types.TeeSheet.{BookingRuleAppliesTo}
use greenlink.Cache.{DayKey}
use greenlink.Move.{ok}
use greenlink.Lifecycle.{LifecycleParams, Answer}

abbrev session : LifecycleParams
session = record {
  access_token = some "token";
  selected_club_id = some "club";
  selected_date = "2026-05-14";
  membership_type = BookingRuleAppliesTo.staff;
  tee_id = none;
  course_id = some "c1";
}

abbrev checked : BookingLifecycleMutationResult
checked = record {
  booking_id = "b2";
  decision = allowed;
  transition_applied = true;
  booking = none;
  failures = [];
}

abbrev backend : String → Answer
backend id = ok checked

abbrev session_key : DayKey
session_key = record {
  club_id = "club";
  course_id = "c1";
  day = "2026-05-14";
  membership_type = BookingRuleAppliesTo.staff;
  tee_id = "all-tees";
  interval_minutes = none;
}
