-- ===== src/Lifecycle.antt =====
-- frontend/src/features/tee-sheet/use-checkin-booking.ts and use-mark-no-show.ts: the two requests
-- that the keys c and x make, and the day that is refetched behind them.
use greenlink.Prelude.{
  ℕ, String, ◌≡◌, ◌≢◌, ◌↔◌, Bool, true, ◌&&◌, not, Option, none, some, arith, if◌then◌else◌,
}
use greenlink.Prelude.Text.{◌++ₛ◌, is_set}
use greenlink.Types.Booking.{
  MutationDecision, allowed, BookingLifecycleMutationFailureDetail, BookingLifecycleMutationResult,
}
use greenlink.Types.TeeSheet.{BookingRuleAppliesTo}
use greenlink.Sheet.Occupancy.{head?}
use greenlink.Cache.{DayKey, day_key}
use greenlink.Move.{Outcome, ok, err, is_allowed, decision_text}

-- The params of the two hooks, which have the same fields.
pub record LifecycleParams : Type 0 where
  pub access_token : Option String
  pub selected_club_id : Option String
  pub selected_date : String
  pub membership_type : BookingRuleAppliesTo
  pub tee_id : Option String
  pub course_id : Option String

-- A plain `Error`, a `CheckInBookingError` or a `MarkNoShowError`.
pub data LifecycleError : Type 0 where
  plain : String → LifecycleError
  check_in_error no_show_error : String → BookingLifecycleMutationResult → LifecycleError

-- The answer of the backend, an error where the request itself fails.
abbrev pub Answer : Type 0
Answer = Outcome LifecycleError BookingLifecycleMutationResult

abbrev pub failure_message :
    String → Option BookingLifecycleMutationFailureDetail → MutationDecision → String
failure_message prefix none decision = prefix ++ₛ decision_text decision
failure_message prefix (some failure) decision = failure.message

abbrev pub has_session : LifecycleParams → Bool
has_session p = is_set p.access_token && is_set p.selected_club_id

unfoldable pub check_in_fn : LifecycleParams → (String → Answer) → String → Answer
check_in_fn p check_in_booking booking_id =
    if not (has_session p)
    then err (plain "Cannot check in booking without an active session.")
    else elim (check_in_booking booking_id) [
      | err e ↦ err e
      | ok result ↦
          if is_allowed result.decision
          then ok result
          else err (
              check_in_error (failure_message "Check-in " (head? result.failures) result.decision)
                result)
    ]

unfoldable pub no_show_fn : LifecycleParams → (String → Answer) → String → Answer
no_show_fn p mark_booking_no_show booking_id =
    if not (has_session p)
    then err (plain "Cannot mark no-show without an active session.")
    else elim (mark_booking_no_show booking_id) [
      | err e ↦ err e
      | ok result ↦
          if is_allowed result.decision
          then ok result
          else err (
              no_show_error (failure_message "No-show " (head? result.failures) result.decision)
                result)
    ]

abbrev settled_key : Option String → Option String → LifecycleParams → Option DayKey
settled_key (some club) (some course) p =
    if is_set (some club) && is_set (some course)
    then some (day_key club course p.selected_date p.membership_type p.tee_id none)
    else none
settled_key _ _ p = none

-- `onSettled`: the key of the day that is refetched, if one is.
unfoldable pub on_settled : LifecycleParams → Option DayKey
unfolding day_key
on_settled p = settled_key p.selected_club_id p.course_id p

-- A check-in and a no-show succeed exactly if there is a session and the backend allows them.
pub lifecycle_fns-ok :
    (p : LifecycleParams) (request : String → Answer) (id : String)
    (r : BookingLifecycleMutationResult)
    → ((check_in_fn p request id ≡ ok r)
        ↔ ((has_session p ≡ true) × (request id ≡ ok r) × (r.decision ≡ allowed)))
      × ((no_show_fn p request id ≡ ok r)
          ↔ ((has_session p ≡ true) × (request id ≡ ok r) × (r.decision ≡ allowed)))
unfolding check_in_fn no_show_fn
lifecycle_fns-ok p request id r = (ground arith, ground arith)

settled_key-default :
    (club course : Option String) (p : LifecycleParams) (key : DayKey)
    → settled_key club course p ≡ some key
    → key.interval_minutes ≡ none
unfolding day_key
settled_key-default none course p key h = absurd (ground arith)
settled_key-default (some club) none p key h = absurd (ground arith)
settled_key-default (some club) (some course) p key h = ground arith

-- The day that is refetched is never one that was fetched with an interval of its own.
pub on_settled-interval :
    (p : LifecycleParams) (key : DayKey) (club course day : String)
    (membership : BookingRuleAppliesTo) (tee : Option String) (interval : ℕ)
    → on_settled p ≡ some key
    → key ≢ day_key club course day membership tee (some interval)
unfolding on_settled
on_settled-interval p key club course day membership tee interval h same =
    let default = settled_key-default p.selected_club_id p.course_id p key h in
    ground (arith, default, same)
