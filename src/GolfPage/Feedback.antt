-- ===== src/GolfPage/Feedback.antt =====
-- frontend/src/pages/admin-golf-tee-sheet-page.tsx: the messages for what the backend answers.
use greenlink.Prelude.{String, Bool, false, Option, none, some, if◌then◌else◌, ◌==◌, string_eq}
use greenlink.Types.Results.{
  AvailabilityPolicyResult, BookingDecision, indeterminate, BookingWriteResult, Applied,
  update_applied, posting_applied, settlement_applied, refund_applied, BookingFinanceResult,
}
use greenlink.Sheet.Occupancy.{head?}
use greenlink.Sheet.Status.{Action, cancel, check_in, complete, no_show}

pub data Tone : Type 0 where
  success info error : Tone

pub record Notice : Type 0 where
  pub message : String
  pub tone : Tone

pub record DrawerFeedback : Type 0 where
  pub booking_id : Option String
  pub field : Option String
  pub message : String
  pub tone : Tone

pub data FinanceAction : Type 0 where
  post_charge record_payment mark_complimentary mark_waived post_refund : FinanceAction

pub record Copy : Type 0 where
  pub already : String
  pub blocked : String
  pub success : String

abbrev pub copy : Action → Copy
copy cancel = record {
  already = "Booking was already cancelled. Tee sheet refreshed from backend state.";
  blocked = "Cancellation blocked.";
  success = "Booking cancelled. Tee sheet refreshed from backend state.";
}
copy check_in = record {
  already = "Booking was already checked in. Tee sheet refreshed from backend state.";
  blocked = "Check-in blocked.";
  success = "Booking checked in. Tee sheet refreshed from backend state.";
}
copy complete = record {
  already = "Booking was already completed. Tee sheet refreshed from backend state.";
  blocked = "Completion blocked.";
  success = "Booking completed. Tee sheet refreshed from backend state.";
}
copy no_show = record {
  already = "Booking was already marked no-show. Tee sheet refreshed from backend state.";
  blocked = "No-show blocked.";
  success = "Booking marked no-show. Tee sheet refreshed from backend state.";
}

abbrev fallback : BookingDecision → Notice
fallback indeterminate = record {
  tone = error;
  message = "Booking could not be resolved for this slot.";
}
fallback _ = record { tone = error; message = "Booking update blocked." }

-- The first blocker, else the first unresolved check, else the fallback.
abbrev availability_feedback : Option AvailabilityPolicyResult → BookingDecision → Notice
availability_feedback none decision = fallback decision
availability_feedback (some a) decision = elim (head? a.blockers) [
  | some blocker ↦ record { tone = error; message = blocker.reason }
  | none ↦ elim (head? a.unresolved_checks) [
    | some check ↦ record { tone = info; message = check.reason }
    | none ↦ fallback decision
  ]
]

unfoldable pub booking_feedback : BookingWriteResult → Notice
booking_feedback result = elim (head? result.failures) [
  | some failure ↦ record { tone = error; message = failure.message }
  | none ↦ availability_feedback result.availability result.decision
]

abbrev finance_error : String → Option String → String → DrawerFeedback
finance_error booking_id field message = record {
  booking_id = some booking_id;
  field = field;
  message = message;
  tone = error;
}

unfoldable pub booking_finance_feedback : BookingFinanceResult → DrawerFeedback
booking_finance_feedback result = elim (head? result.failures) [
  | none ↦ finance_error result.booking_id none "Finance action blocked."
  | some failure ↦
      if failure.code == "booking_charge_not_posted"
      then finance_error result.booking_id none "Post the booking charge before recording payment."
      else if failure.code == "booking_finance_account_not_found"
      then finance_error result.booking_id none
          "Link an active finance account to this booking before posting the charge."
      else if failure.code == "booking_finance_account_closed"
      then finance_error result.booking_id none
          "The linked finance account is closed. Reopen or replace it before posting the charge."
      else if failure.code == "booking_charge_amount_unresolved"
      then finance_error result.booking_id (some "amount")
          "Resolved booking price is unavailable. Enter an override amount or fix pricing setup first."
      else finance_error result.booking_id failure.field failure.message
]

-- `"posting_applied" in result && result.posting_applied` and its like
abbrev has_posted : Applied → Bool
has_posted (posting_applied b) = b
has_posted _ = false

abbrev has_settled : Applied → Bool
has_settled (settlement_applied b) = b
has_settled _ = false

abbrev has_updated : Applied → Bool
has_updated (update_applied b) = b
has_updated _ = false

abbrev has_refunded : Applied → Bool
has_refunded (refund_applied b) = b
has_refunded _ = false

unfoldable pub booking_finance_success_message : FinanceAction → BookingFinanceResult → String
booking_finance_success_message post_charge result =
    if has_posted result.applied
    then "Charge posted. Tee sheet refreshed from backend state."
    else "Charge was already posted. Tee sheet refreshed from backend state."
booking_finance_success_message record_payment result =
    if has_settled result.applied
    then "Payment recorded. Tee sheet refreshed from backend state."
    else "Payment was already recorded. Tee sheet refreshed from backend state."
booking_finance_success_message mark_complimentary result =
    if has_updated result.applied
    then "Booking marked complimentary. Tee sheet refreshed from backend state."
    else "Booking was already marked complimentary."
booking_finance_success_message mark_waived result =
    if has_updated result.applied
    then "Booking marked waived. Tee sheet refreshed from backend state."
    else "Booking was already marked waived."
booking_finance_success_message post_refund result =
    if has_refunded result.applied
    then "Refund posted. Booking returned to unpaid — review in close-day exceptions."
    else "Refund could not be applied."
