-- ===== src/Types/Results.antt =====
-- frontend/src/types/bookings.ts: what the requests of the desk's tee sheet answer.
use greenlink.Prelude.{String, Bool, Option, List}
use greenlink.Types.Json.{Fields}
use greenlink.Types.Booking.{BookingStatus, BookingPaymentStatus, MutationDecision, BookingSummary}
use greenlink.Types.TeeSheet.{BookingRuleAppliesTo}

pub record AvailabilityPolicyTrace : Type 0 where
  pub code : String
  pub reason : String
  pub details : Fields

pub record AvailabilityPolicyNotice : Type 0 where
  pub code : String
  pub message : String

pub record AvailabilityPolicyResult : Type 0 where
  pub applies_to : BookingRuleAppliesTo
  pub availability_status : String
  pub blockers : List AvailabilityPolicyTrace
  pub warnings : List AvailabilityPolicyNotice
  pub resolved_checks : List AvailabilityPolicyTrace
  pub unresolved_checks : List AvailabilityPolicyTrace

pub data BookingDecision : Type 0 where
  allowed blocked indeterminate : BookingDecision

-- BookingCreateFailureDetail and BookingUpdateFailureDetail, of which the page reads the message
pub record BookingFailureDetail : Type 0 where
  pub code : String
  pub message : String
  pub field : Option String

-- BookingCreateResult and BookingUpdateResult, in the fields that both have
pub record BookingWriteResult : Type 0 where
  pub decision : BookingDecision
  pub booking : Option BookingSummary
  pub availability : Option AvailabilityPolicyResult
  pub failures : List BookingFailureDetail

pub record BookingFinanceMutationFailureDetail : Type 0 where
  pub code : String
  pub message : String
  pub field : Option String
  pub current_status : Option BookingStatus
  pub current_payment_status : Option BookingPaymentStatus

-- The one flag by which the four results of the finance requests differ.
pub data Applied : Type 0 where
  update_applied posting_applied settlement_applied refund_applied : Bool → Applied

-- BookingPaymentStatusUpdateResult, BookingChargePostResult, BookingPaymentRecordResult and
-- BookingRefundResult, in the fields that the page reads
pub record BookingFinanceResult : Type 0 where
  pub booking_id : String
  pub decision : MutationDecision
  pub applied : Applied
  pub failures : List BookingFinanceMutationFailureDetail
