-- ===== src/Types/Booking.antt =====
-- frontend/src/types/bookings.ts. A field that is optional, or may be `null`, is an `Option`; the
-- counts that the backend sends are not negative, so they are natural numbers.
use greenlink.Prelude.{ℕ, String, ◌≡◌, ◌↔◌, Bool, true, false, Option, List, arith, Eq}

pub data BookingStatus : Type 0 where
  reserved checked_in cancelled completed no_show : BookingStatus

pub data BookingParticipantType : Type 0 where
  member guest staff : BookingParticipantType

pub data StartLane : Type 0 where
  hole_1 hole_10 : StartLane

pub data BookingPaymentStatus : Type 0 where
  pending paid complimentary waived : BookingPaymentStatus

abbrev pub status_beq : BookingStatus → BookingStatus → Bool
status_beq reserved reserved = true
status_beq checked_in checked_in = true
status_beq cancelled cancelled = true
status_beq completed completed = true
status_beq no_show no_show = true
status_beq _ _ = false

pub status_beq_iff : (a b : BookingStatus) → (status_beq a b ≡ true) ↔ (a ≡ b)
status_beq_iff a b = ground arith

abbrev pub participant_type_beq : BookingParticipantType → BookingParticipantType → Bool
participant_type_beq member member = true
participant_type_beq guest guest = true
participant_type_beq staff staff = true
participant_type_beq _ _ = false

pub participant_type_beq_iff :
    (a b : BookingParticipantType) → (participant_type_beq a b ≡ true) ↔ (a ≡ b)
participant_type_beq_iff a b = ground arith

abbrev pub lane_beq : StartLane → StartLane → Bool
lane_beq hole_1 hole_1 = true
lane_beq hole_10 hole_10 = true
lane_beq _ _ = false

pub lane_beq_iff : (a b : StartLane) → (lane_beq a b ≡ true) ↔ (a ≡ b)
lane_beq_iff a b = ground arith

abbrev pub payment_beq : BookingPaymentStatus → BookingPaymentStatus → Bool
payment_beq pending pending = true
payment_beq paid paid = true
payment_beq complimentary complimentary = true
payment_beq waived waived = true
payment_beq _ _ = false

pub payment_beq_iff : (a b : BookingPaymentStatus) → (payment_beq a b ≡ true) ↔ (a ≡ b)
payment_beq_iff a b = ground arith

instance abbrev pub status_eq : Eq BookingStatus
status_eq = record { beq = status_beq; beq_iff = status_beq_iff }

instance abbrev pub participant_type_eq : Eq BookingParticipantType
participant_type_eq = record { beq = participant_type_beq; beq_iff = participant_type_beq_iff }

instance abbrev pub lane_eq : Eq StartLane
lane_eq = record { beq = lane_beq; beq_iff = lane_beq_iff }

instance abbrev pub payment_eq : Eq BookingPaymentStatus
payment_eq = record { beq = payment_beq; beq_iff = payment_beq_iff }

pub record BookingParticipantSummary : Type 0 where
  pub id : Option String
  pub display_name : String
  pub participant_type : BookingParticipantType
  pub person_id : Option String
  pub club_membership_id : Option String
  pub guest_name : Option String
  pub sort_order : Option ℕ
  pub is_primary : Bool

pub record BookingSummary : Type 0 where
  pub id : String
  pub club_id : Option String
  pub course_id : Option String
  pub tee_id : Option String
  pub start_lane : Option StartLane
  pub slot_interval_minutes : Option ℕ
  pub holes : ℕ
  pub status : BookingStatus
  pub source : Option String
  pub party_size : ℕ
  pub primary_person_id : Option String
  pub primary_membership_id : Option String
  pub cart_flag : Option Bool
  pub caddie_flag : Option Bool
  pub fee_label : Option String
  pub fee_amount : Option String
  pub fee_currency : Option String
  pub payment_status : Option BookingPaymentStatus
  pub slot_datetime : String
  pub created_at : Option String
  pub updated_at : Option String
  pub participants : List BookingParticipantSummary

pub data MutationDecision : Type 0 where
  allowed blocked : MutationDecision

pub record BookingLifecycleMutationFailureDetail : Type 0 where
  pub code : String
  pub message : String
  pub field : Option String
  pub current_status : Option BookingStatus

pub record BookingLifecycleMutationResult : Type 0 where
  pub booking_id : String
  pub decision : MutationDecision
  pub transition_applied : Bool
  pub booking : Option BookingSummary
  pub failures : List BookingLifecycleMutationFailureDetail

pub record BookingMoveFailureDetail : Type 0 where
  pub code : String
  pub message : String
  pub field : Option String
  pub current_status : Option BookingStatus

pub record BookingMoveInput : Type 0 where
  pub target_slot_datetime : String
  pub target_start_lane : Option StartLane
  pub target_tee_id : Option String
  pub participant_id : Option String

pub record BookingMoveResult : Type 0 where
  pub booking_id : String
  pub decision : MutationDecision
  pub transition_applied : Bool
  pub booking : Option BookingSummary
  pub failures : List BookingMoveFailureDetail
