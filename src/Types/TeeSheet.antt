-- ===== src/Types/TeeSheet.antt =====
-- frontend/src/types/tee-sheet.ts.
use greenlink.Prelude.{ℕ, String, ◌≡◌, ◌↔◌, Bool, true, false, Option, List, arith, Eq}
use greenlink.Types.Json.{Fields}
use greenlink.Types.Booking.{
  BookingParticipantSummary, BookingPaymentStatus, BookingStatus, StartLane,
}

pub data BookingRuleAppliesTo : Type 0 where
  member guest staff : BookingRuleAppliesTo

pub data TeeSheetSlotDisplayStatus : Type 0 where
  available blocked reserved indeterminate warning : TeeSheetSlotDisplayStatus

abbrev pub applies_to_beq : BookingRuleAppliesTo → BookingRuleAppliesTo → Bool
applies_to_beq member member = true
applies_to_beq guest guest = true
applies_to_beq staff staff = true
applies_to_beq _ _ = false

pub applies_to_beq_iff : (a b : BookingRuleAppliesTo) → (applies_to_beq a b ≡ true) ↔ (a ≡ b)
applies_to_beq_iff a b = ground arith

abbrev pub display_beq : TeeSheetSlotDisplayStatus → TeeSheetSlotDisplayStatus → Bool
display_beq available available = true
display_beq blocked blocked = true
display_beq reserved reserved = true
display_beq indeterminate indeterminate = true
display_beq warning warning = true
display_beq _ _ = false

pub display_beq_iff : (a b : TeeSheetSlotDisplayStatus) → (display_beq a b ≡ true) ↔ (a ≡ b)
display_beq_iff a b = ground arith

instance abbrev pub applies_to_eq : Eq BookingRuleAppliesTo
applies_to_eq = record { beq = applies_to_beq; beq_iff = applies_to_beq_iff }

instance abbrev pub display_eq : Eq TeeSheetSlotDisplayStatus
display_eq = record { beq = display_beq; beq_iff = display_beq_iff }

pub record TeeSheetTrace : Type 0 where
  pub code : String
  pub reason : String
  pub details : Fields

pub record TeeSheetNotice : Type 0 where
  pub code : String
  pub message : String

pub record Occupancy : Type 0 where
  pub player_capacity : Option ℕ
  pub occupied_player_count : Option ℕ
  pub reserved_player_count : Option ℕ
  pub confirmed_booking_count : Option ℕ
  pub reserved_booking_count : Option ℕ
  pub remaining_player_capacity : Option ℕ

pub record PartySummary : Type 0 where
  pub member_count : Option ℕ
  pub guest_count : Option ℕ
  pub staff_count : Option ℕ
  pub total_players : Option ℕ
  pub has_activity : Bool

pub record PolicySummary : Type 0 where
  pub applies_to : BookingRuleAppliesTo
  pub availability_status : String
  pub blocker_count : ℕ
  pub unresolved_count : ℕ
  pub warning_count : ℕ

-- The item type of `TeeSheetSlotView["bookings"]`.
pub record TeeSheetBookingView : Type 0 where
  pub id : String
  pub status : BookingStatus
  pub party_size : ℕ
  pub holes : ℕ
  pub slot_datetime : String
  pub start_lane : Option StartLane
  pub cart_flag : Option Bool
  pub caddie_flag : Option Bool
  pub fee_label : Option String
  pub fee_amount : Option String
  pub fee_currency : Option String
  pub payment_status : Option BookingPaymentStatus
  pub participants : List BookingParticipantSummary

-- `state_flags` is the record of flags by name, and an absent flag reads as `undefined`.
pub record TeeSheetSlotView : Type 0 where
  pub slot_datetime : String
  pub local_time : String
  pub display_status : TeeSheetSlotDisplayStatus
  pub state_flags : List (String × Bool)
  pub occupancy : Occupancy
  pub party_summary : PartySummary
  pub policy_summary : PolicySummary
  pub blockers : List TeeSheetTrace
  pub unresolved_checks : List TeeSheetTrace
  pub warnings : List TeeSheetNotice
  pub bookings : List TeeSheetBookingView

pub record TeeSheetRow : Type 0 where
  pub row_key : String
  pub tee_id : Option String
  pub start_lane : Option StartLane
  pub label : String
  pub color_code : Option String
  pub slots : List TeeSheetSlotView

pub record TeeSheetDayResponse : Type 0 where
  pub club_id : String
  pub course_id : String
  pub course_name : String
  pub date : String
  pub timezone : String
  pub interval_minutes : ℕ
  pub membership_type : BookingRuleAppliesTo
  pub reference_datetime : String
  pub rows : List TeeSheetRow
  pub warnings : List TeeSheetNotice
