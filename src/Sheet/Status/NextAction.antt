-- ===== src/Sheet/Status/NextAction.antt =====
-- When each next action is the one shown, and when an arrival is due.
use greenlink.Prelude.{◌+◌, ◌<◌, String, ◌≡◌, ◌≢◌, ◌↔◌, true, false, Option, some, arith}
use greenlink.Prelude.Text.{truthy}
use greenlink.Prelude.Int.{ℤ, pos, negsuc, ◌-ℤ◌, ◌≤ℤ◌, pos_part, neg_part, floor_div}
use greenlink.Types.Booking.{reserved, cancelled, no_show, pending, status_eq, payment_eq}
use greenlink.Types.TeeSheet.{TeeSheetBookingView}
use greenlink.Sheet.Status.{
  needs_payment, ready_to_check_in, at_risk, is_late, derive_booking_next_action, booking_is_due,
  in_window, booking_is_unresolved,
}

-- The booking is still on the sheet: neither cancelled nor a no-show.
abbrev pub IsLive : TeeSheetBookingView → Type 0
IsLive b = (b.status ≢ cancelled) × (b.status ≢ no_show)

-- When each of the four next actions is the one shown.
pub record Table (date_parse : String → Option ℤ) (b : TeeSheetBookingView)
    (reference : Option String) : Type 0 where
  pub payment_iff :
      (derive_booking_next_action date_parse b reference ≡ needs_payment)
      ↔ (IsLive b × (b.payment_status ≡ some pending))
  pub at_risk_iff : (derive_booking_next_action date_parse b reference ≡ at_risk) ↔ (
      (b.status ≡ reserved)
      × (b.payment_status ≢ some pending)
      × (is_late date_parse b.slot_datetime reference ≡ true))
  pub ready_iff : (derive_booking_next_action date_parse b reference ≡ ready_to_check_in) ↔ (
      (b.status ≡ reserved)
      × (b.payment_status ≢ some pending)
      × (is_late date_parse b.slot_datetime reference ≡ false))

-- `needs_payment` is shown exactly for the live bookings whose payment is pending, `at_risk` and
-- `ready_to_check_in` exactly for the reserved others, late or not.
pub derive_booking_next_action-Table :
    (date_parse : String → Option ℤ) (b : TeeSheetBookingView) (reference : Option String)
    → Table date_parse b reference
unfolding derive_booking_next_action
derive_booking_next_action-Table date_parse b reference = record {
  payment_iff = ground arith;
  at_risk_iff = ground arith;
  ready_iff = ground arith;
}

-- A booking counted as unresolved is always shown as one that needs payment.
pub unresolved_needs_payment :
    (date_parse : String → Option ℤ) (b : TeeSheetBookingView) (reference : Option String)
    → booking_is_unresolved b ≡ true
    → derive_booking_next_action date_parse b reference ≡ needs_payment
unfolding booking_is_unresolved derive_booking_next_action
unresolved_needs_payment date_parse b reference h = ground arith

-- 90 minutes, rounded down, are less than 91 minutes in milliseconds.
floor_window :
    (d : ℤ)
    → (in_window (some (floor_div d 60000)) ≡ true) ↔ ((pos 0 ≤ℤ d) × (pos_part d < 5460000))
floor_window (pos n) = ground arith
floor_window (negsuc n) = ground arith

-- With a readable reference, an arrival is due exactly for the reserved bookings with no payment
-- pending whose slot lies at or after the reference, by less than 91 minutes.
pub booking_is_due_iff :
    (date_parse : String → Option ℤ) (b : TeeSheetBookingView) (reference : String) (s r : ℤ)
    → truthy reference ≡ true
    → date_parse b.slot_datetime ≡ some s
    → date_parse reference ≡ some r
    → (booking_is_due date_parse (some reference) b ≡ true) ↔ (
        (b.status ≡ reserved)
        × (b.payment_status ≢ some pending)
        × (r ≤ℤ s)
        × (pos_part s + neg_part r < pos_part r + neg_part s + 5460000))
unfolding booking_is_due
booking_is_due_iff date_parse b reference s r h hs hr = ground (arith, floor_window (s -ℤ r))
