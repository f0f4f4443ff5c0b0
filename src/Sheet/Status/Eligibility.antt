-- ===== src/Sheet/Status/Eligibility.antt =====
-- The finance buttons exclude one another as the payment status demands.
use greenlink.Prelude.{◌≡◌, ◌↔◌, ◌⊎◌, true, false, Option, arith}
use greenlink.Types.Booking.{BookingPaymentStatus, payment_eq}
use greenlink.Sheet.Status.{
  can_post_charge, can_record_payment, can_mark_complimentary, can_mark_waived, can_post_refund,
}

pub record Eligible (s : Option BookingPaymentStatus) : Type 0 where
  pub refund_alone :
      can_post_refund s ≡ true
      → (can_post_charge s ≡ false)
        × (can_record_payment s ≡ false)
        × (can_mark_complimentary s ≡ false)
        × (can_mark_waived s ≡ false)
  pub payment_charges : can_record_payment s ≡ true → can_post_charge s ≡ true
  pub charge_iff :
      (can_post_charge s ≡ true) ↔ ((can_mark_complimentary s ≡ true) × (can_mark_waived s ≡ true))
  pub some_button :
      (can_post_refund s ≡ true) ⊎ ((can_mark_complimentary s ≡ true) ⊎ (can_mark_waived s ≡ true))

-- A refund excludes every other button, a payment can be recorded only where a charge can be
-- posted, a charge can be posted exactly where both waivers can be, and some button is always on.
pub finance_buttons-Eligible : (s : Option BookingPaymentStatus) → Eligible s
unfolding can_post_charge can_record_payment can_mark_complimentary can_mark_waived can_post_refund
finance_buttons-Eligible s = ground arith
