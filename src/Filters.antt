-- ===== src/Filters.antt =====
-- frontend/src/pages/admin-golf-tee-sheet-page.tsx: the view filters of the tee sheet.
use greenlink.Prelude.{
  ℕ, String, ◌≡◌, refl, sym, ◌∙◌, Option-cases, Bool, true, false, ◌&&◌, ◌||◌, Option, none, some,
  List, [], ◌∷◌, arith, if◌then◌else◌, ◌==◌, string_eq, option_eq, nat_eq, any, Bool-cases, inl,
  inr, ltb, length,
}
use greenlink.Prelude.Int.{ℤ}
use greenlink.Prelude.Text.{truthy}
use greenlink.Types.Booking.{BookingStatus, pending, status_eq, payment_eq}
use greenlink.Types.TeeSheet.{
  TeeSheetSlotDisplayStatus, TeeSheetBookingView, TeeSheetSlotView, display_eq,
}
use greenlink.Sheet.Occupancy.{booking_player_count}
use greenlink.Sheet.Status.{
  before, is_late, at_risk, next_action_eq, derive_booking_next_action, slot_has_arrivals_due,
  booking_is_unresolved, slot_is_open, slot_has_golf_day_control, slot_has_closure,
}

pub data ViewFilter : Type 0 where
  all closed golf_day open_slots unpaid no_shows arrivals_due unresolved warnings : ViewFilter

pub data PartySize : Type 0 where
  exactly : ℕ → PartySize
  any_size : PartySize

unfoldable pub slot_has_operational_warnings : TeeSheetSlotView → Bool
slot_has_operational_warnings slot =
    slot.display_status == TeeSheetSlotDisplayStatus.blocked
    || slot.display_status == TeeSheetSlotDisplayStatus.warning
    || ltb 0 (length slot.unresolved_checks)
    || ltb 0 (length slot.warnings)

unfoldable pub slot_matches_party_size : TeeSheetSlotView → PartySize → Bool
unfolding booking_player_count
slot_matches_party_size slot any_size = true
slot_matches_party_size slot (exactly n) = any (λ b. booking_player_count b == n) slot.bookings

unfoldable pub initial_view_filter_from_search_param : Option String → ViewFilter
initial_view_filter_from_search_param value =
    if value == some "unpaid"
    then unpaid
    else if value == some "no-shows"
    then no_shows
    else if value == some "arrivals-due"
    then arrivals_due
    else if value == some "unresolved"
    then unresolved
    else if value == some "warnings"
    then warnings
    else if value == some "open"
    then open_slots
    else if value == some "golf_day"
    then golf_day
    else if value == some "closed"
    then closed
    else all

unfoldable pub view_filter_label : ViewFilter → String
view_filter_label value = elim value [
  | arrivals_due ↦ "Arrivals Due"
  | no_shows ↦ "Late / At Risk"
  | unpaid ↦ "Unpaid"
  | unresolved ↦ "Unresolved"
  | warnings ↦ "Warnings"
  | open_slots ↦ "Open Slots"
  | golf_day ↦ "Golf Day"
  | closed ↦ "Closed / Holds"
  | all ↦ "All"
]

abbrev risk_at : (String → Option ℤ) → Option ℤ → TeeSheetSlotView → Bool
risk_at date_parse none slot = false
risk_at date_parse (some reference) slot =
    any
      (λ b.
        b.status == BookingStatus.reserved && before (date_parse b.slot_datetime) (some reference))
      slot.bookings

abbrev risk_from : (String → Option ℤ) → Option String → TeeSheetSlotView → Bool
risk_from date_parse none slot = false
risk_from date_parse (some reference) slot =
    if truthy reference then risk_at date_parse (date_parse reference) slot else false

module _ (date_parse : String → Option ℤ) where
  unfoldable pub slot_has_no_show_risk : TeeSheetSlotView → Option String → Bool
  slot_has_no_show_risk slot reference = risk_from date_parse reference slot

  unfoldable pub slot_matches_filter : TeeSheetSlotView → ViewFilter → Option String → Bool
  unfolding slot_has_no_show_risk slot_has_arrivals_due booking_is_unresolved
      slot_has_operational_warnings slot_is_open slot_has_golf_day_control slot_has_closure
  slot_matches_filter slot filter reference = elim filter [
    | unpaid ↦ any (λ b. b.payment_status == some pending) slot.bookings
    | no_shows ↦ slot_has_no_show_risk slot reference
    | arrivals_due ↦ slot_has_arrivals_due date_parse slot reference
    | unresolved ↦ any booking_is_unresolved slot.bookings
    | warnings ↦ slot_has_operational_warnings slot
    | open_slots ↦ slot_is_open slot
    | golf_day ↦ slot_has_golf_day_control slot
    | closed ↦ slot_has_closure slot || slot_has_golf_day_control slot
    | all ↦ true
  ]

  -- A slot that the filter for open slots shows is shown neither as closed nor as a golf day.
  pub open_slots-not_closed :
      (slot : TeeSheetSlotView) (reference : Option String)
      → slot_matches_filter slot open_slots reference ≡ true
      → (slot_matches_filter slot closed reference ≡ false)
        × (slot_matches_filter slot golf_day reference ≡ false)
  unfolding slot_matches_filter
  open_slots-not_closed slot reference h = ground arith

  -- What the filter for late bookings looks for in one booking.
  abbrev pub late_or_unpaid : Option String → TeeSheetBookingView → Bool
  late_or_unpaid reference b =
      derive_booking_next_action date_parse b reference == at_risk
      || b.status == BookingStatus.reserved
        && b.payment_status == some pending
        && is_late date_parse b.slot_datetime reference

  abbrev reserved_late : Option String → TeeSheetBookingView → Bool
  reserved_late reference b =
      b.status == BookingStatus.reserved && is_late date_parse b.slot_datetime reference

  reserved_late-split :
      (reference : Option String) (bs : List TeeSheetBookingView)
      → any (reserved_late reference) bs ≡ any (late_or_unpaid reference) bs
  unfolding derive_booking_next_action
  reserved_late-split reference [] = refl
  reserved_late-split reference (b ∷ bs) =
      elim (Bool-cases (is_late date_parse b.slot_datetime reference)) [
        | inl late ↦ ground (arith, late, reserved_late-split reference bs)
        | inr early ↦ ground (arith, early, reserved_late-split reference bs)
      ]

  never_late :
      (reference : Option String) (bs : List TeeSheetBookingView)
      → ((b : TeeSheetBookingView) → is_late date_parse b.slot_datetime reference ≡ false)
      → any (reserved_late reference) bs ≡ false
  never_late reference [] h = refl
  never_late reference (b ∷ bs) h = ground (arith, h b, never_late reference bs h)

  before-none : (o : Option ℤ) → before o none ≡ false
  before-none none = refl
  before-none (some a) = refl

  same_late :
      (reference : String) (r : ℤ) (bs : List TeeSheetBookingView)
      → truthy reference ≡ true
      → date_parse reference ≡ some r
      → any
          (λ b. b.status == BookingStatus.reserved && before (date_parse b.slot_datetime) (some r))
          bs
        ≡ any (reserved_late (some reference)) bs
  same_late reference r [] h e = refl
  same_late reference r (b ∷ bs) h e = rw (same_late reference r bs h e, h, e) refl

  risk_reserved_late :
      (slot : TeeSheetSlotView) (reference : Option String)
      → slot_has_no_show_risk slot reference ≡ any (reserved_late reference) slot.bookings
  unfolding slot_has_no_show_risk
  risk_reserved_late slot none = sym (never_late none slot.bookings (λ b. refl))
  risk_reserved_late slot (some reference) = elim (Bool-cases (truthy reference)) [
    | inl set ↦ elim (Option-cases (date_parse reference)) [
      | inl missing ↦
          rw (set, missing)
            (sym (
              never_late (some reference) slot.bookings
                (λ b. rw (set, missing) (before-none (date_parse b.slot_datetime)))))
      | inr (r, there) ↦ rw (set, there) (same_late reference r slot.bookings set there)
    ]
    | inr empty ↦ rw empty (sym (never_late (some reference) slot.bookings (λ b. rw empty refl)))
  ]

  -- The filter for late bookings shows a slot exactly if it has a booking whose next action is "at
  -- risk", or one that is reserved and late too but whose next action is the pending payment.
  pub no_shows-late :
      (slot : TeeSheetSlotView) (reference : Option String)
      → slot_matches_filter slot no_shows reference ≡ any (late_or_unpaid reference) slot.bookings
  unfolding slot_matches_filter
  no_shows-late slot reference =
      risk_reserved_late slot reference ∙ reserved_late-split reference slot.bookings
