-- ===== src/Sheet/Status.antt =====
-- sheet-shared.tsx: what the state of a booking or a slot lets an operator do next.
-- `Date.parse` is a parameter: a text's milliseconds, or none where the source has NaN.
pub mod NextAction
pub mod Eligibility
use Prim.Native.String
use greenlink.Prelude.{
  ℕ, ◌+◌, ◌<◌, String, Bool, true, false, ◌&&◌, ◌||◌, Option, none, some, List, [], ◌∷◌, ltb,
  if◌then◌else◌, ◌==◌, ◌!=◌, option_eq, string_eq, any, find?, ◌≡◌, ◌↔◌, arith, Eq, not,
}
use greenlink.Prelude.Int.{ℤ, pos, ◌-ℤ◌, ltb_ℤ, leb_ℤ, floor_div}
use greenlink.Prelude.Text.{truthy, ◌++ₛ◌}
use greenlink.Types.Booking.{
  BookingStatus, BookingPaymentStatus, pending, paid, complimentary, waived, status_eq, payment_eq,
}
use greenlink.Types.TeeSheet.{
  TeeSheetBookingView, TeeSheetSlotView, TeeSheetSlotDisplayStatus, display_eq,
}
use greenlink.Sheet.Occupancy.{get_or, slot_capacity, head?}

pub data Action : Type 0 where
  cancel check_in complete no_show : Action

abbrev pub action_beq : Action → Action → Bool
action_beq cancel cancel = true
action_beq check_in check_in = true
action_beq complete complete = true
action_beq no_show no_show = true
action_beq _ _ = false

pub action_beq_iff : (a b : Action) → (action_beq a b ≡ true) ↔ (a ≡ b)
action_beq_iff a b = ground arith

instance abbrev pub action_eq : Eq Action
action_eq = record { beq = action_beq; beq_iff = action_beq_iff }

pub record QuickActionDefinition : Type 0 where
  pub action : Action
  pub icon : String
  pub label : String

-- QUICK_ACTIONS, its first entry apart, which `quickActionDefinition` falls back on
abbrev pub check_in_definition : QuickActionDefinition
check_in_definition = record { action = check_in; icon = "how_to_reg"; label = "Check In" }

abbrev pub quick_actions : List QuickActionDefinition
quick_actions =
    check_in_definition
    ∷ record { action = complete; icon = "task_alt"; label = "Complete" }
    ∷ record { action = no_show; icon = "person_off"; label = "No-Show" }
    ∷ record { action = cancel; icon = "event_busy"; label = "Cancel" }
    ∷ []

unfoldable pub quick_action_definition : Action → QuickActionDefinition
quick_action_definition action =
    get_or (find? (λ quick_action. quick_action.action == action) quick_actions) check_in_definition

unfoldable pub can_quick_action : TeeSheetBookingView → Action → Bool
can_quick_action booking cancel = booking.status == BookingStatus.reserved
can_quick_action booking check_in = booking.status == BookingStatus.reserved
can_quick_action booking complete = booking.status == BookingStatus.checked_in
can_quick_action booking no_show = booking.status == BookingStatus.reserved

unfoldable pub should_render_quick_action : TeeSheetBookingView → Action → Bool
unfolding can_quick_action
should_render_quick_action booking action =
    if action == complete then can_quick_action booking action else true

unfoldable pub inline_panel_primary_action : TeeSheetBookingView → Option Action
unfolding can_quick_action
inline_panel_primary_action booking =
    if can_quick_action booking complete
    then some complete
    else if can_quick_action booking check_in
    then some check_in
    else none

pub data BookingNextAction : Type 0 where
  needs_payment ready_to_check_in at_risk completed : BookingNextAction

abbrev pub next_action_beq : BookingNextAction → BookingNextAction → Bool
next_action_beq needs_payment needs_payment = true
next_action_beq ready_to_check_in ready_to_check_in = true
next_action_beq at_risk at_risk = true
next_action_beq completed completed = true
next_action_beq _ _ = false

pub next_action_beq_iff : (a b : BookingNextAction) → (next_action_beq a b ≡ true) ↔ (a ≡ b)
next_action_beq_iff a b = ground arith

instance abbrev pub next_action_eq : Eq BookingNextAction
next_action_eq = record { beq = next_action_beq; beq_iff = next_action_beq_iff }

-- `a < b` on numbers that may be NaN
abbrev pub before : Option ℤ → Option ℤ → Bool
before (some a) (some b) = ltb_ℤ a b
before _ _ = false

-- `reference && Date.parse(slot) < Date.parse(reference)`, where "" is false too
abbrev pub is_late : (String → Option ℤ) → String → Option String → Bool
is_late date_parse slot none = false
is_late date_parse slot (some reference) =
    truthy reference && before (date_parse slot) (date_parse reference)

abbrev pub arrivals_due_window_minutes : ℕ
arrivals_due_window_minutes = 90

abbrev minutes_between : Option ℤ → Option ℤ → Option ℤ
minutes_between (some slot) (some reference) = some (floor_div (slot -ℤ reference) 60000)
minutes_between _ _ = none

abbrev pub in_window : Option ℤ → Bool
in_window none = false
in_window (some minutes) = leb_ℤ (pos 0) minutes && leb_ℤ minutes (pos arrivals_due_window_minutes)

module _ (date_parse : String → Option ℤ) where
  unfoldable pub derive_booking_next_action :
      TeeSheetBookingView → Option String → BookingNextAction
  derive_booking_next_action booking reference =
      if booking.status == BookingStatus.cancelled || booking.status == BookingStatus.no_show
      then completed
      else if booking.payment_status == some pending
      then needs_payment
      else if booking.status == BookingStatus.completed
      then completed
      else if booking.status == BookingStatus.reserved
          && is_late date_parse booking.slot_datetime reference
      then at_risk
      else if booking.status == BookingStatus.reserved
      then ready_to_check_in
      else completed

  unfoldable pub inline_panel_destructive_action :
      TeeSheetBookingView → Option String → Option Action
  unfolding can_quick_action derive_booking_next_action
  inline_panel_destructive_action booking reference =
      if can_quick_action booking no_show && derive_booking_next_action booking reference == at_risk
      then some no_show
      else if can_quick_action booking cancel
      then some cancel
      else none

  unfoldable pub minutes_until_slot : String → Option String → Option ℤ
  minutes_until_slot slot none = none
  minutes_until_slot slot (some reference) =
      if truthy reference then minutes_between (date_parse slot) (date_parse reference) else none

  -- the test of `slotHasArrivalsDue` on one booking
  unfoldable pub booking_is_due : Option String → TeeSheetBookingView → Bool
  unfolding derive_booking_next_action minutes_until_slot
  booking_is_due reference booking =
      if derive_booking_next_action booking reference != ready_to_check_in
      then false
      else in_window (minutes_until_slot booking.slot_datetime reference)

  unfoldable pub slot_has_arrivals_due : TeeSheetSlotView → Option String → Bool
  unfolding booking_is_due
  slot_has_arrivals_due slot reference = any (booking_is_due reference) slot.bookings

unfoldable pub booking_is_unresolved : TeeSheetBookingView → Bool
booking_is_unresolved booking =
    booking.payment_status == some pending
    && (booking.status == BookingStatus.checked_in || booking.status == BookingStatus.completed)

-- flags[name] as a condition: an absent flag is false
abbrev pub flag : String → List (String × Bool) → Bool
flag name [] = false
flag name ((key, value) ∷ flags) = if key == name then value else flag name flags

unfoldable pub slot_has_golf_day_control : TeeSheetSlotView → Bool
slot_has_golf_day_control slot =
    flag "event_controlled" slot.state_flags || flag "competition_controlled" slot.state_flags

unfoldable pub slot_has_closure : TeeSheetSlotView → Bool
slot_has_closure slot =
    slot.display_status == TeeSheetSlotDisplayStatus.blocked
    || flag "manually_blocked" slot.state_flags
    || flag "externally_unavailable" slot.state_flags

unfoldable pub slot_is_open : TeeSheetSlotView → Bool
unfolding slot_has_golf_day_control slot_has_closure slot_capacity
slot_is_open slot =
    slot.display_status == TeeSheetSlotDisplayStatus.available
    && ltb 0 (get_or slot.occupancy.remaining_player_capacity (slot_capacity slot))
    && not (slot_has_golf_day_control slot)
    && not (slot_has_closure slot)

-- The finance buttons of a booking, by its payment status.
unfoldable pub can_post_charge : Option BookingPaymentStatus → Bool
can_post_charge payment_status =
    payment_status != some paid
    && payment_status != some complimentary
    && payment_status != some waived

unfoldable pub can_record_payment : Option BookingPaymentStatus → Bool
can_record_payment payment_status = payment_status == some pending

unfoldable pub can_mark_complimentary : Option BookingPaymentStatus → Bool
can_mark_complimentary payment_status =
    payment_status != some complimentary && payment_status != some paid

unfoldable pub can_mark_waived : Option BookingPaymentStatus → Bool
can_mark_waived payment_status = payment_status != some waived && payment_status != some paid

unfoldable pub can_post_refund : Option BookingPaymentStatus → Bool
can_post_refund payment_status = payment_status == some paid
