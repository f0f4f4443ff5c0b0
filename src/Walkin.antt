-- ===== src/Walkin.antt =====
-- frontend/src/features/tee-sheet/use-waitlist.ts and use-create-walkin-booking.ts: placing a party
-- of the waitlist on a slot. `feeAmount` is a JavaScript number, which nothing here computes with,
-- so its type is a parameter.
pub mod Placement
use greenlink.Prelude.{
  ℕ, ◌-◌, max, String, Bool, true, false, ◌&&◌, Option, none, some, List, [], ◌∷◌, ◌++◌, map,
  if◌then◌else◌, ◌==◌, ◌!=◌, string_eq, nat_eq, tabulate,
}
use text.Mathlib.Text.{starts_with}
use greenlink.Prelude.Text.{◌++ₛ◌, show}
use greenlink.Types.Booking.{
  BookingStatus, reserved, BookingParticipantType, guest, StartLane, BookingParticipantSummary,
}
use greenlink.Types.TeeSheet.{
  BookingRuleAppliesTo, TeeSheetBookingView, TeeSheetSlotView, TeeSheetRow, TeeSheetDayResponse,
}
use greenlink.Sheet.Occupancy.{get_or}
use greenlink.Cache.{DayKey, QueryClient, day_key}

pub data WaitlistSource : Type 0 where
  walkin memberapp : WaitlistSource

pub record WaitlistSuggestion : Type 0 where
  pub slot_label : String

pub record WaitlistEntry (Amount : Type 0) : Type 0 where
  pub id : String
  pub name : String
  pub party : ℕ
  pub since : String
  pub note : String
  pub source : WaitlistSource
  pub fee_amount : Option Amount
  pub fee_currency : Option String
  pub suggestion : Option WaitlistSuggestion

pub data BookingSource : Type 0 where
  admin member_portal staff walk_in : BookingSource

pub record BookingCreateParticipantInput : Type 0 where
  pub participant_type : BookingParticipantType
  pub person_id : Option String
  pub guest_name : Option String
  pub is_primary : Bool

pub record BookingCreateInput : Type 0 where
  pub course_id : String
  pub tee_id : Option String
  pub start_lane : Option StartLane
  pub slot_datetime : String
  pub slot_interval_minutes : Option ℕ
  pub holes : Option ℕ
  pub source : Option BookingSource
  pub applies_to : Option BookingRuleAppliesTo
  pub reference_datetime : Option String
  pub cart_flag : Option Bool
  pub caddie_flag : Option Bool
  pub participants : List BookingCreateParticipantInput

abbrev pub optimistic_booking_id_prefix : String
optimistic_booking_id_prefix = "optimistic-"

unfoldable pub is_optimistic_booking_id : String → Bool
is_optimistic_booking_id id = starts_with id optimistic_booking_id_prefix

pub record CreateWalkinBookingVariables (Amount : Type 0) : Type 0 where
  pub entry : WaitlistEntry Amount
  pub slot_datetime : String
  pub course_id : String

unfoldable pub build_walkin_booking_payload :
    {Amount : Type 0} → CreateWalkinBookingVariables Amount → BookingCreateInput
build_walkin_booking_payload variables = record {
  course_id = variables.course_id;
  tee_id = none;
  start_lane = none;
  slot_datetime = variables.slot_datetime;
  slot_interval_minutes = none;
  holes = none;
  source = some walk_in;
  applies_to = some BookingRuleAppliesTo.guest;
  reference_datetime = none;
  cart_flag = some false;
  caddie_flag = some false;
  participants =
      tabulate {A = BookingCreateParticipantInput}
        (λ index. record {
          participant_type = guest;
          person_id = none;
          guest_name = some variables.entry.name;
          is_primary = index == 0;
        })
        0 (max 1 variables.entry.party);
}

abbrev pub optimistic_guest :
    {Amount : Type 0} → CreateWalkinBookingVariables Amount → String → ℕ → BookingParticipantSummary
optimistic_guest variables optimistic_booking_id index = record {
  id = some (optimistic_booking_id ++ₛ "-p" ++ₛ show index);
  display_name = variables.entry.name;
  participant_type = guest;
  person_id = none;
  club_membership_id = none;
  guest_name = none;
  sort_order = none;
  is_primary = index == 0;
}

unfoldable pub optimistic_walkin_booking :
    {Amount : Type 0} → CreateWalkinBookingVariables Amount → String → TeeSheetBookingView
optimistic_walkin_booking variables optimistic_booking_id = record {
  id = optimistic_booking_id;
  status = reserved;
  party_size = variables.entry.party;
  holes = 18;
  slot_datetime = variables.slot_datetime;
  start_lane = none;
  cart_flag = some false;
  caddie_flag = some false;
  fee_label = none;
  fee_amount = none;
  fee_currency = none;
  payment_status = none;
  participants =
      tabulate (optimistic_guest variables optimistic_booking_id) 0 variables.entry.party;
}

unfoldable pub place_on_slot :
    {Amount : Type 0}
    → CreateWalkinBookingVariables Amount
    → String
    → TeeSheetSlotView
    → TeeSheetSlotView
unfolding optimistic_walkin_booking
place_on_slot variables optimistic_booking_id slot =
    if slot.slot_datetime == variables.slot_datetime
    then record slot {
      bookings = slot.bookings ++ optimistic_walkin_booking variables optimistic_booking_id ∷ [];
    }
    else slot

unfoldable pub patch_day_with_optimistic_booking :
    {Amount : Type 0}
    → TeeSheetDayResponse
    → CreateWalkinBookingVariables Amount
    → String
    → TeeSheetDayResponse
unfolding place_on_slot
patch_day_with_optimistic_booking day variables optimistic_booking_id = record day {
  rows =
      map {A = TeeSheetRow} {B = TeeSheetRow}
        (λ row. record row {
          slots = map (place_on_slot variables optimistic_booking_id) row.slots;
        })
        day.rows;
}

pub record CreateWalkinBookingContext : Type 0 where
  pub day_query_key : DayKey
  pub previous_day : Option TeeSheetDayResponse
  pub optimistic_booking_id : String

module _ (client : QueryClient) where
  open client use {Cache, get, set}

  unfoldable pub on_mutate :
      {Amount : Type 0}
      → Option String
      → String
      → BookingRuleAppliesTo
      → Option String
      → String
      → CreateWalkinBookingVariables Amount
      → Cache
      → Cache × CreateWalkinBookingContext
  unfolding day_key
  on_mutate selected_club_id selected_date membership_type tee_id now variables cache =
      let key =
        day_key (get_or selected_club_id "none") variables.course_id selected_date membership_type
          tee_id none in
      let optimistic_booking_id = optimistic_booking_id_prefix ++ₛ now in
      (
        elim (get key cache) [
          | none ↦ cache
          | some day ↦
              set key (patch_day_with_optimistic_booking day variables optimistic_booking_id) cache
        ],
        record {
          day_query_key = key;
          previous_day = get key cache;
          optimistic_booking_id = optimistic_booking_id;
        },
      )

  unfoldable pub on_error : CreateWalkinBookingContext → Cache → Cache
  on_error context cache = elim context.previous_day [
    | none ↦ cache
    | some day ↦ set context.day_query_key day cache
  ]
