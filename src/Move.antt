-- ===== src/Move.antt =====
-- frontend/src/features/tee-sheet/use-move-participant.ts: the move of one participant to another
-- row. `Date.now()` is an argument, as the text of the number.
pub mod Patch
pub mod Rollback
use greenlink.Prelude.{
  ℕ, ◌-◌, max, String, Bool, true, false, ◌&&◌, Option, none, some, List, [], ◌∷◌, ◌++◌, map,
  if◌then◌else◌, ◌==◌, ◌!=◌, string_eq, option_eq, filter, find?,
}
use greenlink.Prelude.Text.{◌++ₛ◌}
use greenlink.Types.Booking.{
  BookingStatus, reserved, guest, MutationDecision, allowed, blocked, BookingMoveFailureDetail,
  BookingMoveInput, BookingMoveResult,
}
use greenlink.Types.TeeSheet.{
  BookingRuleAppliesTo, TeeSheetBookingView, TeeSheetSlotView, TeeSheetRow, TeeSheetDayResponse,
  applies_to_eq,
}
use greenlink.Sheet.Occupancy.{get_or, head?}
use greenlink.Cache.{DayKey, QueryClient, day_key}

abbrev pub move_optimistic_booking_id_prefix : String
move_optimistic_booking_id_prefix = "optimistic-move-"

pub data MoveParticipantFailureCategory : Type 0 where
  capacity_full target_blocked target_reserved booking_not_moveable crosses_day_boundary no_op
        target_tee_not_found participant_not_found booking_not_found club_config_not_found unknown :
      MoveParticipantFailureCategory

abbrev category_of_code : String → MoveParticipantFailureCategory
category_of_code code =
    if code == "target_slot_capacity_exceeded"
    then capacity_full
    else if code == "target_slot_manually_blocked"
    then target_blocked
    else if code == "target_slot_competition_controlled"
    then target_blocked
    else if code == "target_slot_event_controlled"
    then target_blocked
    else if code == "target_slot_externally_unavailable"
    then target_blocked
    else if code == "target_slot_reserved_state_active"
    then target_reserved
    else if code == "booking_status_not_moveable"
    then booking_not_moveable
    else if code == "move_crosses_day_boundary"
    then crosses_day_boundary
    else if code == "move_is_no_op"
    then no_op
    else if code == "target_tee_not_found"
    then target_tee_not_found
    else if code == "participant_not_found"
    then participant_not_found
    else if code == "booking_not_found"
    then booking_not_found
    else if code == "club_config_not_found"
    then club_config_not_found
    else unknown

unfoldable pub categorize_move_failure :
    Option BookingMoveFailureDetail → MoveParticipantFailureCategory
categorize_move_failure none = unknown
categorize_move_failure (some failure) = category_of_code failure.code

-- Every error of the hook: a plain `Error`, or a `MoveParticipantError` with its result.
pub data MoveError : Type 0 where
  plain : String → MoveError
  move_participant :
      String
      → BookingMoveResult
      → MoveParticipantFailureCategory
      → Option BookingMoveFailureDetail
      → MoveError

pub record MoveParticipantVariables : Type 0 where
  pub booking_id : String
  pub participant_id : String
  pub target_slot_datetime : String
  pub source_slot_datetime : String
  pub display_name : String

unfoldable pub build_move_payload : MoveParticipantVariables → BookingMoveInput
build_move_payload variables = record {
  target_slot_datetime = variables.target_slot_datetime;
  target_start_lane = none;
  target_tee_id = none;
  participant_id = some variables.participant_id;
}

pub data Outcome {ℓ} (E A : Type ℓ) : Type ℓ where
  ok : A → Outcome E A
  err : E → Outcome E A

abbrev pub is_allowed : MutationDecision → Bool
is_allowed allowed = true
is_allowed blocked = false

abbrev pub decision_text : MutationDecision → String
decision_text allowed = "allowed"
decision_text blocked = "blocked"

abbrev pub move_message : Option BookingMoveFailureDetail → MutationDecision → String
move_message none decision = "Move " ++ₛ decision_text decision
move_message (some failure) decision = failure.message

-- Boolean(accessToken) && Boolean(selectedClubId)
abbrev pub has_text : Option String → Bool
has_text none = false
has_text (some s) = s != ""

-- `mutationFn`: without a session no request is made. `move_booking` is the answer of the backend,
-- an error where the request itself fails.
unfoldable pub move_participant_fn :
    Option String
    → Option String
    → (String → BookingMoveInput → Outcome MoveError BookingMoveResult)
    → MoveParticipantVariables
    → Outcome MoveError BookingMoveResult
unfolding build_move_payload categorize_move_failure
move_participant_fn access_token selected_club_id move_booking variables =
    if has_text access_token && has_text selected_club_id
    then (elim (move_booking variables.booking_id (build_move_payload variables)) [
      | err e ↦ err e
      | ok result ↦
          if is_allowed result.decision
          then ok result
          else err (
              move_participant (move_message (head? result.failures) result.decision) result
                (categorize_move_failure (head? result.failures)) (head? result.failures))
    ])
    else err (plain "Cannot move participant without an active session.")

unfoldable pub matches_day_key : String → BookingRuleAppliesTo → DayKey → Bool
matches_day_key selected_date membership_type k =
    k.day == selected_date && k.membership_type == membership_type

unfoldable pub optimistic_move_booking : MoveParticipantVariables → String → TeeSheetBookingView
optimistic_move_booking variables optimistic_booking_id = record {
  id = optimistic_booking_id;
  status = reserved;
  party_size = 1;
  holes = 18;
  slot_datetime = variables.target_slot_datetime;
  start_lane = none;
  cart_flag = some false;
  caddie_flag = some false;
  fee_label = none;
  fee_amount = none;
  fee_currency = none;
  payment_status = none;
  participants =
      record {
        id = some (optimistic_booking_id ++ₛ "-p0");
        display_name = variables.display_name;
        participant_type = guest;
        person_id = none;
        club_membership_id = none;
        guest_name = none;
        sort_order = none;
        is_primary = true;
      }
      ∷ [];
}

-- What is left of the bookings of the source slot: the moved participant leaves the booking, and
-- a booking with nobody left is dropped.
pub without_participant :
    MoveParticipantVariables → List TeeSheetBookingView → List TeeSheetBookingView
without_participant variables [] = []
without_participant variables (booking ∷ bookings) =
    let later = without_participant variables bookings in
    let remaining = filter (λ p. p.id != some variables.participant_id) booking.participants in
    if booking.id != variables.booking_id then booking ∷ later else elim remaining [
      | [] ↦ later
      | p ∷ ps ↦
          record booking { party_size = max 1 (booking.party_size - 1); participants = p ∷ ps }
          ∷ later
    ]

unfoldable pub patch_slot_with_move :
    MoveParticipantVariables → String → TeeSheetSlotView → TeeSheetSlotView
unfolding without_participant optimistic_move_booking
patch_slot_with_move variables optimistic_booking_id slot =
    if slot.slot_datetime == variables.source_slot_datetime
    then record slot { bookings = without_participant variables slot.bookings }
    else if slot.slot_datetime == variables.target_slot_datetime
    then record slot {
      bookings = slot.bookings ++ optimistic_move_booking variables optimistic_booking_id ∷ [];
    }
    else slot

unfoldable pub patch_day_with_move :
    TeeSheetDayResponse → MoveParticipantVariables → String → TeeSheetDayResponse
unfolding patch_slot_with_move
patch_day_with_move day variables optimistic_booking_id = record day {
  rows =
      map {A = TeeSheetRow} {B = TeeSheetRow}
        (λ row. record row {
          slots = map (patch_slot_with_move variables optimistic_booking_id) row.slots;
        })
        day.rows;
}

pub record MoveParticipantContext : Type 0 where
  pub day_query_key : DayKey
  pub previous_day : Option TeeSheetDayResponse
  pub optimistic_booking_id : String

module _ (client : QueryClient) where
  open client use {Cache, get, set, keys}

  abbrev patched_cache :
      Option TeeSheetDayResponse → DayKey → MoveParticipantVariables → String → Cache → Cache
  patched_cache none key variables optimistic_booking_id cache = cache
  patched_cache (some day) key variables optimistic_booking_id cache =
      set key (patch_day_with_move day variables optimistic_booking_id) cache

  -- The body behind `const dayQuery = …`: the key and the day that were found.
  abbrev on_found :
      Option DayKey
      → DayKey
      → MoveParticipantVariables
      → String
      → Cache
      → Cache × MoveParticipantContext
  on_found none fallback variables optimistic_booking_id cache = (
    cache,
    record {
      day_query_key = fallback;
      previous_day = none;
      optimistic_booking_id = optimistic_booking_id;
    },
  )
  on_found (some key) fallback variables optimistic_booking_id cache = (
    patched_cache (get key cache) key variables optimistic_booking_id cache,
    record {
      day_query_key = key;
      previous_day = get key cache;
      optimistic_booking_id = optimistic_booking_id;
    },
  )

  unfoldable pub on_mutate :
      Option String
      → String
      → BookingRuleAppliesTo
      → Option String
      → String
      → MoveParticipantVariables
      → Cache
      → Cache × MoveParticipantContext
  unfolding matches_day_key day_key
  on_mutate selected_club_id selected_date membership_type tee_id now variables cache =
      on_found (find? (matches_day_key selected_date membership_type) (keys cache))
        (day_key (get_or selected_club_id "none") "*" selected_date membership_type tee_id none)
        variables (move_optimistic_booking_id_prefix ++ₛ now) cache

  -- `onError` rolls back to the snapshot; `onSettled` only asks for a refetch of the same key.
  unfoldable pub on_error : MoveParticipantContext → Cache → Cache
  on_error context cache = elim context.previous_day [
    | none ↦ cache
    | some day ↦ set context.day_query_key day cache
  ]
