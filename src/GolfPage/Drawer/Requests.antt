-- ===== src/GolfPage/Drawer/Requests.antt =====
-- frontend/src/pages/admin-golf-tee-sheet-page.tsx: what the answers to the page's requests do to
-- its state and to the cached day. `current_day_key` is the key of the day that the page shows when
-- the callback runs. The refetch behind a request is not part of the state.
use greenlink.Prelude.{
  String, Bool, false, ◌&&◌, Option, none, some, List, [], ◌∷◌, if◌then◌else◌, ◌==◌, string_eq,
  option_eq,
}
use greenlink.Prelude.Text.{is_blank}
use greenlink.Types.Booking.{
  MutationDecision, BookingLifecycleMutationResult, BookingMoveResult,
  BookingLifecycleMutationFailureDetail, BookingMoveFailureDetail, lane_eq,
}
use greenlink.Types.Results.{BookingDecision, BookingWriteResult, BookingFinanceResult}
use greenlink.Types.TeeSheet.{TeeSheetDayResponse}
use greenlink.Sheet.Status.{Action}
use greenlink.Sheet.Transition.{optimistically_transition_booking}
use greenlink.Cache.{DayKey, QueryClient}
use greenlink.BookingMove.{LaneSlot, optimistically_move_booking}
use greenlink.GolfPage.Feedback.{
  DrawerFeedback, success, info, error, FinanceAction, copy, booking_feedback,
  booking_finance_feedback, booking_finance_success_message,
}
use greenlink.GolfPage.Drawer.{
  DrawerState, DrawerMode, SelectedSlotKey, ExpandedBookingContext, InlineAction, reset_edit_state,
  reset_create_drafts,
}

-- `asMessage`; none is a value that is no Error
unfoldable pub as_message : Option String → String
as_message none = "Request failed"
as_message (some message) = if is_blank message then "Request failed" else message

abbrev pub error_feedback : String → DrawerFeedback
error_feedback message = record { message = message; tone = error; field = none; booking_id = none }

abbrev pub is_inline : Option InlineAction → String → Bool
is_inline none booking_id = false
is_inline (some inline_action) booking_id = inline_action.booking_id == booking_id

-- A message to the staff: on the page for an inline action, else in the drawer.
abbrev pub tell : String → String → DrawerState → DrawerState
tell booking_id message s =
    if is_inline s.inline_action_state booking_id
    then record s { notice = some (record { tone = error; message = message }) }
    else record s { drawer_feedback = some (error_feedback message) }

abbrev context_of : Option ExpandedBookingContext → String → Option ExpandedBookingContext
context_of none booking_id = none
context_of (some context) booking_id =
    if context.booking_id == booking_id then none else some context

unfoldable pub on_lifecycle_success :
    Action → BookingLifecycleMutationResult → DrawerState → DrawerState
on_lifecycle_success action result s = record (reset_edit_state s) {
  drawer_feedback = none;
  drawer_mode = none;
  expanded_booking_context = context_of s.expanded_booking_context result.booking_id;
  notice = some (record {
    tone = if result.transition_applied then success else info;
    message = if result.transition_applied then (copy action).success else (copy action).already;
  });
}

abbrev write_feedback : BookingWriteResult → DrawerFeedback
write_feedback result =
    let feedback = booking_feedback result in
    record { message = feedback.message; tone = feedback.tone; field = none; booking_id = none }

unfoldable pub create_succeeded : BookingWriteResult → DrawerState → DrawerState
create_succeeded result s = elim result.decision [
  | BookingDecision.allowed ↦ reset_create_drafts (record s {
    drawer_feedback = none;
    drawer_mode = none;
    selected_slot_key = none;
    notice = some (record {
      tone = success;
      message = "Booking created. Tee sheet refreshed from backend state.";
    });
  })
  | _ ↦ record s { drawer_feedback = some (write_feedback result) }
]

unfoldable pub update_succeeded : BookingWriteResult → DrawerState → DrawerState
update_succeeded result s = elim result.decision [
  | BookingDecision.allowed ↦ reset_edit_state (record s {
    drawer_feedback = none;
    drawer_mode = some DrawerMode.manage;
    notice = some (record {
      tone = success;
      message = "Booking updated. Tee sheet refreshed from backend state.";
    });
  })
  | _ ↦ record s { drawer_feedback = some (write_feedback result) }
]

-- `onSuccess` of the four finance requests
unfoldable pub finance_succeeded : FinanceAction → BookingFinanceResult → DrawerState → DrawerState
finance_succeeded action result s = elim result.decision [
  | MutationDecision.blocked ↦
      let feedback = booking_finance_feedback result in
      record s { drawer_feedback = some (record feedback { tone = error }) }
  | MutationDecision.allowed ↦ record s {
    drawer_feedback = some (record {
      message = booking_finance_success_message action result;
      tone = info;
      field = none;
      booking_id = none;
    });
  }
]

-- `onError` of the requests that make, change or charge a booking
unfoldable pub request_failed : Option String → DrawerState → DrawerState
request_failed e s = record s { drawer_feedback = some (error_feedback (as_message e)) }

-- result.failures[0]?.message ?? other
abbrev pub first_message : String → List BookingLifecycleMutationFailureDetail → String
first_message other [] = other
first_message other (failure ∷ failures) = failure.message

abbrev first_move_message : String → List BookingMoveFailureDetail → String
first_move_message other [] = other
first_move_message other (failure ∷ failures) = failure.message

abbrev pub is_drop_target : Option SelectedSlotKey → LaneSlot → Bool
is_drop_target none target = false
is_drop_target (some key) target =
    key.start_lane == target.start_lane && key.slot_datetime == target.slot.slot_datetime

module _ (Q : QueryClient) where
  open Q use {Cache, get, set}

  abbrev pub put_day : DayKey → Option TeeSheetDayResponse → Cache → Cache
  put_day key none cache = cache
  put_day key (some day) cache = set key day cache

  -- The optimistic update of a request, and the day that it keeps.
  abbrev pub update_day :
      Option DayKey
      → (Option TeeSheetDayResponse → Option TeeSheetDayResponse)
      → Cache
      → Option TeeSheetDayResponse × Cache
  update_day none change cache = (none, cache)
  update_day (some key) change cache = (get key cache, put_day key (change (get key cache)) cache)

  unfoldable pub on_lifecycle_mutate :
      Option DayKey → Action → String → Cache → Option TeeSheetDayResponse × Cache
  on_lifecycle_mutate current_day_key action booking_id cache =
      update_day current_day_key (optimistically_transition_booking booking_id action) cache

  unfoldable pub rollback_lifecycle_context :
      Option DayKey → Option TeeSheetDayResponse → Cache → Cache
  rollback_lifecycle_context none previous_day cache = cache
  rollback_lifecycle_context (some key) previous_day cache = put_day key previous_day cache

  unfoldable pub handle_lifecycle_blocked :
      Option DayKey
      → Action
      → String
      → BookingLifecycleMutationResult
      → Option TeeSheetDayResponse
      → DrawerState × Cache
      → DrawerState × Cache
  unfolding rollback_lifecycle_context
  handle_lifecycle_blocked key action booking_id result previous_day (s, cache) =
      let message = first_message (copy action).blocked result.failures in
      (tell booking_id message s, rollback_lifecycle_context key previous_day cache)

  unfoldable pub handle_lifecycle_error :
      Option DayKey
      → String
      → Option String
      → Option TeeSheetDayResponse
      → DrawerState × Cache
      → DrawerState × Cache
  unfolding rollback_lifecycle_context
  handle_lifecycle_error key booking_id e previous_day (s, cache) =
      (tell booking_id (as_message e) s, rollback_lifecycle_context key previous_day cache)

  -- `onSuccess` of the four requests of `useLifecycleMutation`
  unfoldable pub lifecycle_succeeded :
      Option DayKey
      → Action
      → String
      → BookingLifecycleMutationResult
      → Option TeeSheetDayResponse
      → DrawerState × Cache
      → DrawerState × Cache
  unfolding handle_lifecycle_blocked
  lifecycle_succeeded key action booking_id result previous_day (s, cache) = elim result.decision [
    | MutationDecision.blocked ↦
        handle_lifecycle_blocked key action booking_id result previous_day (s, cache)
    | MutationDecision.allowed ↦ (on_lifecycle_success action result s, cache)
  ]

  unfoldable pub on_move_mutate :
      Option DayKey → String → LaneSlot → Option String → Cache → Option TeeSheetDayResponse × Cache
  on_move_mutate current_day_key booking_id target participant_id cache =
      update_day current_day_key
        (λ day. optimistically_move_booking booking_id participant_id day target) cache

  unfoldable pub move_succeeded :
      Option DayKey
      → LaneSlot
      → BookingMoveResult
      → Option TeeSheetDayResponse
      → DrawerState × Cache
      → DrawerState × Cache
  unfolding rollback_lifecycle_context
  move_succeeded key target result previous_day (s, cache) = elim result.decision [
    | MutationDecision.blocked ↦
        let message = first_move_message "Move blocked." result.failures in
        let told = record s { notice = some (record { tone = error; message = message }) } in
        (
          (if is_drop_target s.selected_slot_key target
              then record told { drawer_feedback = some (error_feedback message) }
              else told),
          rollback_lifecycle_context key previous_day cache,
        )
    | MutationDecision.allowed ↦ (
      record (reset_edit_state s) {
        drawer_feedback = none;
        selected_slot_key = none;
        drawer_mode = none;
        expanded_booking_context = none;
        notice = some (record {
          tone = if result.transition_applied then success else info;
          message =
              if result.transition_applied
              then "Slot moved."
              else "Slot was already at the requested time.";
        });
      },
      cache,
    )
  ]

  unfoldable pub move_failed :
      Option DayKey
      → Option String
      → Option TeeSheetDayResponse
      → DrawerState × Cache
      → DrawerState × Cache
  unfolding rollback_lifecycle_context
  move_failed key e previous_day (s, cache) = (
    record s { notice = some (record { tone = error; message = as_message e }) },
    rollback_lifecycle_context key previous_day cache,
  )
