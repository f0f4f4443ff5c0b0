-- ===== src/Swap.antt =====
-- frontend/src/features/tee-sheet/use-participant-swap.ts: two moves in sequence, with a retry of
-- the second and a restore of the first. The handlers of the hook return the new state and the
-- request that they make; the answers arrive as events. The optimistic work of the requests is
-- that of `Move`.
pub mod Protocol
use greenlink.Prelude.{
  String, Bool, true, false, Option, none, some, List, [], ◌∷◌, ◌++◌, if◌then◌else◌,
}
use greenlink.Types.Booking.{BookingMoveResult}
use greenlink.Types.TeeSheet.{TeeSheetRow}
use greenlink.Prelude.{ℕ}
use greenlink.Move.{MoveError, MoveParticipantVariables}
use greenlink.Row.{target_row_has_intermediate_space}

pub record SwapParticipant : Type 0 where
  pub booking_id : String
  pub participant_id : String
  pub display_name : String
  pub party_size : ℕ
  pub slot_datetime : String
  pub row_key : String

pub record SwapInput : Type 0 where
  pub participant_a : SwapParticipant
  pub participant_b : SwapParticipant

pub data SwapState : Type 0 where
  idle : SwapState
  first_pending : SwapInput → SwapState
  second_pending : SwapInput → BookingMoveResult → SwapState
  succeeded : SwapInput → SwapState
  partial_failure_first : SwapInput → MoveError → SwapState
  partial_failure_second : SwapInput → BookingMoveResult → MoveError → SwapState
  rejected_target_row_full : SwapInput → SwapState
  restoring : SwapInput → BookingMoveResult → SwapState
  restore_failed : SwapInput → BookingMoveResult → MoveError → SwapState
  restored : SwapInput → SwapState

pub data SwapEvent : Type 0 where
  start : SwapInput → SwapEvent
  first_succeeded : BookingMoveResult → SwapInput → SwapEvent
  first_failed : MoveError → SwapInput → SwapEvent
  second_pending_event : SwapEvent
  second_succeeded : SwapInput → SwapEvent
  second_failed : MoveError → SwapInput → SwapEvent
  reject_row_full : SwapInput → SwapEvent
  restore_started : SwapEvent
  restore_succeeded : SwapInput → SwapEvent
  restore_failed_event : MoveError → SwapEvent
  reset : SwapEvent

unfoldable pub reducer : SwapState → SwapEvent → SwapState
reducer state (start input) = first_pending input
reducer state (reject_row_full input) = rejected_target_row_full input
reducer state (first_failed error input) = partial_failure_first input error
reducer state (first_succeeded result input) = second_pending input result
reducer state second_pending_event = state
reducer state (second_succeeded input) = succeeded input
reducer (second_pending _ first_result) (second_failed error input) =
    partial_failure_second input first_result error
reducer state (second_failed error input) = state
reducer (partial_failure_second input first_result _) restore_started = restoring input first_result
reducer state restore_started = state
reducer state (restore_succeeded input) = restored input
reducer (restoring input first_result) (restore_failed_event error) =
    restore_failed input first_result error
reducer state (restore_failed_event error) = state
reducer state reset = idle

-- The three calls of `moveMutation.mutate`, which differ in their variables and callbacks.
pub data Request : Type 0 where
  move_a : SwapInput → Request
  move_b : SwapInput → Request
  restore_a : SwapInput → BookingMoveResult → Request

abbrev booking_id_of : Option String → String → String
booking_id_of none original = original
booking_id_of (some id) original = id

abbrev result_booking_id : BookingMoveResult → Option String
result_booking_id result = elim result.booking [ none ↦ none | some booking ↦ some booking.id ]

unfoldable pub request_variables : Request → MoveParticipantVariables
request_variables (move_a input) = record {
  booking_id = input.participant_a.booking_id;
  participant_id = input.participant_a.participant_id;
  target_slot_datetime = input.participant_b.slot_datetime;
  source_slot_datetime = input.participant_a.slot_datetime;
  display_name = input.participant_a.display_name;
}
request_variables (move_b input) = record {
  booking_id = input.participant_b.booking_id;
  participant_id = input.participant_b.participant_id;
  target_slot_datetime = input.participant_a.slot_datetime;
  source_slot_datetime = input.participant_b.slot_datetime;
  display_name = input.participant_b.display_name;
}
request_variables (restore_a input first_result) = record {
  booking_id = booking_id_of (result_booking_id first_result) input.participant_a.booking_id;
  participant_id = input.participant_a.participant_id;
  target_slot_datetime = input.participant_a.slot_datetime;
  source_slot_datetime = input.participant_b.slot_datetime;
  display_name = input.participant_a.display_name;
}

-- The hook between two events: its state and the request that has not been answered.
pub record Hook : Type 0 where
  pub state : SwapState
  pub pending : Option Request

abbrev pub initial : Hook
initial = record { state = idle; pending = none }

unfoldable pub initiate : SwapInput → TeeSheetRow → Hook → Hook
unfolding reducer
initiate input target_row hook =
    if target_row_has_intermediate_space target_row input.participant_b.slot_datetime
    then record { state = reducer hook.state (start input); pending = some (move_a input) }
    else record hook { state = reducer hook.state (reject_row_full input) }

abbrev retry_from : SwapState → Hook → Hook
retry_from (partial_failure_second input first_result _) hook = record {
  state = reducer hook.state (first_succeeded first_result input);
  pending = some (move_b input);
}
retry_from state hook = hook

unfoldable pub retry_second : Hook → Hook
unfolding reducer
retry_second hook = retry_from hook.state hook

abbrev restore_from : SwapState → Hook → Hook
restore_from (partial_failure_second input first_result _) hook = record {
  state = reducer hook.state restore_started;
  pending = some (restore_a input first_result);
}
restore_from state hook = hook

unfoldable pub restore_first : Hook → Hook
unfolding reducer
restore_first hook = restore_from hook.state hook

unfoldable pub reset_hook : Hook → Hook
unfolding reducer
reset_hook hook = record hook { state = reducer hook.state reset }

-- The callbacks of a request that succeeds or fails.
unfoldable pub on_success : Request → BookingMoveResult → Hook → Hook
unfolding reducer
on_success (move_a input) result hook = record {
  state = reducer hook.state (first_succeeded result input);
  pending = some (move_b input);
}
on_success (move_b input) result hook = record {
  state = reducer hook.state (second_succeeded input);
  pending = none;
}
on_success (restore_a input _) result hook = record {
  state = reducer hook.state (restore_succeeded input);
  pending = none;
}

unfoldable pub on_failure : Request → MoveError → Hook → Hook
unfolding reducer
on_failure (move_a input) error hook = record {
  state = reducer hook.state (first_failed error input);
  pending = none;
}
on_failure (move_b input) error hook = record {
  state = reducer hook.state (second_failed error input);
  pending = none;
}
on_failure (restore_a input _) error hook = record {
  state = reducer hook.state (restore_failed_event error);
  pending = none;
}
