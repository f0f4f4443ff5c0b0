-- ===== src/GolfPage/Drawer.antt =====
-- frontend/src/pages/admin-golf-tee-sheet-page.tsx: the drawer, the expanded booking and the two
-- parties that the page keeps, and what its buttons do to them.
pub mod Requests
pub mod Open
pub mod Rollback
use greenlink.Prelude.{
  String, Bool, true, false, ◌&&◌, Option, none, some, List, [], ◌∷◌, if◌then◌else◌, ◌==◌,
  string_eq, option_eq,
}
use greenlink.Prelude.Text.{◌++ₛ◌, truthy}
use greenlink.Types.Booking.{StartLane, lane_eq, BookingParticipantType, BookingSummary}
use greenlink.Types.TeeSheet.{BookingRuleAppliesTo, TeeSheetBookingView}
use greenlink.Sheet.Occupancy.{can_manage, can_create, booking_lead_participant}
use greenlink.Sheet.Status.{Action}
use greenlink.BookingMove.{LaneSlot}
use greenlink.GolfPage.Party.{DraftParticipant, initial_drafts, participant_drafts_from_booking}
use greenlink.GolfPage.Party.Kept.{PartyEdit, edit}
use greenlink.GolfPage.Feedback.{Notice, DrawerFeedback}

pub data DrawerMode : Type 0 where
  create manage : DrawerMode

pub record SelectedSlotKey : Type 0 where
  pub start_lane : Option StartLane
  pub slot_datetime : String

pub record ExpandedBookingContext : Type 0 where
  pub booking_id : String
  pub cell_key : String
  pub participant_id : Option String
  pub focused_participant_name : Option String
  pub focused_participant_type : Option BookingParticipantType
  pub start_lane : Option StartLane
  pub slot_datetime : String

pub record InlineAction : Type 0 where
  pub action : Action
  pub booking_id : String

-- The state variables that these operations write.
pub record DrawerState : Type 0 where
  pub drawer_mode : Option DrawerMode
  pub selected_slot_key : Option SelectedSlotKey
  pub drawer_feedback : Option DrawerFeedback
  pub notice : Option Notice
  pub drafts : List DraftParticipant
  pub create_cart_flag : Bool
  pub create_caddie_flag : Bool
  pub editing_booking_id : Option String
  pub edit_drafts : List DraftParticipant
  pub edit_cart_flag : Bool
  pub edit_caddie_flag : Bool
  pub inline_action_state : Option InlineAction
  pub expanded_booking_context : Option ExpandedBookingContext

abbrev pub new_drawer : DrawerState
new_drawer = record {
  drawer_mode = none;
  selected_slot_key = none;
  drawer_feedback = none;
  notice = none;
  drafts = initial_drafts BookingRuleAppliesTo.member;
  create_cart_flag = false;
  create_caddie_flag = false;
  editing_booking_id = none;
  edit_drafts = [];
  edit_cart_flag = false;
  edit_caddie_flag = false;
  inline_action_state = none;
  expanded_booking_context = none;
}

unfoldable pub matches_expanded_booking : Option ExpandedBookingContext → LaneSlot → String → Bool
matches_expanded_booking none slot booking_id = false
matches_expanded_booking (some context) slot booking_id =
    context.booking_id == booking_id
    && context.start_lane == slot.start_lane
    && context.slot_datetime == slot.slot.slot_datetime

abbrev cell_of : Option ExpandedBookingContext → String → Bool
cell_of none cell_key = false
cell_of (some context) cell_key = context.cell_key == cell_key

unfoldable pub matches_expanded_booking_cell :
    Option ExpandedBookingContext → LaneSlot → String → String → Bool
unfolding matches_expanded_booking
matches_expanded_booking_cell context slot booking_id cell_key =
    matches_expanded_booking context slot booking_id && cell_of context cell_key

abbrev pub reset_create_drafts : DrawerState → DrawerState
reset_create_drafts s = record s {
  drafts = initial_drafts BookingRuleAppliesTo.member;
  create_cart_flag = false;
  create_caddie_flag = false;
}

abbrev pub reset_edit_state : DrawerState → DrawerState
reset_edit_state s = record s {
  editing_booking_id = none;
  edit_drafts = [];
  edit_cart_flag = false;
  edit_caddie_flag = false;
}

abbrev pub slot_key_of : LaneSlot → SelectedSlotKey
slot_key_of slot = record { start_lane = slot.start_lane; slot_datetime = slot.slot.slot_datetime }

abbrev pub lead_context : LaneSlot → String → ExpandedBookingContext
lead_context slot booking_id = record {
  booking_id = booking_id;
  cell_key = booking_id ++ₛ ":lead";
  participant_id = none;
  focused_participant_name = none;
  focused_participant_type = none;
  start_lane = slot.start_lane;
  slot_datetime = slot.slot.slot_datetime;
}

abbrev pub managed_context :
    Option ExpandedBookingContext → LaneSlot → Option String → Option ExpandedBookingContext
managed_context expanded slot none = none
managed_context expanded slot (some id) =
    if truthy id
    then (if matches_expanded_booking expanded slot id
        then expanded
        else some (lead_context slot id))
    else none

unfoldable pub open_manage : LaneSlot → Option String → DrawerState → DrawerState
open_manage slot initial_booking_id s =
    if can_manage slot.slot
    then reset_edit_state (
        reset_create_drafts (record s {
          notice = none;
          drawer_feedback = none;
          expanded_booking_context =
              managed_context s.expanded_booking_context slot initial_booking_id;
          drawer_mode = some manage;
          selected_slot_key = some (slot_key_of slot);
        }))
    else s

unfoldable pub open_create : LaneSlot → DrawerState → DrawerState
open_create slot s =
    if can_create slot.slot
    then reset_edit_state (
        reset_create_drafts (record s {
          notice = none;
          drawer_feedback = none;
          expanded_booking_context = none;
          drawer_mode = some create;
          selected_slot_key = some (slot_key_of slot);
        }))
    else s

unfoldable pub close : DrawerState → DrawerState
close s = reset_edit_state (
    reset_create_drafts
      (record s { drawer_mode = none; selected_slot_key = none; drawer_feedback = none }))

-- A click on a cell: a second click on the same cell closes the booking.
unfoldable pub toggle_booking_expansion :
    LaneSlot → ExpandedBookingContext → DrawerState → DrawerState
toggle_booking_expansion slot context s = record s {
  expanded_booking_context =
      if matches_expanded_booking_cell s.expanded_booking_context slot context.booking_id
        context.cell_key
      then none
      else some (record context {
        start_lane = slot.start_lane;
        slot_datetime = slot.slot.slot_datetime;
      });
}

abbrev focus_on : LaneSlot → TeeSheetBookingView → ExpandedBookingContext
focus_on slot booking = elim (booking_lead_participant booking) [
  | none ↦ lead_context slot booking.id
  | some lead ↦ record (lead_context slot booking.id) {
    participant_id = lead.id;
    focused_participant_name = some lead.display_name;
    focused_participant_type = some lead.participant_type;
  }
]

-- `navigateToBookingContext`, in the state that is kept here
unfoldable pub navigate_to_booking_context :
    LaneSlot → TeeSheetBookingView → DrawerState → DrawerState
navigate_to_booking_context slot booking s = record s {
  selected_slot_key = none;
  drawer_mode = none;
  expanded_booking_context = some (focus_on slot booking);
}

abbrev is_true : Option Bool → Bool
is_true none = false
is_true (some b) = b

unfoldable pub start_edit : BookingSummary → DrawerState → DrawerState
start_edit booking s = record s {
  drawer_feedback = none;
  editing_booking_id = some booking.id;
  edit_drafts = participant_drafts_from_booking booking;
  edit_cart_flag = is_true booking.cart_flag;
  edit_caddie_flag = is_true booking.caddie_flag;
}

unfoldable pub cancel_edit : DrawerState → DrawerState
cancel_edit s = record (reset_edit_state s) { drawer_feedback = none }

abbrev pub edit_party : PartyEdit → DrawerState → DrawerState
edit_party e s = record s { drafts = edit e s.drafts }

abbrev pub edit_edited_party : PartyEdit → DrawerState → DrawerState
edit_edited_party e s = record s { edit_drafts = edit e s.edit_drafts }

-- The effect on a selected slot that the day has lost.
unfoldable pub lose_slot : DrawerState → DrawerState
lose_slot s = reset_edit_state (record s {
  selected_slot_key = none;
  drawer_mode = none;
  drawer_feedback = none;
  create_cart_flag = false;
  create_caddie_flag = false;
})

-- `inlineExpandedBookingContext`
abbrev pub inline_expanded_booking_context : DrawerState → Option ExpandedBookingContext
inline_expanded_booking_context s = elim s.drawer_mode [
  | some manage ↦ none
  | some create ↦ s.expanded_booking_context
  | none ↦ s.expanded_booking_context
]
