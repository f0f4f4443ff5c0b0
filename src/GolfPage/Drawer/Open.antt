-- ===== src/GolfPage/Drawer/Open.antt =====
-- What the page keeps true of its drawer and of its two parties.
use greenlink.Prelude.{◌≡◌, ◌≤◌, refl, String, Option, none, some, List, [], ◌∷◌, length}
use greenlink.Types.Booking.{
  BookingParticipantType, BookingSummary, BookingLifecycleMutationResult, BookingMoveResult,
}
use greenlink.Types.Results.{BookingDecision, BookingWriteResult, BookingFinanceResult}
use greenlink.Types.TeeSheet.{TeeSheetBookingView, TeeSheetDayResponse}
use greenlink.Sheet.Status.{Action}
use greenlink.Cache.{DayKey, QueryClient}
use greenlink.BookingMove.{LaneSlot}
use greenlink.GolfPage.Party.{DraftParticipant}
use greenlink.GolfPage.Party.Kept.{PartyEdit, primaries, IsPartyOf}
use greenlink.GolfPage.Feedback.{FinanceAction}
use greenlink.GolfPage.Drawer.{
  DrawerMode, create, manage, SelectedSlotKey, ExpandedBookingContext, DrawerState, new_drawer,
  open_manage, open_create, close, toggle_booking_expansion, navigate_to_booking_context,
  start_edit, cancel_edit, edit_party, edit_edited_party, lose_slot,
  inline_expanded_booking_context,
}
use greenlink.GolfPage.Drawer.Requests.{
  create_succeeded, update_succeeded, finance_succeeded, request_failed, lifecycle_succeeded,
  handle_lifecycle_error, move_succeeded, move_failed,
}

-- One participant is primary, and four take part at most: the party of a new booking.
pub record IsParty (ds : List DraftParticipant) : Type 0 where
  pub type : BookingParticipantType
  pub one : primaries ds ≡ type ∷ []
  pub few : length ds ≤ 4

pub data IsEdited : Option String → List DraftParticipant → Type 0 where
  idle : IsEdited none []
  busy :
      (b : BookingSummary) {ds : List DraftParticipant} → IsPartyOf b ds → IsEdited (some b.id) ds

-- A booking is made at a selected slot, with no other one in edit.
pub data IsOpen : Option DrawerMode → Option SelectedSlotKey → Option String → Type 0 where
  closed : (k : Option SelectedSlotKey) (e : Option String) → IsOpen none k e
  creating : (k : SelectedSlotKey) → IsOpen (some create) (some k) none
  managing : (k : Option SelectedSlotKey) (e : Option String) → IsOpen (some manage) k e

pub record IsTidy (s : DrawerState) : Type 0 where
  pub party : IsParty s.drafts
  pub edited : IsEdited s.editing_booking_id s.edit_drafts
  pub shown : IsOpen s.drawer_mode s.selected_slot_key s.editing_booking_id

-- What may happen: the buttons, where they are on the screen, and the answers, at any time.
pub data Step (s : DrawerState) : DrawerState → Type 1 where
  manage_opened : (slot : LaneSlot) (id : Option String) → Step s (open_manage slot id s)
  create_opened : (slot : LaneSlot) → Step s (open_create slot s)
  drawer_closed : Step s (close s)
  toggled :
      (slot : LaneSlot) (c : ExpandedBookingContext) → Step s (toggle_booking_expansion slot c s)
  navigated :
      (slot : LaneSlot) (b : TeeSheetBookingView) → Step s (navigate_to_booking_context slot b s)
  edit_started : (b : BookingSummary) → s.drawer_mode ≡ some manage → Step s (start_edit b s)
  edit_cancelled : Step s (cancel_edit s)
  party_edited : (e : PartyEdit) → Step s (edit_party e s)
  edited_party_edited :
      (e : PartyEdit) (id : String)
      → s.editing_booking_id ≡ some id
      → Step s (edit_edited_party e s)
  slot_lost : Step s (lose_slot s)
  lifecycle_answered :
      (Q : QueryClient) (k : Option DayKey) (a : Action) (id : String)
      (r : BookingLifecycleMutationResult) (d : Option TeeSheetDayResponse)
      (c : QueryClient.Cache Q)
      → Step s (lifecycle_succeeded Q k a id r d (s, c)).0
  lifecycle_failed :
      (Q : QueryClient) (k : Option DayKey) (id : String) (e : Option String)
      (d : Option TeeSheetDayResponse) (c : QueryClient.Cache Q)
      → Step s (handle_lifecycle_error Q k id e d (s, c)).0
  create_answered : (r : BookingWriteResult) → Step s (create_succeeded r s)
  update_answered : (r : BookingWriteResult) → Step s (update_succeeded r s)
  finance_answered :
      (a : FinanceAction) (r : BookingFinanceResult) → Step s (finance_succeeded a r s)
  failed : (e : Option String) → Step s (request_failed e s)
  move_answered :
      (Q : QueryClient) (k : Option DayKey) (t : LaneSlot) (r : BookingMoveResult)
      (d : Option TeeSheetDayResponse) (c : QueryClient.Cache Q)
      → Step s (move_succeeded Q k t r d (s, c)).0
  move_lost :
      (Q : QueryClient) (k : Option DayKey) (e : Option String) (d : Option TeeSheetDayResponse)
      (c : QueryClient.Cache Q)
      → Step s (move_failed Q k e d (s, c)).0

pub data Reach : DrawerState → Type 1 where
  start : Reach new_drawer
  next : {s t : DrawerState} → Reach s → Step s t → Reach t

-- The answer to a saved edit that comes after the drawer was closed leaves the drawer in the mode
-- of managing bookings, with no slot, and so no click on a booking shows it any more.
pub late_update_hides :
    (r : BookingWriteResult) (s : DrawerState) (slot : LaneSlot) (c : ExpandedBookingContext)
    → r.decision ≡ BookingDecision.allowed
    → (let late = update_succeeded r (close s) in
        (late.drawer_mode ≡ some manage)
        × (late.selected_slot_key ≡ none)
        × (inline_expanded_booking_context (toggle_booking_expansion slot c late) ≡ none))
unfolding update_succeeded close toggle_booking_expansion
late_update_hides r s slot c e = rw e (refl, refl, refl)
