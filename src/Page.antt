-- ===== src/Page.antt =====
-- frontend/src/pages/admin-tee-sheet-page.tsx: what the page keeps of its own, and the Escape key,
-- which three listeners share: the page's, that of components/ui/PricePopover.tsx and that of
-- components/ui/ShortcutHelpModal.tsx.
--
-- The anchor of the popover, an element of the page, is left out: the popover is its slot.
pub mod Tiers
pub mod Shown
use greenlink.Prelude.{
  ℕ, String, Bool, true, false, ◌&&◌, ◌||◌, not, Option, none, some, List, [], ◌∷◌, if◌then◌else◌,
  ◌==◌, ◌!=◌, string_eq, option_eq, find?,
}
use greenlink.Types.TeeSheet.{TeeSheetSlotView, TeeSheetRow, TeeSheetDayResponse}
use greenlink.Row.{RowState, blocked, row_state_from_display_status}
use greenlink.Shortcuts.{ActiveElement}
use greenlink.Types.Booking.{BookingStatus, reserved}
use greenlink.Types.TeeSheet.{TeeSheetBookingView}

pub record PageState : Type 0 where
  pub course_id : Option String
  pub selected_date : String
  pub interval_override : Option ℕ
  pub day : Option TeeSheetDayResponse
  pub selected_slot_key : Option String
  pub price_popover : Option String
  pub shortcuts_open : Bool

abbrev is_blocked_slot : TeeSheetSlotView → Bool
is_blocked_slot slot = elim (row_state_from_display_status slot.display_status) [
  | blocked ↦ true
  | _ ↦ false
]

-- The slots behind the first one, with whether each continues a blocked one.
abbrev coalesced : TeeSheetSlotView → List TeeSheetSlotView → List (TeeSheetSlotView × Bool)
coalesced prev [] = []
coalesced prev (slot ∷ slots) =
    (slot, is_blocked_slot prev && is_blocked_slot slot) ∷ coalesced slot slots

abbrev lane_rows : List TeeSheetSlotView → List (TeeSheetSlotView × Bool)
lane_rows [] = []
lane_rows (slot ∷ slots) = (slot, false) ∷ coalesced slot slots

abbrev first_lane : List TeeSheetRow → List (TeeSheetSlotView × Bool)
first_lane [] = []
first_lane (lane ∷ _) = lane_rows lane.slots

unfoldable pub slot_rows : Option TeeSheetDayResponse → List (TeeSheetSlotView × Bool)
slot_rows none = []
slot_rows (some day) = first_lane day.rows

abbrev pub is_row : String → TeeSheetSlotView × Bool → Bool
is_row key row = row.0.slot_datetime == key

abbrev slot_of_row : Option (TeeSheetSlotView × Bool) → Option TeeSheetSlotView
slot_of_row none = none
slot_of_row (some row) = some row.0

-- `selectedSlot` and `popoverSlot`
abbrev pub slot_for : Option String → List (TeeSheetSlotView × Bool) → Option TeeSheetSlotView
slot_for none rows = none
slot_for (some key) rows = slot_of_row (find? (is_row key) rows)

abbrev pub is_some {ℓ} : {A : Type ℓ} → Option A → Bool
is_some none = false
is_some (some _) = true

abbrev pub is_empty {ℓ} : {A : Type ℓ} → List A → Bool
is_empty [] = true
is_empty (_ ∷ _) = false

-- A key whose slot is gone, while there are rows.
abbrev pub is_gone : Option String → List (TeeSheetSlotView × Bool) → Bool
is_gone key rows = is_some key && not (is_some (slot_for key rows)) && not (is_empty rows)

-- The two effects that clear silently, which run behind every render.
unfoldable pub settle : PageState → PageState
unfolding slot_rows
settle s = record s {
  selected_slot_key =
      if is_gone s.selected_slot_key (slot_rows s.day) then none else s.selected_slot_key;
  price_popover = if is_gone s.price_popover (slot_rows s.day) then none else s.price_popover;
}

-- The effect on the course and the date, with the day that the query has for them.
unfoldable pub go_to : Option String → String → Option TeeSheetDayResponse → PageState → PageState
go_to course date day s =
    let t = record s { course_id = course; selected_date = date; day = day } in
    if course != s.course_id || date != s.selected_date
    then record t { selected_slot_key = none; price_popover = none }
    else t

-- `onIntervalChange`
unfoldable pub change_interval : ℕ → Option TeeSheetDayResponse → PageState → PageState
change_interval value day s = record s {
  interval_override = some value;
  selected_slot_key = none;
  day = day;
}

abbrev pub refetched_day : Option TeeSheetDayResponse → PageState → PageState
refetched_day day s = record s { day = day }

abbrev pub select_slot : Option String → PageState → PageState
select_slot key s = record s { selected_slot_key = key }

unfoldable pub handle_price_click : String → PageState → PageState
handle_price_click key s = record s { price_popover = some key }

unfoldable pub dismiss_price_popover : PageState → PageState
dismiss_price_popover s = record s { price_popover = none }

unfoldable pub open_shortcuts : PageState → PageState
open_shortcuts s = record s { shortcuts_open = true }

unfoldable pub dismiss_shortcuts : PageState → PageState
dismiss_shortcuts s = record s { shortcuts_open = false }

-- The listeners on Escape. That of the popover looks for an open modal in the document.
unfoldable pub page_escape : PageState → PageState
page_escape s =
    if s.shortcuts_open || is_some s.price_popover then s else record s { selected_slot_key = none }

unfoldable pub popover_escape : PageState → PageState
unfolding dismiss_price_popover
popover_escape s =
    if not (is_some s.price_popover) || s.shortcuts_open then s else dismiss_price_popover s

unfoldable pub modal_escape : PageState → PageState
unfolding dismiss_shortcuts
modal_escape s = if s.shortcuts_open then dismiss_shortcuts s else s

-- The listeners run in the order of their registration: the page's with the page, those of the
-- popover and of the help when they open. `help_first` is that the help opened before the popover:
-- then the help has left the document when the popover's listener looks for it.
unfoldable pub escape : Bool → PageState → PageState
unfolding page_escape popover_escape modal_escape
escape help_first s =
    let after = page_escape s in
    if help_first then popover_escape (modal_escape after) else modal_escape (popover_escape after)

abbrev is_typing : Option ActiveElement → Bool
is_typing none = false
is_typing (some e) = e.tag_name == "INPUT" || e.tag_name == "TEXTAREA" || e.is_content_editable

-- The listener on "?"
unfoldable pub question_mark : Option ActiveElement → PageState → PageState
question_mark active s = if is_typing active then s else record s { shortcuts_open = true }

abbrev first_booking : Option TeeSheetSlotView → Option TeeSheetBookingView
first_booking none = none
first_booking (some slot) = elim slot.bookings [ [] ↦ none | booking ∷ _ ↦ some booking ]

abbrev is_reserved : BookingStatus → Bool
is_reserved reserved = true
is_reserved _ = false

abbrev reserved_id : Option TeeSheetBookingView → Option String
reserved_id none = none
reserved_id (some booking) = if is_reserved booking.status then some booking.id else none

-- `onShortcutC` of the footer: the booking that is checked in
unfoldable pub footer_check_in : PageState → Option String
unfolding slot_rows
footer_check_in s = reserved_id (first_booking (slot_for s.selected_slot_key (slot_rows s.day)))
