-- ===== src/Page/Shown.antt =====
-- What the page points at over its runs.
use greenlink.Prelude.{
  ℕ, String, ◌≡◌, refl, Bool, false, Option, none, List, [], ◌∷◌, if◌then◌else◌, Bool-cases, inl,
  inr,
}
use greenlink.Types.TeeSheet.{TeeSheetSlotView, TeeSheetDayResponse}
use greenlink.Shortcuts.{ActiveElement}
use greenlink.Page.{
  PageState, slot_rows, is_gone, settle, go_to, change_interval, refetched_day, select_slot,
  handle_price_click, dismiss_price_popover, open_shortcuts, dismiss_shortcuts, escape,
  question_mark,
}

pub data PageEvent : Type 0 where
  goes_to : Option String → String → Option TeeSheetDayResponse → PageEvent
  changes_interval : ℕ → Option TeeSheetDayResponse → PageEvent
  refetches : Option TeeSheetDayResponse → PageEvent
  selects : Option String → PageEvent
  clicks_price : String → PageEvent
  presses_escape : Bool → PageEvent
  dismisses_popover opens_help dismisses_help : PageEvent
  presses_question_mark : Option ActiveElement → PageEvent

abbrev pub handle : PageEvent → PageState → PageState
handle (goes_to course date day) s = go_to course date day s
handle (changes_interval value day) s = change_interval value day s
handle (refetches day) s = refetched_day day s
handle (selects key) s = select_slot key s
handle (clicks_price key) s = handle_price_click key s
handle (presses_escape help_first) s = escape help_first s
handle dismisses_popover s = dismiss_price_popover s
handle opens_help s = open_shortcuts s
handle dismisses_help s = dismiss_shortcuts s
handle (presses_question_mark active) s = question_mark active s

-- Every event is followed by its render and the effects.
abbrev pub run : List PageEvent → PageState → PageState
run [] s = settle s
run (event ∷ events) s = run events (settle (handle event s))

-- While there are rows, a slot that is pointed at is one of them.
pub record IsShown (s : PageState) : Type 0 where
  pub selection : is_gone s.selected_slot_key (slot_rows s.day) ≡ false
  pub popover : is_gone s.price_popover (slot_rows s.day) ≡ false
  pub stable : settle s ≡ s

gone-cleared :
    (key : Option String) (rows : List (TeeSheetSlotView × Bool))
    → is_gone (if is_gone key rows then none else key) rows ≡ false
gone-cleared key rows = elim (Bool-cases (is_gone key rows)) [
  | inl gone ↦ rw gone refl
  | inr shown ↦ rw shown shown
]

settle-IsShown : (s : PageState) → IsShown (settle s)
unfolding settle
settle-IsShown s =
    let selected = gone-cleared s.selected_slot_key (slot_rows s.day) in
    let popped = gone-cleared s.price_popover (slot_rows s.day) in
    record { selection = selected; popover = popped; stable = rw (selected, popped) refl }

-- After any sequence of events, each with its render and effects, the selection and the price popover
-- point at a slot of the rows, or at none, or there are no rows; and the effects, run once more,
-- change nothing.
pub run-IsShown : (events : List PageEvent) (s : PageState) → IsShown (run events s)
run-IsShown [] s = settle-IsShown s
run-IsShown (event ∷ events) s = run-IsShown events (settle (handle event s))
