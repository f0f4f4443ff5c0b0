-- ===== src/Shortcuts.antt =====
-- frontend/src/features/tee-sheet/use-tee-sheet-shortcuts.ts: the keyboard of the tee sheet.
--
-- The listener is a function from a key press to the calls that it makes, with the state of the
-- two-key sequence. `shiftIsoDate` rests on the dates of the browser and is a parameter.
pub mod Selection
pub mod Keys
use greenlink.Prelude.{
  ℕ, ◌+◌, ◌-◌, String, Bool, true, false, ◌&&◌, ◌||◌, not, Option, none, some, List, [], ◌∷◌,
  if◌then◌else◌, ◌==◌, ◌!=◌, string_eq, option_eq, find?, get_elem?, length, ltb,
}
use greenlink.Prelude.Int.{ℤ, pos, negsuc, pos_part, neg_part, sub_ℕ}
use greenlink.Prelude.Text.{◌++ₛ◌, is_set, take_chars}
use greenlink.Types.Booking.{BookingStatus, reserved, status_eq, BookingParticipantSummary}
use greenlink.Types.TeeSheet.{TeeSheetBookingView, TeeSheetSlotView}
use greenlink.Sheet.Occupancy.{head?, or_else}

abbrev pub g_sequence_timeout_ms : ℕ
g_sequence_timeout_ms = 1000

-- `slotRows` as their slots; `today` and `next_density` are what the two callbacks return.
pub record Params : Type 0 where
  pub slot_rows : List TeeSheetSlotView
  pub selected_slot_key : Option String
  pub selected_date : String
  pub today : String
  pub next_density : String

-- document.activeElement
pub record ActiveElement : Type 0 where
  pub tag_name : String
  pub is_content_editable : Bool

pub record KeyPress : Type 0 where
  pub key : String
  pub shift_key : Bool
  pub meta_key : Bool
  pub alt_key : Bool
  pub now : ℕ

pub record MultiKeyState : Type 0 where
  pub last_key : Option String
  pub last_key_at : ℕ

abbrev pub cleared : MultiKeyState
cleared = record { last_key = none; last_key_at = 0 }

-- The calls that a handler makes.
pub data Effect : Type 0 where
  set_date : String → Effect
  set_selected_slot_key : Option String → Effect
  check_in_booking : String → Effect
  mark_no_show : String → Effect
  open_price_popover : Effect
  cycle_density : Effect
  announce : String → Effect
  scroll_to_top : Effect
  scroll_to_bottom : Effect
  focus_search : Effect
  focus_waitlist_add : Effect

-- What a key asks for.
pub data Command : Type 0 where
  jump_today : Command
  shift_day : ℤ → Command
  move_selection : ℤ → Command
  go_bottom : Command
  search : Command
  waitlist_add : Command
  check_in_selected : Command
  no_show_selected : Command
  density : Command
  price_breakdown : Command
  message : String → Command

-- rows.findIndex((row) => row.slot.slot_datetime === key), none for -1
unfoldable pub find_index : String → List TeeSheetSlotView → Option ℕ
find_index key [] = none
find_index key (slot ∷ slots) =
    let later = find_index key slots in
    if slot.slot_datetime == key then some 0 else elim later [ none ↦ none | some i ↦ some (i + 1) ]

abbrev pub current_index : Option String → List TeeSheetSlotView → Option ℕ
current_index none rows = none
current_index (some key) rows = if is_set (some key) then find_index key rows else none

abbrev pub select_slot : Option TeeSheetSlotView → List Effect
select_slot none = []
select_slot (some slot) = set_selected_slot_key (some slot.slot_datetime) ∷ []

-- `currentIndex + delta`, where it is not negative
abbrev pub next_slot : ℤ → List TeeSheetSlotView → Option TeeSheetSlotView
next_slot (negsuc _) rows = none
next_slot (pos next) rows = get_elem? rows next

unfoldable pub handle_move_selection : ℤ → Params → List Effect
unfolding find_index
handle_move_selection delta p = elim (current_index p.selected_slot_key p.slot_rows) [
  | none ↦ if ltb 0 (pos_part delta) then select_slot (head? p.slot_rows) else []
  | some index ↦
      select_slot (next_slot (sub_ℕ (index + pos_part delta) (neg_part delta)) p.slot_rows)
]

abbrev reserved_only : TeeSheetBookingView → Option TeeSheetBookingView
reserved_only booking = if booking.status != BookingStatus.reserved then none else some booking

abbrev first_booking : Option TeeSheetSlotView → Option TeeSheetBookingView
first_booking none = none
first_booking (some slot) = head? slot.bookings

abbrev and_then_reserved : Option TeeSheetBookingView → Option TeeSheetBookingView
and_then_reserved none = none
and_then_reserved (some booking) = reserved_only booking

unfoldable pub eligible_booking : Params → Option TeeSheetBookingView
eligible_booking p = elim p.selected_slot_key [
  | none ↦ none
  | some key ↦
      and_then_reserved (first_booking (find? (λ slot. slot.slot_datetime == key) p.slot_rows))
]

unfoldable pub describe_booking : TeeSheetBookingView → String
describe_booking booking =
    elim (or_else (find? (λ p. p.is_primary) booking.participants) (head? booking.participants)) [
      | none ↦ "booking " ++ₛ take_chars 6 booking.id
      | some p ↦ p.display_name
    ]

abbrev request_for : String → (String → Effect) → String → Option TeeSheetBookingView → List Effect
request_for refusal call prefix none = announce refusal ∷ []
request_for refusal call prefix (some booking) =
    call booking.id ∷ announce (prefix ++ₛ describe_booking booking) ∷ []

abbrev shifted : Option String → List Effect
shifted none = []
shifted (some date) = set_date date ∷ set_selected_slot_key none ∷ []

module _ (shift_iso_date : String → ℤ → Option String) where
  unfoldable pub run : Command → Params → List Effect
  unfolding handle_move_selection eligible_booking describe_booking
  run jump_today p = set_date p.today ∷ set_selected_slot_key none ∷ []
  run (shift_day delta) p = shifted (shift_iso_date p.selected_date delta)
  run (move_selection delta) p = handle_move_selection delta p
  run go_bottom p = scroll_to_bottom ∷ set_selected_slot_key none ∷ []
  run search p = focus_search ∷ []
  run waitlist_add p = focus_waitlist_add ∷ []
  run check_in_selected p =
      request_for "No eligible booking to check in." check_in_booking "Checking in "
        (eligible_booking p)
  run no_show_selected p =
      request_for "No eligible booking to mark no-show." mark_no_show "Marking no-show: "
        (eligible_booking p)
  run density p = cycle_density ∷ announce ("Density: " ++ₛ p.next_density) ∷ []
  run price_breakdown p = elim p.selected_slot_key [
    | none ↦ announce "Select a slot first to view its price breakdown." ∷ []
    | some _ ↦ open_price_popover ∷ []
  ]
  run (message text) p = announce text ∷ []

-- The switch on a key without a modifier.
abbrev bare_command : String → Option Command
bare_command key =
    if key == "t"
    then some jump_today
    else if key == "ArrowLeft"
    then some (shift_day (negsuc 0))
    else if key == "ArrowRight"
    then some (shift_day (pos 1))
    else if key == "j"
    then some (move_selection (pos 1))
    else if key == "k"
    then some (move_selection (negsuc 0))
    else if key == "h" || key == "l"
    then some (message "Column selection not yet available.")
    else if key == "/"
    then some search
    else if key == "n"
    then some (message "New booking flow not yet built.")
    else if key == "w"
    then some waitlist_add
    else if key == "s"
    then some (message "Squeeze-insert deferred from Phase 10.")
    else if key == "c"
    then some check_in_selected
    else if key == "p"
    then some (message "Pace status flow not yet built.")
    else if key == "x"
    then some no_show_selected
    else if key == "v"
    then some density
    else none

unfoldable pub command_of : KeyPress → Option Command
command_of e =
    if e.meta_key && (e.key == "z" || e.key == "Z")
    then some (message "Undo not yet available.")
    else if e.alt_key && (e.key == "p" || e.key == "P")
    then some price_breakdown
    else if e.alt_key && (e.key == "a" || e.key == "A")
    then some (message "Audit history not yet available.")
    else if e.shift_key && e.key == "T"
    then some (message "Tournament mode arrives in Slice 12.")
    else if e.shift_key && e.key == "M"
    then some (message "Marshal view arrives in Phase 12.")
    else if e.shift_key && e.key == "G"
    then some go_bottom
    else if e.meta_key || e.alt_key || e.shift_key
    then none
    else bare_command e.key

-- The skip-gate.
abbrev pub is_typing : Option ActiveElement → Bool
is_typing none = false
is_typing (some active) =
    active.tag_name == "INPUT" || active.tag_name == "TEXTAREA" || active.is_content_editable

abbrev pub is_plain_g : KeyPress → Bool
is_plain_g e = e.key == "g" && not e.shift_key && not e.meta_key && not e.alt_key

abbrev pub is_second_g : KeyPress → MultiKeyState → Bool
is_second_g e last =
    last.last_key == some "g" && ltb (e.now - last.last_key_at) g_sequence_timeout_ms

module _ (shift_iso_date : String → ℤ → Option String) where
  abbrev pub run_if : Option Command → Params → List Effect
  run_if none p = []
  run_if (some command) p = run shift_iso_date command p

  unfoldable pub on_key :
      Option ActiveElement → Params → KeyPress → MultiKeyState → MultiKeyState × List Effect
  unfolding run command_of
  on_key active p e last =
      if is_typing active
      then (last, [])
      else if is_plain_g e
      then (if is_second_g e last
          then (cleared, scroll_to_top ∷ set_selected_slot_key none ∷ [])
          else (record { last_key = some "g"; last_key_at = e.now }, []))
      else (cleared, run_if (command_of e) p)
