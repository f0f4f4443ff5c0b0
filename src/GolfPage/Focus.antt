-- ===== src/GolfPage/Focus.antt =====
-- frontend/src/pages/admin-golf-tee-sheet-page.tsx: the slot of the drawer, with the expanded
-- booking and its focused participant first.
pub mod First
use greenlink.Prelude.{
  ℕ, zero, suc, ◌+◌, String, Bool, true, false, ◌&&◌, Option, none, some, List, [], ◌∷◌, ◌++◌,
  if◌then◌else◌, ◌==◌, ◌!=◌, string_eq, option_eq, find?, filter, get_elem?, not,
}
use greenlink.Prelude.Text.{is_set}
use greenlink.Types.Booking.{StartLane, lane_eq, BookingParticipantSummary}
use greenlink.Types.TeeSheet.{TeeSheetBookingView, TeeSheetSlotView}
use greenlink.Sheet.Occupancy.{normalize_optimistic_participants, can_create, can_drop}
use greenlink.BookingMove.{LaneSlot}
use greenlink.GolfPage.Slots.{Bucket}
use greenlink.GolfPage.Drawer.{SelectedSlotKey, ExpandedBookingContext, matches_expanded_booking}

-- xs.findIndex(p), none for -1
abbrev pub index_where {ℓ} : {A : Type ℓ} → (A → Bool) → List A → Option ℕ
index_where p [] = none
index_where p (x ∷ xs) =
    let later = index_where p xs in
    if p x then some 0 else elim later [ none ↦ none | some i ↦ some (i + 1) ]

-- xs.filter((_, index) => index !== i)
abbrev pub without_nth {ℓ} : {A : Type ℓ} → ℕ → List A → List A
without_nth i [] = []
without_nth zero (x ∷ xs) = xs
without_nth (suc i) (x ∷ xs) = x ∷ without_nth i xs

abbrev is_selected : SelectedSlotKey → LaneSlot → Bool
is_selected key item =
    item.start_lane == key.start_lane && item.slot.slot_datetime == key.slot_datetime

abbrev focused_index : ExpandedBookingContext → TeeSheetBookingView → Option ℕ
focused_index context booking =
    if is_set context.participant_id
    then index_where (λ p. p.id == context.participant_id) booking.participants
    else if is_set context.focused_participant_name
    then index_where (λ p. some p.display_name == context.focused_participant_name)
        booking.participants
    else none

-- The participant at a positive index is put first.
abbrev focus_at : Option ℕ → List BookingParticipantSummary → List BookingParticipantSummary
focus_at none ps = ps
focus_at (some zero) ps = ps
focus_at (some (suc i)) ps = elim (get_elem? ps (suc i)) [
  | none ↦ ps
  | some p ↦ normalize_optimistic_participants (p ∷ without_nth (suc i) ps)
]

unfoldable pub focused_booking : ExpandedBookingContext → TeeSheetBookingView → TeeSheetBookingView
focused_booking context booking = record booking {
  participants = focus_at (focused_index context booking) booking.participants;
}

abbrev tail : List TeeSheetBookingView → List TeeSheetBookingView
tail [] = []
tail (b ∷ bs) = bs

-- The bookings with the one at `index`, which is `booking`, first.
abbrev focused_first :
    ExpandedBookingContext
    → ℕ
    → TeeSheetBookingView
    → List TeeSheetBookingView
    → List TeeSheetBookingView
focused_first context zero booking bookings = focused_booking context booking ∷ tail bookings
focused_first context (suc i) booking bookings =
    focused_booking context booking ∷ filter (λ b. b.id != context.booking_id) bookings

abbrev focus_bookings : ExpandedBookingContext → List TeeSheetBookingView → List TeeSheetBookingView
focus_bookings context bookings = elim (index_where (λ b. b.id == context.booking_id) bookings) [
  | none ↦ bookings
  | some index ↦ elim (get_elem? bookings index) [
    | none ↦ bookings
    | some booking ↦ focused_first context index booking bookings
  ]
]

unfoldable pub focus_slot : Option ExpandedBookingContext → LaneSlot → LaneSlot
unfolding focused_booking
focus_slot none slot = slot
focus_slot (some context) slot =
    if matches_expanded_booking (some context) slot context.booking_id
    then record slot {
      slot = record slot.slot { bookings = focus_bookings context slot.slot.bookings };
    }
    else slot

-- `selectedSlot`
unfoldable pub selected_slot :
    Option SelectedSlotKey → Option ExpandedBookingContext → List LaneSlot → Option LaneSlot
unfolding focus_slot
selected_slot none expanded slots = none
selected_slot (some key) expanded slots = elim (find? (is_selected key) slots) [
  | none ↦ none
  | some slot ↦ some (focus_slot expanded slot)
]

abbrev bucket_slots : List Bucket → List LaneSlot
bucket_slots [] = []
bucket_slots (bucket ∷ buckets) = bucket.slots ++ bucket_slots buckets

-- `nextBookableSlot`
unfoldable pub next_bookable_slot : List Bucket → List LaneSlot → Option LaneSlot
next_bookable_slot filtered_buckets slots =
    elim (find? (λ s. can_create s.slot) (bucket_slots filtered_buckets)) [
      | some slot ↦ some slot
      | none ↦ find? (λ s. can_create s.slot) slots
    ]

pub record Dragged : Type 0 where
  pub booking_id : String
  pub cell_key : String
  pub participant_id : Option String
  pub row_key : String
  pub slot_datetime : String

unfoldable pub drop_allowed : Option Dragged → LaneSlot → Bool
drop_allowed none target = false
drop_allowed (some d) target =
    can_drop target.slot
    && not (d.row_key == target.row_key && d.slot_datetime == target.slot.slot_datetime)
