-- ===== src/Row.antt =====
-- frontend/src/features/tee-sheet/components/TeeRow.tsx: the state and the player cells of a row.
-- `targetRowHasIntermediateSpace` of use-participant-swap.ts reads the cells, so it stands here.
pub mod Cells
use greenlink.Prelude.{
  ℕ, zero, suc, ◌+◌, ◌-◌, String, Bool, true, false, Option, none, some, List, [], ◌∷◌, ◌++◌, ltb,
  leb, if◌then◌else◌, ◌==◌, ◌!=◌, string_eq, nat_eq, length, any, find?, tabulate,
}
use greenlink.Prelude.Text.{◌++ₛ◌, show}
use greenlink.Types.Booking.{
  BookingStatus, reserved, checked_in, guest, BookingParticipantSummary, status_eq,
}
use greenlink.Types.TeeSheet.{
  TeeSheetBookingView, TeeSheetSlotView, TeeSheetRow, TeeSheetSlotDisplayStatus, TeeSheetTrace,
  TeeSheetNotice,
}
use greenlink.Sheet.Occupancy.{slot_capacity, get_or}

pub data RowState : Type 0 where
  vacant booked atrisk blocked : RowState

-- "open" of the source is `vacant`
unfoldable pub row_state_from_display_status : TeeSheetSlotDisplayStatus → RowState
row_state_from_display_status TeeSheetSlotDisplayStatus.available = vacant
row_state_from_display_status TeeSheetSlotDisplayStatus.blocked = blocked
row_state_from_display_status TeeSheetSlotDisplayStatus.warning = atrisk
row_state_from_display_status TeeSheetSlotDisplayStatus.reserved = booked
row_state_from_display_status TeeSheetSlotDisplayStatus.indeterminate = booked

abbrev pub slot_column_count : ℕ
slot_column_count = 4

pub record PlayerCell : Type 0 where
  pub name : String
  pub cart : Bool
  pub booking_id : String
  pub participant_id : Option String
  pub party_size : ℕ
  pub booking_status : BookingStatus

pub data PlayerCellSpec : Type 0 where
  player : PlayerCell → PlayerCellSpec
  free : PlayerCellSpec

abbrev pub is_free : PlayerCellSpec → Bool
is_free (player _) = false
is_free free = true

-- The participants of a booking, or placeholders where it lists none.
unfoldable pub cell_participants : TeeSheetBookingView → List BookingParticipantSummary
unfolding show
cell_participants booking =
    if ltb 0 (length booking.participants)
    then booking.participants
    else tabulate
        (λ index. record {
          id = some (booking.id ++ₛ "-p" ++ₛ show index);
          display_name = "Player " ++ₛ show (index + 1);
          participant_type = guest;
          person_id = none;
          club_membership_id = none;
          guest_name = none;
          sort_order = none;
          is_primary = index == 0;
        })
        0 booking.party_size

abbrev pub player_cell : TeeSheetBookingView → BookingParticipantSummary → PlayerCellSpec
player_cell booking participant = player (record {
  name = participant.display_name;
  cart = get_or booking.cart_flag false;
  booking_id = booking.id;
  participant_id = participant.id;
  party_size = booking.party_size;
  booking_status = booking.status;
})

-- The inner loop, which breaks at the capacity.
pub fill_participants :
    ℕ
    → TeeSheetBookingView
    → List PlayerCellSpec
    → List BookingParticipantSummary
    → List PlayerCellSpec
fill_participants capacity booking cells [] = cells
fill_participants capacity booking cells (p ∷ ps) =
    let later = fill_participants capacity booking (cells ++ player_cell booking p ∷ []) ps in
    if leb capacity (length cells) then cells else later

-- The outer loop, which breaks at the capacity behind each booking.
pub fill_bookings : ℕ → List PlayerCellSpec → List TeeSheetBookingView → List PlayerCellSpec
fill_bookings capacity cells [] = cells
fill_bookings capacity cells (b ∷ bs) =
    let cells' = fill_participants capacity b cells (cell_participants b) in
    let later = fill_bookings capacity cells' bs in
    if leb capacity (length cells') then cells' else later

-- The rounds of `while (cells.length < SLOT_COLUMN_COUNT)`, which each push one cell.
pub pad : ℕ → List PlayerCellSpec → List PlayerCellSpec
pad zero cells = cells
pad (suc rounds) cells = pad rounds (cells ++ free ∷ [])

unfoldable pub build_player_cells : TeeSheetSlotView → List PlayerCellSpec
unfolding fill_participants fill_bookings pad cell_participants slot_capacity
build_player_cells slot =
    let cells = fill_bookings (slot_capacity slot) [] slot.bookings in
    pad (slot_column_count - length cells) cells

-- use-participant-swap.ts
unfoldable pub target_row_has_intermediate_space : TeeSheetRow → String → Bool
unfolding build_player_cells
target_row_has_intermediate_space target_row target_slot_datetime =
    elim (find? (λ s. s.slot_datetime == target_slot_datetime) target_row.slots) [
      | none ↦ false
      | some slot ↦ any is_free (build_player_cells slot)
    ]

abbrev first_reason : List TeeSheetTrace → Option String
first_reason [] = none
first_reason (t ∷ ts) = some t.reason

abbrev first_message : List TeeSheetNotice → Option String
first_message [] = none
first_message (n ∷ ns) = some n.message

unfoldable pub row_note : TeeSheetSlotView → RowState → Option String
row_note slot blocked = some (get_or (first_reason slot.blockers) "Blocked")
row_note slot atrisk = first_message slot.warnings
row_note slot vacant = none
row_note slot booked = none

-- MOVEABLE_BOOKING_STATUSES.includes(status)
unfoldable pub is_moveable : BookingStatus → Bool
is_moveable status = any (λ s. s == status) (reserved ∷ checked_in ∷ [])
