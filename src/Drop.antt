-- ===== src/Drop.antt =====
-- Drag and drop on the tee sheet: frontend/src/features/tee-sheet/dnd, the cells of
-- components/TeeRow.tsx, and handleDropOnSlot of frontend/src/pages/admin-tee-sheet-page.tsx.
--
-- A payload travels as JSON in the drag event and is taken as read back. A drop is a function from
-- the cell and the payload to the calls that it makes, in their order.
use mathlib.Core.Option
pub mod Routes
pub mod Exchange
pub mod State
use greenlink.Prelude.{
  ℕ, String, Bool, true, false, ◌&&◌, ◌||◌, not, Option, none, some, List, [], ◌∷◌, if◌then◌else◌,
  ◌==◌, ◌!=◌, string_eq, nat_eq, any, find?,
}
use greenlink.Prelude.Text.{◌++ₛ◌, is_set, show, take_chars}
use greenlink.Types.TeeSheet.{TeeSheetSlotView, TeeSheetRow, TeeSheetDayResponse}
use greenlink.Walkin.{WaitlistEntry, CreateWalkinBookingVariables}
use greenlink.Move.{MoveParticipantVariables}
use greenlink.Row.{
  RowState, blocked, row_state_from_display_status, PlayerCellSpec, player, free,
  build_player_cells, is_moveable,
}
use greenlink.Swap.{SwapParticipant, SwapInput}

pub record ParticipantDragPayload : Type 0 where
  pub booking_id : String
  pub participant_id : String
  pub display_name : String
  pub party_size : ℕ
  pub source_slot_datetime : String
  pub source_row_key : String
  pub source_cell_index : ℕ

pub data DragPayload (Amount : Type 0) : Type 0 where
  waitlist : WaitlistEntry Amount → DragPayload Amount
  participant : ParticipantDragPayload → DragPayload Amount

pub record SlotDropTarget : Type 0 where
  pub slot_datetime : String
  pub row_key : String

pub record CellOccupant : Type 0 where
  pub booking_id : String
  pub participant_id : String
  pub display_name : String
  pub party_size : ℕ

pub data CellDropMode : Type 0 where
  none_mode valid reject : CellDropMode

-- timeKey(slot.local_time)
abbrev pub row_key_of : TeeSheetSlotView → String
row_key_of slot = take_chars 5 slot.local_time

abbrev pub drop_target : TeeSheetSlotView → SlotDropTarget
drop_target slot = record { slot_datetime = slot.slot_datetime; row_key = row_key_of slot }

abbrev pub is_blocked : TeeSheetSlotView → Bool
is_blocked slot = elim (row_state_from_display_status slot.display_status) [
  | blocked ↦ true
  | _ ↦ false
]

unfoldable pub occupant_of : PlayerCellSpec → Option CellOccupant
occupant_of free = none
occupant_of (player cell) = elim cell.participant_id [
  | none ↦ none
  | some participant_id ↦ some (record {
    booking_id = cell.booking_id;
    participant_id = participant_id;
    display_name = cell.name;
    party_size = cell.party_size;
  })
]

abbrev pub drag_of : TeeSheetSlotView → ℕ → CellOccupant → ParticipantDragPayload
drag_of slot index o = record {
  booking_id = o.booking_id;
  participant_id = o.participant_id;
  display_name = o.display_name;
  party_size = o.party_size;
  source_slot_datetime = slot.slot_datetime;
  source_row_key = row_key_of slot;
  source_cell_index = index;
}

-- `handleDragStart` of a cell
unfoldable pub handle_drag_start :
    Bool → TeeSheetSlotView → ℕ → PlayerCellSpec → Option ParticipantDragPayload
unfolding occupant_of
handle_drag_start moveable slot index cell =
    if not moveable then none else Option.map (drag_of slot index) (occupant_of cell)

-- The calls of a drop, in their order.
pub data DropCall (Amount : Type 0) : Type 0 where
  end_drag : DropCall Amount
  create_walkin : CreateWalkinBookingVariables Amount → DropCall Amount
  move : MoveParticipantVariables → DropCall Amount
  initiate_swap : SwapInput → TeeSheetRow → DropCall Amount

abbrev pub swap_input : ParticipantDragPayload → CellOccupant → SlotDropTarget → SwapInput
swap_input p occupant target = record {
  participant_a = record {
    booking_id = p.booking_id;
    participant_id = p.participant_id;
    display_name = p.display_name;
    party_size = p.party_size;
    slot_datetime = p.source_slot_datetime;
    row_key = p.source_row_key;
  };
  participant_b = record {
    booking_id = occupant.booking_id;
    participant_id = occupant.participant_id;
    display_name = occupant.display_name;
    party_size = occupant.party_size;
    slot_datetime = target.slot_datetime;
    row_key = target.row_key;
  };
}

abbrev pub move_input : ParticipantDragPayload → SlotDropTarget → MoveParticipantVariables
move_input p target = record {
  booking_id = p.booking_id;
  participant_id = p.participant_id;
  target_slot_datetime = target.slot_datetime;
  source_slot_datetime = p.source_slot_datetime;
  display_name = p.display_name;
}

abbrev pub rows_of : Option TeeSheetDayResponse → List TeeSheetRow
rows_of none = []
rows_of (some day) = day.rows

abbrev pub row_with : String → TeeSheetRow → Bool
row_with datetime row = any (λ slot. slot.slot_datetime == datetime) row.slots

-- `isMoveable` of a cell
unfoldable pub cell_is_moveable : PlayerCellSpec → Bool
unfolding is_moveable
cell_is_moveable free = false
cell_is_moveable (player cell) = is_moveable cell.booking_status

module _ {Amount : Type 0} where
  abbrev pub is_same_row : String → DragPayload Amount → Bool
  is_same_row row_key (waitlist _) = false
  is_same_row row_key (participant p) = p.source_row_key == row_key

  abbrev mode_of : PlayerCellSpec → DragPayload Amount → CellDropMode
  mode_of free (waitlist _) = valid
  mode_of (player _) (waitlist _) = none_mode
  mode_of _ (participant _) = valid

  unfoldable pub drop_mode_for_cell :
      PlayerCellSpec → Option (DragPayload Amount) → Bool → Bool → CellDropMode
  drop_mode_for_cell cell none enabled same_row = none_mode
  drop_mode_for_cell cell (some payload) enabled same_row =
      if not enabled then none_mode else if same_row then reject else mode_of cell payload

  -- `handleDrop` of a cell: what it passes to `onDrop`
  unfoldable pub handle_drop :
      CellDropMode
      → PlayerCellSpec
      → DragPayload Amount
      → Option (DragPayload Amount × Option CellOccupant)
  unfolding occupant_of
  handle_drop none_mode cell payload = none
  handle_drop reject cell payload = none
  handle_drop valid cell payload = some (payload, occupant_of cell)

  abbrev swap_onto :
      Option TeeSheetRow
      → ParticipantDragPayload
      → CellOccupant
      → SlotDropTarget
      → List (DropCall Amount)
  swap_onto none p occupant target = end_drag ∷ []
  swap_onto (some row) p occupant target =
      end_drag ∷ initiate_swap (swap_input p occupant target) row ∷ []

  abbrev drop_participant :
      Option TeeSheetDayResponse
      → SlotDropTarget
      → ParticipantDragPayload
      → Option CellOccupant
      → List (DropCall Amount)
  drop_participant day target p none = end_drag ∷ move (move_input p target) ∷ []
  drop_participant day target p (some occupant) =
      swap_onto (find? (row_with target.slot_datetime) (rows_of day)) p occupant target

  abbrev drop_payload :
      String
      → Option TeeSheetDayResponse
      → SlotDropTarget
      → DragPayload Amount
      → Option CellOccupant
      → List (DropCall Amount)
  drop_payload course_id day target (waitlist entry) occupant =
      end_drag
      ∷ create_walkin
          (record { entry = entry; slot_datetime = target.slot_datetime; course_id = course_id })
      ∷ []
  drop_payload course_id day target (participant p) occupant =
      if p.source_row_key == target.row_key
      then end_drag ∷ []
      else drop_participant day target p occupant

  unfoldable pub handle_drop_on_slot :
      Option String
      → Option TeeSheetDayResponse
      → SlotDropTarget
      → DragPayload Amount
      → Option CellOccupant
      → List (DropCall Amount)
  handle_drop_on_slot none day target payload occupant = []
  handle_drop_on_slot (some course_id) day target payload occupant =
      if is_set (some course_id) then drop_payload course_id day target payload occupant else []

  abbrev pub row_on_drop :
      Option String
      → Option TeeSheetDayResponse
      → TeeSheetSlotView
      → Option (DragPayload Amount × Option CellOccupant)
      → List (DropCall Amount)
  row_on_drop course_id day slot none = []
  row_on_drop course_id day slot (some (payload, occupant)) =
      if is_same_row (row_key_of slot) payload
      then []
      else handle_drop_on_slot course_id day (drop_target slot) payload occupant

  -- A drop of the dragged payload on a cell of a row, from the cell to the page.
  unfoldable pub drop_on_cell :
      Option String
      → Option TeeSheetDayResponse
      → TeeSheetSlotView
      → PlayerCellSpec
      → DragPayload Amount
      → List (DropCall Amount)
  unfolding drop_mode_for_cell handle_drop handle_drop_on_slot
  drop_on_cell course_id day slot cell payload = row_on_drop course_id day slot (
      handle_drop
        (drop_mode_for_cell cell (some payload) (not (is_blocked slot))
          (is_same_row (row_key_of slot) payload))
        cell payload)
