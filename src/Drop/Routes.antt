-- ===== src/Drop/Routes.antt =====
-- What a drop may ask for.
use greenlink.Prelude.{
  String, ◌≡◌, ◌≢◌, refl, false, Option, none, some, ◌==◌, string_eq, find?, All, arith, Bool-cases,
  Option-cases, inl, inr,
}
use greenlink.Prelude.Text.{is_set}
use greenlink.Types.TeeSheet.{TeeSheetSlotView, TeeSheetRow, TeeSheetDayResponse}
use greenlink.Walkin.{WaitlistEntry}
use greenlink.Row.{PlayerCellSpec, player, free}
use greenlink.Drop.{
  ParticipantDragPayload, DragPayload, waitlist, participant, CellOccupant, row_key_of, drop_target,
  is_blocked, occupant_of, DropCall, end_drag, create_walkin, move, initiate_swap, swap_input,
  move_input, rows_of, row_with, drop_mode_for_cell, handle_drop, handle_drop_on_slot, drop_on_cell,
}

-- The participant that is dragged comes from another row.
abbrev pub CrossesRows :
    {Amount : Type 0} → DragPayload Amount → TeeSheetSlotView → ParticipantDragPayload → Type 0
CrossesRows payload slot p = (payload ≡ participant p) × (p.source_row_key ≢ row_key_of slot)

-- A call that a drop of the payload on the cell may make.
pub data IsRouted {Amount : Type 0} (day : Option TeeSheetDayResponse) (slot : TeeSheetSlotView)
    (cell : PlayerCellSpec) (payload : DragPayload Amount) : DropCall Amount → Type 0 where
  ends : IsRouted day slot cell payload end_drag
  books :
      (entry : WaitlistEntry Amount) (course_id : String)
      → payload ≡ waitlist entry
      → cell ≡ free
      → IsRouted day slot cell payload (
          create_walkin
            (record { entry = entry; slot_datetime = slot.slot_datetime; course_id = course_id }))
  moves :
      (p : ParticipantDragPayload)
      → CrossesRows payload slot p
      → occupant_of cell ≡ none
      → IsRouted day slot cell payload (move (move_input p (drop_target slot)))
  swaps :
      (p : ParticipantDragPayload) (occupant : CellOccupant) (row : TeeSheetRow)
      → CrossesRows payload slot p
      → occupant_of cell ≡ some occupant
      → find? (row_with slot.slot_datetime) (rows_of day) ≡ some row
      → IsRouted day slot cell payload
          (initiate_swap (swap_input p occupant (drop_target slot)) row)

module _ {Amount : Type 0} (day : Option TeeSheetDayResponse) (slot : TeeSheetSlotView) where
  free-IsRouted :
      (entry : WaitlistEntry Amount) (course_id : Option String)
      → All
          (IsRouted day slot free (waitlist entry))
          (handle_drop_on_slot course_id day (drop_target slot) (waitlist entry) none)
  unfolding handle_drop_on_slot
  free-IsRouted entry none = tt
  free-IsRouted entry (some course_id) = elim (Bool-cases (is_set (some course_id))) [
    | inl set ↦ rw set (ends, (books entry course_id refl refl, tt))
    | inr unset ↦ rw unset tt
  ]

apart-≢ : (a b : String) → (a == b) ≡ false → a ≢ b
apart-≢ a b apart same = ground (arith, string_eq.beq_iff a b)

participant-IsRouted :
    (Amount : Type 0) (day : Option TeeSheetDayResponse) (slot : TeeSheetSlotView)
    → (p : ParticipantDragPayload) (cell : PlayerCellSpec) (o : Option CellOccupant)
      (course_id : Option String)
    → (p.source_row_key == row_key_of slot) ≡ false
    → occupant_of cell ≡ o
    → All
        (IsRouted {Amount = Amount} day slot cell (participant p))
        (handle_drop_on_slot course_id day (drop_target slot) (participant p) o)
unfolding handle_drop_on_slot
participant-IsRouted Amount day slot p cell o none apart same = tt
participant-IsRouted Amount day slot p cell none (some course_id) apart same =
    elim (Bool-cases (is_set (some course_id))) [
      | inl set ↦ rw (set, apart) (ends, (moves p (refl, apart-≢ _ _ apart) same, tt))
      | inr unset ↦ rw unset tt
    ]
participant-IsRouted Amount day slot p cell (some o) (some course_id) apart same =
    elim (Bool-cases (is_set (some course_id))) [
      | inl set ↦ elim (Option-cases (find? (row_with slot.slot_datetime) (rows_of day))) [
        | inl missing ↦ rw (set, apart, missing) (ends, tt)
        | inr (row, found) ↦
            rw (set, apart, found) (ends, (swaps p o row (refl, apart-≢ _ _ apart) same found, tt))
      ]
      | inr unset ↦ rw unset tt
    ]

-- A drop on a cell makes no call but these. It ends the drag. It books a dragged waitlist entry on
-- the slot, if the cell is free. It moves a dragged participant of another row to the slot, if
-- nobody is in the cell, and exchanges the two, if somebody is and the loaded day has a row with the
-- slot.
pub drop_on_cell-IsRouted :
    {Amount : Type 0} (course_id : Option String) (day : Option TeeSheetDayResponse)
    (slot : TeeSheetSlotView) (cell : PlayerCellSpec) (payload : DragPayload Amount)
    → All (IsRouted day slot cell payload) (drop_on_cell course_id day slot cell payload)
unfolding drop_on_cell drop_mode_for_cell handle_drop occupant_of
drop_on_cell-IsRouted course_id day slot free (waitlist entry) =
    elim (Bool-cases (is_blocked slot)) [
      | inl stopped ↦ rw stopped tt
      | inr usable ↦ rw usable (free-IsRouted day slot entry course_id)
    ]
drop_on_cell-IsRouted course_id day slot (player cell) (waitlist entry) =
    elim (Bool-cases (is_blocked slot)) [ inl stopped ↦ rw stopped tt | inr usable ↦ rw usable tt ]
drop_on_cell-IsRouted {Amount = Amount} course_id day slot cell (participant p) =
    elim (Bool-cases (is_blocked slot)) [
      | inl stopped ↦ rw stopped tt
      | inr usable ↦ elim (Bool-cases (p.source_row_key == row_key_of slot)) [
        | inl same ↦ rw (usable, same) tt
        | inr apart ↦
            rw (usable, apart, apart)
              (participant-IsRouted Amount day slot p cell (occupant_of cell) course_id apart refl)
      ]
    ]
