-- ===== src/Drop/Exchange.antt =====
-- From the drag of a participant to the two moves of the swap that the drop starts.
use mathlib.Core.Path.{subst}
use greenlink.Prelude.{
  ℕ, String, ◌≡◌, refl, sym, ap, Bool, true, false, Option, none, some, List, [], ◌∷◌,
  if◌then◌else◌, All, arith, Option-cases, Bool-cases, inl, inr,
}
use greenlink.Types.TeeSheet.{TeeSheetSlotView, TeeSheetRow, TeeSheetDayResponse}
use greenlink.Move.{MoveError, MoveParticipantVariables}
use greenlink.Row.{PlayerCellSpec, target_row_has_intermediate_space}
use greenlink.Swap.{
  SwapInput, first_pending, rejected_target_row_full, move_a, move_b, request_variables, initiate,
  on_failure,
}
use greenlink.Swap.Protocol.{Config, Reach, start_config, Reach-IsConsistent, Before}
use greenlink.Drop.{
  ParticipantDragPayload, DragPayload, participant, CellOccupant, occupant_of, drag_of,
  handle_drag_start, cell_is_moveable, DropCall, end_drag, create_walkin, move, initiate_swap,
  swap_input, move_input, drop_target, drop_on_cell,
}
use greenlink.Drop.Routes.{IsRouted, ends, books, moves, swaps, drop_on_cell-IsRouted}

-- The move of an occupant between two slots.
abbrev pub move_of : CellOccupant → TeeSheetSlotView → TeeSheetSlotView → MoveParticipantVariables
move_of o source target = record {
  booking_id = o.booking_id;
  participant_id = o.participant_id;
  target_slot_datetime = target.slot_datetime;
  source_slot_datetime = source.slot_datetime;
  display_name = o.display_name;
}

-- What a call moves: an exchange moves the occupants of both cells, a move that of the first.
abbrev pub Exchanges :
    {Amount : Type 0}
    → TeeSheetSlotView
    → PlayerCellSpec
    → TeeSheetSlotView
    → PlayerCellSpec
    → DropCall Amount
    → Type 0
Exchanges slot_a cell_a slot_b cell_b end_drag = Unit
Exchanges slot_a cell_a slot_b cell_b (create_walkin _) = ⊥
Exchanges slot_a cell_a slot_b cell_b (move v) =
    (a : CellOccupant) × (occupant_of cell_a ≡ some a) × (v ≡ move_of a slot_a slot_b)
Exchanges slot_a cell_a slot_b cell_b (initiate_swap input row) =
    (a : CellOccupant) × (b : CellOccupant) × (occupant_of cell_a ≡ some a)
    × (occupant_of cell_b ≡ some b)
    × (request_variables (move_a input) ≡ move_of a slot_a slot_b)
    × (request_variables (move_b input) ≡ move_of b slot_b slot_a)

-- The payload of a drag names the occupant of the cell and its slot.
drag_start_occupant :
    (moveable : Bool) (slot : TeeSheetSlotView) (index : ℕ) (cell : PlayerCellSpec)
    (p : ParticipantDragPayload)
    → handle_drag_start moveable slot index cell ≡ some p
    → (a : CellOccupant) × (occupant_of cell ≡ some a) × (p ≡ drag_of slot index a)
unfolding handle_drag_start
drag_start_occupant false slot index cell p started = ground arith
drag_start_occupant true slot index cell p started = elim (Option-cases (occupant_of cell)) [
  | inl empty ↦ (let e : none ≡ some p = rw empty at started in ground arith)
  | inr (a, held) ↦ (a, held, ground arith)
]

participant-inj :
    (Amount : Type 0) (p q : ParticipantDragPayload)
    → ◌≡◌ {A = DragPayload Amount} (participant p) (participant q)
    → p ≡ q
participant-inj Amount p q e = ground arith

module _ {Amount : Type 0} (day : Option TeeSheetDayResponse) (slot_a slot_b : TeeSheetSlotView)
    (cell_a cell_b : PlayerCellSpec) (index : ℕ) (a : CellOccupant)
    (held : occupant_of cell_a ≡ some a) where
  routed-Exchanges :
      (call : DropCall Amount)
      → IsRouted day slot_b cell_b (participant (drag_of slot_a index a)) call
      → Exchanges slot_a cell_a slot_b cell_b call
  unfolding request_variables
  routed-Exchanges _ ends = tt
  routed-Exchanges _ (books entry course_id dragged vacant) = ground arith
  routed-Exchanges _ (moves p (dragged, apart) vacant) = (
    a,
    held,
    ap (λ q. move_input q (drop_target slot_b)) (participant-inj Amount _ _ (sym dragged)),
  )
  routed-Exchanges _ (swaps p b row (dragged, apart) occupied found) =
      let same = participant-inj Amount _ _ (sym dragged) in
      (
        a,
        b,
        held,
        occupied,
        ap (λ q. request_variables (move_a (swap_input q b (drop_target slot_b)))) same,
        ap (λ q. request_variables (move_b (swap_input q b (drop_target slot_b)))) same,
      )

  All-Exchanges :
      (calls : List (DropCall Amount))
      → All (IsRouted day slot_b cell_b (participant (drag_of slot_a index a))) calls
      → All (Exchanges slot_a cell_a slot_b cell_b) calls
  All-Exchanges [] routed = tt
  All-Exchanges (call ∷ calls) (r, rs) = (routed-Exchanges call r, All-Exchanges calls rs)

-- A participant dragged from a cell and dropped on a cell of another slot: the calls of the drop move
-- nobody else. A move takes the occupant of the first cell to the second slot. A swap names the
-- occupants of both cells, its first request moves the first of them to the second slot, and its
-- second request the second of them to the first slot.
pub drop-Exchanges :
    (Amount : Type 0) (course_id : Option String) (day : Option TeeSheetDayResponse)
    (slot_a : TeeSheetSlotView) (index : ℕ) (cell_a : PlayerCellSpec) (slot_b : TeeSheetSlotView)
    (cell_b : PlayerCellSpec) (p : ParticipantDragPayload)
    → handle_drag_start (cell_is_moveable cell_a) slot_a index cell_a ≡ some p
    → All
        (Exchanges {Amount = Amount} slot_a cell_a slot_b cell_b)
        (drop_on_cell course_id day slot_b cell_b (participant p))
drop-Exchanges Amount course_id day slot_a index cell_a slot_b cell_b p started =
    let (a, held, same) =
      drag_start_occupant (cell_is_moveable cell_a) slot_a index cell_a p started in
    subst
      (λ q.
        All (Exchanges {Amount = Amount} slot_a cell_a slot_b cell_b)
          (drop_on_cell course_id day slot_b cell_b (participant q)))
      (sym same)
      (All-Exchanges day slot_a slot_b cell_a cell_b index a held _
        (drop_on_cell-IsRouted course_id day slot_b cell_b (participant (drag_of slot_a index a))))

-- A swap started while the second move of another is open, as a second drop does, and no swap was
-- started so early before: the first move of
-- that other swap was made and its second was not, but once the second fails the hook shows only the
-- new swap, so it offers neither a retry nor a restore of the half-done one.
pub second_swap_forgets :
    (c : Config) (input other : SwapInput) (row : TeeSheetRow) (error : MoveError)
    → Reach start_config c
    → c.overlapped ≡ false
    → c.hook.pending ≡ some (move_b input)
    → ((on_failure (move_b input) error (initiate other row c.hook)).state ≡ (
        if target_row_has_intermediate_space row other.participant_b.slot_datetime
        then first_pending other
        else rejected_target_row_full other))
      × (c.a_moved ≡ true)
      × (c.b_moved ≡ false)
unfolding initiate on_failure
second_swap_forgets c input other row error r o e =
    let says : Before (some (move_b input)) c.a_moved c.b_moved =
      rw e at (Reach-IsConsistent r o).before in
    elim (Bool-cases (target_row_has_intermediate_space row other.participant_b.slot_datetime)) [
      | inl space ↦ (rw space refl, says.0, says.1)
      | inr full ↦ (rw full refl, says.0, says.1)
    ]
