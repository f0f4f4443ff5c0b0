-- ===== src/Drop/State.antt =====
-- frontend/src/features/tee-sheet/dnd/use-drag-state.ts: the drag that is on, and its announcement.
use greenlink.Prelude.{String, Option, none, some, if◌then◌else◌, ◌==◌, string_eq, nat_eq}
use greenlink.Prelude.Text.{◌++ₛ◌, show}
use greenlink.Drop.{DragPayload, waitlist, participant, SlotDropTarget}

pub record DragState (Amount : Type 0) : Type 0 where
  pub payload : Option (DragPayload Amount)
  pub active_target : Option SlotDropTarget

module _ {Amount : Type 0} where
  unfoldable pub start_drag : DragPayload Amount → DragState Amount → DragState Amount
  start_drag payload s = record { payload = some payload; active_target = none }

  unfoldable pub finish_drag : DragState Amount → DragState Amount
  finish_drag s = record { payload = none; active_target = none }

  unfoldable pub set_active_target : Option SlotDropTarget → DragState Amount → DragState Amount
  set_active_target target s = record s { active_target = target }

  unfoldable pub announcement_for : Option (DragPayload Amount) → String
  announcement_for none = ""
  announcement_for (some (waitlist entry)) =
      "Picking up "
      ++ₛ entry.name
      ++ₛ " · "
      ++ₛ (if entry.party == 1 then "1 seat" else show entry.party ++ₛ " seats")
  announcement_for (some (participant p)) =
      "Picking up " ++ₛ p.display_name ++ₛ " from " ++ₛ p.source_row_key
