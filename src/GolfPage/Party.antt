-- ===== src/GolfPage/Party.antt =====
-- frontend/src/pages/admin-golf-tee-sheet-page.tsx and
-- frontend/src/features/tee-sheet/booking-party-editor.tsx: the party of a booking that is made or
-- edited.
pub mod Kept
use greenlink.Prelude.{
  ℕ, ◌+◌, String, Bool, true, false, ◌||◌, ◌&&◌, not, Option, none, some, List, [], ◌∷◌, ◌++◌, map,
  if◌then◌else◌, ◌==◌, ◌!=◌, string_eq, find?, filter, length, leb, map_from,
}
use greenlink.Prelude.Text.{◌++ₛ◌, show, trim}
use greenlink.Types.Booking.{
  BookingParticipantType, participant_type_eq, BookingParticipantSummary, BookingSummary,
}
use greenlink.Types.TeeSheet.{BookingRuleAppliesTo, applies_to_eq}
use greenlink.Sheet.Occupancy.{get_or}
use greenlink.BookingMove.{LaneSlot}
use greenlink.Walkin.{BookingSource, BookingCreateParticipantInput, BookingCreateInput}

pub record DraftParticipant : Type 0 where
  pub key : String
  pub participant_type : BookingParticipantType
  pub person_id : Option String
  pub guest_name : String
  pub is_primary : Bool

unfoldable pub primary_type : BookingRuleAppliesTo → BookingParticipantType
primary_type value =
    if value == BookingRuleAppliesTo.staff
    then BookingParticipantType.staff
    else BookingParticipantType.member

unfoldable pub initial_drafts : BookingRuleAppliesTo → List DraftParticipant
initial_drafts value =
    record {
      key = "primary";
      participant_type = primary_type value;
      person_id = none;
      guest_name = "";
      is_primary = true;
    }
    ∷ []

-- The two patches that a row of the editor sends.
pub data DraftPatch : Type 0 where
  to_guest_name : String → DraftPatch
  to_person_id : Option String → DraftPatch

abbrev pub patched : DraftPatch → DraftParticipant → DraftParticipant
patched (to_guest_name value) p = record p { guest_name = value }
patched (to_person_id value) p = record p { person_id = value }

abbrev pub patch_if : String → DraftPatch → DraftParticipant → DraftParticipant
patch_if key patch p = if p.key == key then patched patch p else p

-- `updateDraft`, and `updateEditDraft` on the party in edit
unfoldable pub update_draft : String → DraftPatch → List DraftParticipant → List DraftParticipant
update_draft key patch current = map (patch_if key patch) current

-- `addDraft` and `addEditDraft`; `next_key` is what `nextKey()` returns
unfoldable pub add_draft :
    String → BookingParticipantType → List DraftParticipant → List DraftParticipant
add_draft next_key type current =
    if leb 4 (length current)
    then current
    else current
      ++ (record {
        key = next_key;
        participant_type = type;
        person_id = none;
        guest_name = "";
        is_primary = false;
      }
          ∷ [])

abbrev pub stays : String → DraftParticipant → Bool
stays key p = p.key != key || p.is_primary

-- `removeDraft` and `removeEditDraft`
unfoldable pub remove_draft : String → List DraftParticipant → List DraftParticipant
remove_draft key current = filter (stays key) current

abbrev pub draft_of : BookingParticipantSummary → ℕ → DraftParticipant
draft_of participant index = record {
  key = get_or participant.id ("participant-" ++ₛ show index);
  participant_type = participant.participant_type;
  person_id = participant.person_id;
  guest_name = get_or participant.guest_name "";
  is_primary = participant.is_primary;
}

abbrev pub or_one : List DraftParticipant → List DraftParticipant
or_one [] =
    record {
      key = "primary";
      participant_type = BookingParticipantType.member;
      person_id = none;
      guest_name = "";
      is_primary = true;
    }
    ∷ []
or_one (p ∷ ps) = p ∷ ps

unfoldable pub participant_drafts_from_booking : BookingSummary → List DraftParticipant
participant_drafts_from_booking booking = or_one (map_from draft_of 0 booking.participants)

abbrev pub payload_of : DraftParticipant → BookingCreateParticipantInput
payload_of p =
    let guest = p.participant_type == BookingParticipantType.guest in
    record {
      participant_type = p.participant_type;
      person_id = if guest then none else p.person_id;
      guest_name = if guest then some (trim p.guest_name) else none;
      is_primary = p.is_primary;
    }

unfoldable pub as_participant_payload : List DraftParticipant → List BookingCreateParticipantInput
as_participant_payload participants = map payload_of participants

abbrev pub applies_to_of : BookingParticipantType → BookingRuleAppliesTo
applies_to_of BookingParticipantType.staff = BookingRuleAppliesTo.staff
applies_to_of BookingParticipantType.guest = BookingRuleAppliesTo.guest
applies_to_of BookingParticipantType.member = BookingRuleAppliesTo.member

-- The `appliesTo` of `createPayload` and of `updatePayload`.
unfoldable pub applies_to : List DraftParticipant → Option BookingRuleAppliesTo
applies_to drafts = elim (find? (λ p. p.is_primary) drafts) [
  | none ↦ none
  | some primary ↦ some (applies_to_of primary.participant_type)
]

-- What the page knows besides the party: the course with its holes and the day that it shows.
pub record SheetContext : Type 0 where
  pub course_id : String
  pub holes : Option ℕ
  pub interval_minutes : Option ℕ
  pub reference_datetime : Option String

unfoldable pub create_payload :
    SheetContext → LaneSlot → Bool → Bool → List DraftParticipant → BookingCreateInput
create_payload sheet slot cart_flag caddie_flag drafts = record {
  course_id = sheet.course_id;
  tee_id = slot.tee_id;
  start_lane = slot.start_lane;
  slot_datetime = slot.slot.slot_datetime;
  slot_interval_minutes = sheet.interval_minutes;
  source = some BookingSource.admin;
  holes = sheet.holes;
  applies_to = applies_to drafts;
  reference_datetime = sheet.reference_datetime;
  cart_flag = some cart_flag;
  caddie_flag = some caddie_flag;
  participants = as_participant_payload drafts;
}

pub record BookingUpdateInput : Type 0 where
  pub participants : List BookingCreateParticipantInput
  pub holes : Option ℕ
  pub applies_to : Option BookingRuleAppliesTo
  pub reference_datetime : Option String
  pub cart_flag : Option Bool
  pub caddie_flag : Option Bool

unfoldable pub update_payload :
    SheetContext → Bool → Bool → List DraftParticipant → BookingUpdateInput
update_payload sheet cart_flag caddie_flag edit_drafts = record {
  holes = sheet.holes;
  applies_to = applies_to edit_drafts;
  reference_datetime = sheet.reference_datetime;
  cart_flag = some cart_flag;
  caddie_flag = some caddie_flag;
  participants = as_participant_payload edit_drafts;
}
