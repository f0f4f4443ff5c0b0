-- ===== src/GolfPage/Party/Kept.antt =====
-- What the editor of a party keeps, over any run of its buttons and fields.
use greenlink.Prelude.{
  ℕ, ◌+◌, ◌≤◌, max, ◌≡◌, refl, ◌∙◌, arith, String, Bool, false, Bool-cases, ◌⊎◌, inl, inr, none,
  some, List, [], ◌∷◌, ◌++◌, map, filter, length, leb, All, length-append, length-map,
  length-map_from, map_from, ◌==◌, string_eq,
}
use greenlink.Types.Booking.{
  BookingParticipantType, guest, BookingParticipantSummary, BookingSummary, participant_type_eq,
  participant_type_beq_iff,
}
use greenlink.Types.TeeSheet.{BookingRuleAppliesTo}
use greenlink.Walkin.{BookingCreateParticipantInput}
use greenlink.BookingMove.{LaneSlot}
use greenlink.GolfPage.Party.{
  DraftParticipant, DraftPatch, to_guest_name, to_person_id, patched, patch_if, update_draft,
  add_draft, stays, remove_draft, initial_drafts, primary_type, draft_of, or_one,
  participant_drafts_from_booking, payload_of, as_participant_payload, applies_to_of, applies_to,
  SheetContext, create_payload, update_payload,
}

-- What the editor sends.
pub data PartyEdit : Type 0 where
  update : String → DraftPatch → PartyEdit
  add : String → BookingParticipantType → PartyEdit
  remove : String → PartyEdit

abbrev pub edit : PartyEdit → List DraftParticipant → List DraftParticipant
edit (update key patch) ds = update_draft key patch ds
edit (add key type) ds = add_draft key type ds
edit (remove key) ds = remove_draft key ds

abbrev pub run : List PartyEdit → List DraftParticipant → List DraftParticipant
run [] ds = ds
run (e ∷ es) ds = run es (edit e ds)

-- The types of the participants that are primary.
abbrev pub primaries : List DraftParticipant → List BookingParticipantType
primaries ds = map (λ p. p.participant_type) (filter (λ p. p.is_primary) ds)

patched_keeps :
    (patch : DraftPatch) (p : DraftParticipant)
    → ((patched patch p).is_primary ≡ p.is_primary)
      × ((patched patch p).participant_type ≡ p.participant_type)
patched_keeps (to_guest_name v) p = (refl, refl)
patched_keeps (to_person_id v) p = (refl, refl)

patch_if_keeps :
    (key : String) (patch : DraftPatch) (p : DraftParticipant)
    → ((patch_if key patch p).is_primary ≡ p.is_primary)
      × ((patch_if key patch p).participant_type ≡ p.participant_type)
patch_if_keeps key patch p = ground (arith, patched_keeps patch p)

primaries-update :
    (key : String) (patch : DraftPatch) (ds : List DraftParticipant)
    → primaries (map (patch_if key patch) ds) ≡ primaries ds
primaries-update key patch [] = refl
primaries-update key patch (p ∷ ds) =
    ground (arith, patch_if_keeps key patch p, primaries-update key patch ds)

primaries-guest :
    (ds : List DraftParticipant) (p : DraftParticipant)
    → p.is_primary ≡ false
    → primaries (ds ++ (p ∷ [])) ≡ primaries ds
primaries-guest [] p h = rw h refl
primaries-guest (d ∷ ds) p h = ground (arith, primaries-guest ds p h)

primaries-remove :
    (key : String) (ds : List DraftParticipant) → primaries (filter (stays key) ds) ≡ primaries ds
primaries-remove key [] = refl
primaries-remove key (d ∷ ds) = ground (arith, primaries-remove key ds)

length-filter : {A : Type 0} (f : A → Bool) (xs : List A) → length (filter f xs) ≤ length xs
length-filter f [] = omega arith
length-filter f (x ∷ xs) = ground (arith, length-filter f xs)

add_fits :
    (ds : List DraftParticipant) (p : DraftParticipant)
    → leb 4 (length ds) ≡ false
    → length (ds ++ (p ∷ [])) ≤ 4
add_fits ds p room = ground (arith, length-append ds (p ∷ []))

-- No edit makes a party larger than four, or than it was.
pub edit_keeps :
    (n : ℕ) (e : PartyEdit) (ds : List DraftParticipant)
    → 4 ≤ n
    → length ds ≤ n
    → (primaries (edit e ds) ≡ primaries ds) × (length (edit e ds) ≤ n)
unfolding update_draft add_draft remove_draft
edit_keeps n (update key patch) ds four h =
    (primaries-update key patch ds, omega (arith, length-map (patch_if key patch) ds))
edit_keeps n (add key type) ds four h = elim (Bool-cases (leb 4 (length ds))) [
  | inl full ↦ rw full (refl, h)
  | inr room ↦ rw room (primaries-guest ds _ refl, omega (arith, add_fits ds _ room))
]
edit_keeps n (remove key) ds four h =
    (primaries-remove key ds, omega (arith, length-filter (stays key) ds))

run_keeps :
    (n : ℕ) (es : List PartyEdit) (ds : List DraftParticipant)
    → 4 ≤ n
    → length ds ≤ n
    → (primaries (run es ds) ≡ primaries ds) × (length (run es ds) ≤ n)
run_keeps n [] ds four h = (refl, h)
run_keeps n (e ∷ es) ds four h =
    let (same, short) = edit_keeps n e ds four h in
    let (rest, end) = run_keeps n es (edit e ds) four short in (rest ∙ same, end)

-- A party that the editor starts from: a new one, or that of a booking with one primary
-- participant of type `t`.
pub data Starts : List DraftParticipant → BookingParticipantType → Type 0 where
  fresh : (v : BookingRuleAppliesTo) → Starts (initial_drafts v) (primary_type v)
  editing :
      (b : BookingSummary) (t : BookingParticipantType)
      → map (λ p. p.participant_type) (filter (λ p. p.is_primary) b.participants) ≡ t ∷ []
      → Starts (participant_drafts_from_booking b) t

primaries-draft_of :
    (i : ℕ) (ps : List BookingParticipantSummary)
    → primaries (map_from draft_of i ps)
      ≡ map (λ p. p.participant_type) (filter (λ p. p.is_primary) ps)
primaries-draft_of i [] = refl
primaries-draft_of i (p ∷ ps) = ground (arith, primaries-draft_of (i + 1) ps)

primaries-or_one :
    (t : BookingParticipantType) (ds : List DraftParticipant)
    → primaries ds ≡ t ∷ []
    → primaries (or_one ds) ≡ t ∷ []
primaries-or_one t [] h = cc
primaries-or_one t (d ∷ ds) h = h

pub Starts_lem :
    {ds : List DraftParticipant} {t : BookingParticipantType} → Starts ds t → primaries ds ≡ t ∷ []
unfolding initial_drafts participant_drafts_from_booking
Starts_lem (fresh v) = refl
Starts_lem (editing b t h) =
    primaries-or_one t (map_from draft_of 0 b.participants)
      (primaries-draft_of 0 b.participants ∙ h)

-- A party of the booking `b`, edited: the primary participants are those of the booking, where it
-- has participants, and it is not larger than four or than the booking.
pub record IsPartyOf (b : BookingSummary) (ds : List DraftParticipant) : Type 0 where
  pub primary_kept :
      (b.participants ≡ [])
      ⊎ (primaries ds ≡ map (λ p. p.participant_type) (filter (λ p. p.is_primary) b.participants))
  pub few : length ds ≤ max 4 (length b.participants)

booked_lem :
    (ps : List BookingParticipantSummary)
    → ((ps ≡ [])
        ⊎ (primaries (or_one (map_from draft_of 0 ps))
            ≡ map (λ p. p.participant_type) (filter (λ p. p.is_primary) ps)))
      × (length (or_one (map_from draft_of 0 ps)) ≤ max 4 (length ps))
booked_lem [] = (inl refl, omega arith)
booked_lem (p ∷ ps) =
    (inr (primaries-draft_of 0 (p ∷ ps)), omega (arith, length-map_from draft_of 1 ps))

pub booked-IsPartyOf : (b : BookingSummary) → IsPartyOf b (participant_drafts_from_booking b)
unfolding participant_drafts_from_booking
booked-IsPartyOf b =
    let (kept, few) = booked_lem b.participants in record { primary_kept = kept; few = few }

pub edit-IsPartyOf :
    (e : PartyEdit) (b : BookingSummary) (ds : List DraftParticipant)
    → IsPartyOf b ds
    → IsPartyOf b (edit e ds)
edit-IsPartyOf e b ds h =
    let (same, few) = edit_keeps (max 4 (length b.participants)) e ds (omega arith) h.few in
    record {
      primary_kept = elim h.primary_kept [ inl empty ↦ inl empty | inr kept ↦ inr (same ∙ kept) ];
      few = few;
    }

-- A participant of the payload: a guest has no person, and anybody else no guest's name.
abbrev pub IsSent : BookingCreateParticipantInput → Type 0
IsSent p =
    ((p.participant_type ≡ guest) × (p.person_id ≡ none))
    ⊎ (((p.participant_type == guest) ≡ false) × (p.guest_name ≡ none))

payload-IsSent : (ds : List DraftParticipant) → All IsSent (map payload_of ds)
payload-IsSent [] = tt
payload-IsSent (d ∷ ds) = (
  elim (Bool-cases (d.participant_type == guest)) [
    | inl same ↦ inl ((participant_type_beq_iff d.participant_type guest).0 same, rw same refl)
    | inr other ↦ inr (other, rw other refl)
  ],
  payload-IsSent ds,
)

payload_primaries :
    (ds : List DraftParticipant)
    → map (λ p. p.participant_type) (filter (λ p. p.is_primary) (map payload_of ds)) ≡ primaries ds
payload_primaries [] = refl
payload_primaries (d ∷ ds) = ground (arith, payload_primaries ds)

applies_to_lem :
    (ds : List DraftParticipant) (t : BookingParticipantType)
    → primaries ds ≡ t ∷ []
    → applies_to ds ≡ some (applies_to_of t)
unfolding applies_to
applies_to_lem [] t h = cc
applies_to_lem (d ∷ ds) t h = ground (arith, applies_to_lem ds t)

-- Whatever the buttons and fields of the editor are used for, the booking that is made has at most
-- four participants, or as many as the party started with, and one primary participant, who is of the type that the party started with;
-- `applies_to` is that type, no guest has a person and nobody else has a guest's name. An edited
-- booking is sent with the same participants and the same `applies_to`.
pub run-IsSent :
    {ds : List DraftParticipant} {t : BookingParticipantType} (es : List PartyEdit)
    (sheet : SheetContext) (slot : LaneSlot) (cart caddie : Bool)
    → Starts ds t
    → (let sent = create_payload sheet slot cart caddie (run es ds) in
        (length sent.participants ≤ max 4 (length ds))
        × (map (λ p. p.participant_type) (filter (λ p. p.is_primary) sent.participants) ≡ t ∷ [])
        × (sent.applies_to ≡ some (applies_to_of t))
        × All IsSent sent.participants
        × ((update_payload sheet cart caddie (run es ds)).participants ≡ sent.participants)
        × ((update_payload sheet cart caddie (run es ds)).applies_to ≡ sent.applies_to))
unfolding as_participant_payload create_payload update_payload
run-IsSent {ds} {t} es sheet slot cart caddie start =
    let one = Starts_lem start in
    let (same, short) = run_keeps (max 4 (length ds)) es ds (omega arith) (omega arith) in
    (
      omega (arith, length-map payload_of (run es ds)),
      payload_primaries (run es ds) ∙ same ∙ one,
      applies_to_lem (run es ds) t (same ∙ one),
      payload-IsSent (run es ds),
      refl,
      refl,
    )
