-- ===== src/Walkin/Placement.antt =====
-- The request of a walk-in placement, its optimistic booking and the rollback.
use text.Mathlib.TextEquality.{starts_with_iff}
use text.Mathlib.TextLemmas.{prefix-append, append_assoc}
use greenlink.Prelude.{
  ℕ, zero, suc, ◌+◌, ◌<◌, max, String, ◌≡◌, ◌≢◌, refl, true, Option, none, some, [], ◌∷◌, arith,
  ◌==◌, string_eq, nat_eq, length, length-tabulate, tabulate, filter, All, if◌then◌else◌,
  Option-cases, inl, inr, sum-append, eq_iff,
}
use greenlink.Prelude.Text.{◌++ₛ◌}
use greenlink.Types.Booking.{guest}
use greenlink.Types.TeeSheet.{TeeSheetSlotView, TeeSheetDayResponse, BookingRuleAppliesTo}
use greenlink.Sheet.Occupancy.{get_or, booking_player_count, slot_player_count}
use greenlink.Cache.{day_key, DayKey, QueryClient, day_key_eq, day_key_beq_iff}
use greenlink.Move.{move_optimistic_booking_id_prefix}
use greenlink.Walkin.{
  CreateWalkinBookingVariables, BookingCreateParticipantInput, build_walkin_booking_payload,
  optimistic_walkin_booking, optimistic_guest, optimistic_booking_id_prefix,
  is_optimistic_booking_id, place_on_slot, patch_day_with_optimistic_booking, on_mutate, on_error,
}

-- A guest of the party under its one name.
abbrev pub IsGuestOf : String → BookingCreateParticipantInput → Type 0
IsGuestOf name p = (p.participant_type ≡ guest) × (p.guest_name ≡ some name)

abbrev guest_at : String → ℕ → BookingCreateParticipantInput
guest_at name index = record {
  participant_type = guest;
  person_id = none;
  guest_name = some name;
  is_primary = index == 0;
}

guests_from : (name : String) (i n : ℕ) → All (IsGuestOf name) (tabulate (guest_at name) i n)
guests_from name i zero = tt
guests_from name i (suc n) = ((refl, refl), guests_from name (i + 1) n)

not-primary_from :
    (name : String) (i n : ℕ)
    → length (filter (λ p. p.is_primary) (tabulate (guest_at name) (suc i) n)) ≡ 0
not-primary_from name i zero = refl
not-primary_from name i (suc n) = ground (arith, not-primary_from name (i + 1) n)

primary_from :
    (name : String) (n : ℕ)
    → 0 < n
    → length (filter (λ p. p.is_primary) (tabulate (guest_at name) 0 n)) ≡ 1
primary_from name zero h = absurd (omega arith)
primary_from name (suc n) h = ground (arith, not-primary_from name 0 n)

-- What the request asks for.
pub record IsParty {Amount : Type 0} (v : CreateWalkinBookingVariables Amount) : Type 0 where
  pub guests : All (IsGuestOf v.entry.name) (build_walkin_booking_payload v).participants
  pub size : length (build_walkin_booking_payload v).participants ≡ max 1 v.entry.party
  pub one_primary :
      length (filter (λ p. p.is_primary) (build_walkin_booking_payload v).participants) ≡ 1
  pub shown_as_asked :
      0 < v.entry.party
      → (id : String)
      → booking_player_count (optimistic_walkin_booking v id)
        ≡ length (build_walkin_booking_payload v).participants

-- The request names the whole party, one guest at least, under the party's name and with one
-- primary guest; where the party is not empty, the optimistic booking shows as many players.
pub build_walkin_booking_payload-IsParty :
    {Amount : Type 0} (v : CreateWalkinBookingVariables Amount) → IsParty v
unfolding build_walkin_booking_payload optimistic_walkin_booking booking_player_count
build_walkin_booking_payload-IsParty v = record {
  guests = guests_from v.entry.name 0 (max 1 v.entry.party);
  size = length-tabulate (guest_at v.entry.name) 0 (max 1 v.entry.party);
  one_primary = primary_from v.entry.name (max 1 v.entry.party) (omega arith);
  shown_as_asked = λ h id. ground (
    arith,
    length-tabulate (guest_at v.entry.name) 0 (max 1 v.entry.party),
    length-tabulate (optimistic_guest v id) 0 v.entry.party,
  );
}

player_count-optimistic :
    {Amount : Type 0} (v : CreateWalkinBookingVariables Amount) (id : String)
    → booking_player_count (optimistic_walkin_booking v id) ≡ v.entry.party
unfolding optimistic_walkin_booking booking_player_count
player_count-optimistic v id =
    ground (arith, length-tabulate (optimistic_guest v id) 0 v.entry.party)

-- The slots of the chosen time gain the players of the party, and no other slot changes.
pub slot_player_count-place_on_slot :
    {Amount : Type 0} (v : CreateWalkinBookingVariables Amount) (id : String)
    (slot : TeeSheetSlotView)
    → (slot_player_count (place_on_slot v id slot) ≡ (
        if slot.slot_datetime == v.slot_datetime
        then slot_player_count slot + v.entry.party
        else slot_player_count slot))
      × (slot.slot_datetime ≢ v.slot_datetime → place_on_slot v id slot ≡ slot)
unfolding place_on_slot slot_player_count
slot_player_count-place_on_slot v id slot = (
  ground (
    arith,
    sum-append booking_player_count slot.bookings (optimistic_walkin_booking v id ∷ []),
    player_count-optimistic v id,
  ),
  λ h. ground (arith, eq_iff slot.slot_datetime v.slot_datetime),
)

-- Both kinds of transient booking carry an id that the row recognises as optimistic.
pub optimistic_ids_recognised :
    (now : String)
    → (is_optimistic_booking_id (optimistic_booking_id_prefix ++ₛ now) ≡ true)
      × (is_optimistic_booking_id (move_optimistic_booking_id_prefix ++ₛ now) ≡ true)
unfolding is_optimistic_booking_id
optimistic_ids_recognised now = (
  (starts_with_iff (optimistic_booking_id_prefix ++ₛ now) optimistic_booking_id_prefix).1
      (prefix-append optimistic_booking_id_prefix now),
  rw (append_assoc optimistic_booking_id_prefix "move-" now) (
      (starts_with_iff _ optimistic_booking_id_prefix).1
        (prefix-append optimistic_booking_id_prefix ("move-" ++ₛ now))),
)

module _ (client : QueryClient) where
  open client use {Cache, get, set, get-set}

  -- A placement that fails leaves every cached day as it was before the optimistic booking.
  pub get-on_error-on_mutate_walkin :
      {Amount : Type 0} (club : Option String) (date : String) (membership : BookingRuleAppliesTo)
      (tee : Option String) (now : String) (v : CreateWalkinBookingVariables Amount) (cache : Cache)
      (k : DayKey)
      → get k (
          on_error client
            (on_mutate client club date membership tee now v cache).1
            (on_mutate client club date membership tee now v cache).0)
        ≡ get k cache
  unfolding on_mutate on_error
  get-on_error-on_mutate_walkin club date membership tee now v cache k =
      let key = day_key (get_or club "none") v.course_id date membership tee none in
      let patch = λ (day : TeeSheetDayResponse).
        patch_day_with_optimistic_booking day v (optimistic_booking_id_prefix ++ₛ now) in
      elim (Option-cases (get key cache)) [
        | inl missing ↦ ground arith
        | inr (day, there) ↦ ground (
          arith,
          get-set key k day (set key (patch day) cache),
          get-set key k (patch day) cache,
          day_key_beq_iff k key,
        )
      ]
