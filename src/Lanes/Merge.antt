-- ===== src/Lanes/Merge.antt =====
-- What the merged slot shows of its group.
use greenlink.Prelude.{
  ℕ, zero, suc, get_elem?, Bool-cases, ◌+◌, ◌≤◌, max, String, ◌≡◌, refl, Bool, false, ◌||◌, some,
  List, [], ◌∷◌, arith, if◌then◌else◌, ◌==◌, string_eq, any, sum, ltb, eq_iff, length, inl, inr,
}
use greenlink.Types.TeeSheet.{TeeSheetBookingView}
use greenlink.Sheet.Occupancy.{update_slot_from_bookings}
use greenlink.Sheet.Occupancy.Counts.{total_players-update_slot}
use greenlink.BookingMove.{LaneSlot}
use greenlink.Lanes.{
  slot_surface_priority, representative, put, by_key, bookings_of_group, merge_lane_slot_group,
}

-- The highest priority in a group.
abbrev pub top_priority : List LaneSlot → ℕ
top_priority [] = 0
top_priority (item ∷ items) = max (slot_surface_priority item.slot) (top_priority items)

representative-top :
    (best : LaneSlot) (items : List LaneSlot)
    → slot_surface_priority (representative best items).slot
      ≡ max (slot_surface_priority best.slot) (top_priority items)
unfolding representative
representative-top best [] = omega arith
representative-top best (item ∷ items) =
    ground (arith, representative-top best items, representative-top item items)

module _ {A : Type 0} (key : A → String) where
  abbrev pub lists_key : String → List A → Bool
  lists_key k values = any (λ a. key a == k) values

  -- How often a key occurs.
  abbrev pub times : String → List A → ℕ
  times k values = sum (λ a. if key a == k then 1 else 0) values

  put-lists :
      (k : String) (a : A) (values : List A)
      → lists_key k (put key a values) ≡ (key a == k || lists_key k values)
  unfolding put
  put-lists k a [] = refl
  put-lists k a (b ∷ bs) = ground (arith, put-lists k a bs, eq_iff (key b) (key a))

  by_key-lists :
      (k : String) (values items : List A)
      → lists_key k (by_key key values items) ≡ (lists_key k values || lists_key k items)
  unfolding by_key
  by_key-lists k values [] = ground arith
  by_key-lists k values (a ∷ items) =
      ground (arith, by_key-lists k (put key a values) items, put-lists k a values)

  absent_times : (k : String) (values : List A) → lists_key k values ≡ false → times k values ≡ 0
  absent_times k [] h = refl
  absent_times k (a ∷ values) h = ground (arith, absent_times k values)

  put-times :
      (k : String) (a : A) (values : List A)
      → times k (put key a values) ≡ (
          if lists_key (key a) values
          then times k values
          else times k values + (if key a == k then 1 else 0))
  unfolding put
  put-times k a [] = ground arith
  put-times k a (b ∷ bs) =
      ground (arith, put-times k a bs, eq_iff (key b) (key a), eq_iff (key a) k, eq_iff (key b) k)

  put_once :
      (a : A) (values : List A)
      → ((k : String) → times k values ≤ 1)
      → (k : String) → times k (put key a values) ≤ 1
  put_once a values h k =
      ground
        (arith, put-times k a values, absent_times (key a) values, eq_iff (key a) k, h k, h (key a))

  by_key_once :
      (values items : List A)
      → ((k : String) → times k values ≤ 1)
      → (k : String) → times k (by_key key values items) ≤ 1
  unfolding by_key
  by_key_once values [] h k = h k
  by_key_once values (a ∷ items) h k = by_key_once (put key a values) items (put_once a values h) k

abbrev pub id_of : TeeSheetBookingView → String
id_of b = b.id

behind_second :
    (best item : LaneSlot) (items : List LaneSlot) (x : LaneSlot) (i : ℕ)
    → get_elem? (best ∷ items) i ≡ some x
    → (j : ℕ) × (get_elem? (best ∷ item ∷ items) j ≡ some x)
behind_second best item items x zero e = (0, e)
behind_second best item items x (suc i) e = (suc (suc i), e)

representative-member :
    (best : LaneSlot) (items : List LaneSlot)
    → (i : ℕ) × (get_elem? (best ∷ items) i ≡ some (representative best items))
unfolding representative
representative-member best [] = (0, refl)
representative-member best (item ∷ items) =
    elim (Bool-cases (ltb (slot_surface_priority best.slot) (slot_surface_priority item.slot))) [
      | inl higher ↦ let (i, e) = representative-member item items in (suc i, rw higher e)
      | inr lower ↦
          let (i, e) = representative-member best items in
          rw lower (behind_second best item items (representative best items) i e)
    ]

-- The merged slot of a group. `shown` is the one of the group that it is made from.
pub record IsMerged (group : List LaneSlot) (merged : LaneSlot) : Type 0 where
  pub ids_kept :
      (id : String)
      → lists_key id_of id merged.slot.bookings ≡ lists_key id_of id (bookings_of_group group)
  pub ids_once : (id : String) → times id_of id merged.slot.bookings ≤ 1
  pub players_counted :
      merged.slot.party_summary.total_players
      ≡ some (sum (λ b. length b.participants) merged.slot.bookings)
  pub index : ℕ
  pub shown : LaneSlot
  pub is_member : get_elem? group index ≡ some shown
  pub datetime_shown : merged.slot.slot_datetime ≡ shown.slot.slot_datetime
  pub status_shown : merged.slot.display_status ≡ shown.slot.display_status
  pub lane_shown : merged.start_lane ≡ shown.start_lane
  pub is_top : slot_surface_priority shown.slot ≡ top_priority group

-- The merged slot lists each booking id of its group, and no other, exactly once, and counts the
-- participants of the bookings that it lists. It stands at the time, on the lane and under the
-- status of one of the group's slots, and that one has the highest priority in the group.
pub merge_lane_slot_group-IsMerged :
    (first : LaneSlot) (rest : List LaneSlot)
    → IsMerged (first ∷ rest) (merge_lane_slot_group first rest)
unfolding merge_lane_slot_group update_slot_from_bookings
merge_lane_slot_group-IsMerged first rest =
    let member = representative-member first rest in
    record {
      ids_kept = λ id. by_key-lists id_of id [] (bookings_of_group (first ∷ rest));
      ids_once =
          λ id. by_key_once id_of [] (bookings_of_group (first ∷ rest)) (λ k. omega arith) id;
      players_counted =
          total_players-update_slot (representative first rest).slot
            (by_key id_of [] (bookings_of_group (first ∷ rest)));
      index = member.0;
      shown = representative first rest;
      is_member = member.1;
      datetime_shown = refl;
      status_shown = refl;
      lane_shown = refl;
      is_top = representative-top first rest;
    }
