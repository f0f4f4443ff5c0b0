-- ===== src/GolfPage/Matching.antt =====
-- frontend/src/pages/admin-golf-tee-sheet-page.tsx: the search and the filters of the grid.
-- `lower_case` and `date_parse` are the browser's `toLowerCase` and `Date.parse`.
use Prim.Native.Char.{code}
use greenlink.Prelude.{
  ◌+◌, ◌*◌, String, Bool, true, false, ◌&&◌, ◌||◌, Option, none, some, List, [], ◌∷◌, ◌++◌, map,
  not, if◌then◌else◌, filter, length, ltb, nat_beq,
}
use greenlink.Prelude.Int.{ℤ, sub_ℕ, pos_part, neg_part, ltb_ℤ}
use greenlink.Prelude.ParseInt.{parse_int}
use greenlink.Prelude.Text.{◌++ₛ◌, trim, starts_with, take_chars, truthy}
use greenlink.Types.TeeSheet.{TeeSheetBookingView, TeeSheetSlotView}
use greenlink.BookingMove.{LaneSlot}
use greenlink.Filters.{ViewFilter, PartySize, slot_matches_filter, slot_matches_party_size}
use greenlink.GolfPage.Slots.{Bucket}

-- text.includes(query)
abbrev pub includes : String → String → Bool
includes String.[] query = starts_with query ""
includes (String.◌∷◌ c s) query = starts_with query (String.◌∷◌ c s) || includes s query

-- names.join(" ")
abbrev join_names : List String → String
join_names [] = ""
join_names (name ∷ []) = name
join_names (name ∷ next ∷ names) = name ++ₛ " " ++ₛ join_names (next ∷ names)

abbrev participant_names : List TeeSheetBookingView → List String
participant_names [] = []
participant_names (booking ∷ bookings) =
    map (λ p. p.display_name) booking.participants ++ participant_names bookings

unfoldable pub slot_matches_search : (String → String) → LaneSlot → String → Bool
slot_matches_search lower_case slot search =
    let query = lower_case (trim search) in
    let metadata =
      lower_case (
        slot.row_label ++ₛ " " ++ₛ slot.lane_label ++ₛ " " ++ₛ take_chars 5 slot.slot.local_time) in
    if truthy query
    then includes (lower_case (join_names (participant_names slot.slot.bookings))) query
      || includes metadata query
    else true

-- The parts of `value.split(":")` before and behind the first colon, the latter none without one.
abbrev cut : String → String × Option String
cut String.[] = ("", none)
cut (String.◌∷◌ c s) =
    let (before, behind) = cut s in
    if nat_beq (code c) 58 then ("", some s) else (String.◌∷◌ c before, behind)

abbrev second_part : Option String → String
second_part none = "0"
second_part (some s) = (cut s).0

abbrev minutes_of : Option ℤ → Option ℤ → Option ℤ
minutes_of (some h) (some m) =
    some (sub_ℕ (pos_part h * 60 + pos_part m) (neg_part h * 60 + neg_part m))
minutes_of _ _ = none

-- none for NaN
unfoldable pub clock_minutes : String → Option ℤ
clock_minutes value =
    let (hours, rest) = cut value in minutes_of (parse_int hours) (parse_int (second_part rest))

-- a > b of two numbers, each of which may be NaN
abbrev greater : Option ℤ → Option ℤ → Bool
greater (some a) (some b) = ltb_ℤ b a
greater _ _ = false

abbrev outside : (Option ℤ → Bool) → Option String → Bool
outside test none = false
outside test (some time) = truthy time && test (clock_minutes time)

unfoldable pub slot_matches_time_range : TeeSheetSlotView → Option String → Option String → Bool
slot_matches_time_range slot time_from time_to =
    let slot_minutes = clock_minutes (take_chars 5 slot.local_time) in
    not (outside (λ t. greater t slot_minutes) time_from)
    && not (outside (λ t. greater slot_minutes t) time_to)

pub record TeeSheetFilterState : Type 0 where
  pub view_filter : ViewFilter
  pub party_size : PartySize
  pub time_from : Option String
  pub time_to : Option String

unfoldable pub slot_matches_filters :
    (String → Option ℤ) → TeeSheetSlotView → TeeSheetFilterState → Option String → Bool
slot_matches_filters date_parse slot f reference =
    slot_matches_filter date_parse slot f.view_filter reference
    && slot_matches_party_size slot f.party_size
    && slot_matches_time_range slot f.time_from f.time_to

abbrev narrowed : (LaneSlot → Bool) → Bucket → Bucket
narrowed p bucket = record bucket { slots = filter p bucket.slots }

unfoldable pub filtered_buckets :
    (String → Option ℤ)
    → (String → String)
    → String
    → TeeSheetFilterState
    → Option String
    → List Bucket
    → List Bucket
filtered_buckets date_parse lower_case search_term filters reference buckets =
    filter (λ bucket. ltb 0 (length bucket.slots))
      (map
        (narrowed (λ slot.
          slot_matches_search lower_case slot search_term
          && slot_matches_filters date_parse slot.slot filters reference))
        buckets)
