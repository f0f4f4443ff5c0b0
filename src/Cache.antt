-- ===== src/Cache.antt =====
-- The keys of frontend/src/features/tee-sheet/hooks.ts, and what the mutation hooks use of the
-- query client (@tanstack/react-query), which is not part of the repository.
pub mod Memory
use greenlink.Prelude.{
  ℕ, String, ◌≡◌, ◌↔◌, Bool, true, false, ◌&&◌, Option, none, some, List, arith, if◌then◌else◌,
  ◌==◌, Eq, string_eq, option_eq, nat_eq, option_beq_iff, eq_iff,
}
use greenlink.Types.TeeSheet.{
  BookingRuleAppliesTo, TeeSheetDayResponse, applies_to_eq, applies_to_beq_iff,
}
use greenlink.Sheet.Occupancy.{get_or}

-- ["tee-sheet", clubId, courseId, day, membershipType, teeId, intervalMinutes]
pub record DayKey : Type 0 where
  pub club_id : String
  pub course_id : String
  pub day : String
  pub membership_type : BookingRuleAppliesTo
  pub tee_id : String
  pub interval_minutes : Option ℕ

-- teeSheetKeys.day, where an absent interval stands for "default"
unfoldable pub day_key :
    String → String → String → BookingRuleAppliesTo → Option String → Option ℕ → DayKey
day_key club_id course_id day membership_type tee_id interval_minutes = record {
  club_id = club_id;
  course_id = course_id;
  day = day;
  membership_type = membership_type;
  tee_id = get_or tee_id "all-tees";
  interval_minutes = interval_minutes;
}

abbrev pub day_key_beq : DayKey → DayKey → Bool
day_key_beq a b =
    a.club_id == b.club_id
    && a.course_id == b.course_id
    && a.day == b.day
    && a.membership_type == b.membership_type
    && a.tee_id == b.tee_id
    && a.interval_minutes == b.interval_minutes

pub day_key_beq_iff : (a b : DayKey) → (day_key_beq a b ≡ true) ↔ (a ≡ b)
day_key_beq_iff a b = ground (
  arith,
  eq_iff a.club_id b.club_id,
  eq_iff a.course_id b.course_id,
  eq_iff a.day b.day,
  applies_to_beq_iff a.membership_type b.membership_type,
  eq_iff a.tee_id b.tee_id,
  option_beq_iff nat_eq a.interval_minutes b.interval_minutes,
)

instance abbrev pub day_key_eq : Eq DayKey
day_key_eq = record { beq = day_key_beq; beq_iff = day_key_beq_iff }

-- The part of the query cache that holds tee-sheet days: `getQueryData`, `setQueryData`, and the
-- queries that `getQueryCache().findAll` goes through, in its order. `setQueryData` writes the data
-- of its own key and of no other.
pub record QueryClient : Type 1 where
  pub Cache : Type 0
  pub get : DayKey → Cache → Option TeeSheetDayResponse
  pub set : DayKey → TeeSheetDayResponse → Cache → Cache
  pub keys : Cache → List DayKey
  pub get-set :
      (k j : DayKey) (d : TeeSheetDayResponse) (c : Cache)
      → get j (set k d c) ≡ (if j == k then some d else get j c)
