-- ===== src/Tests/Moves.antt =====
-- Moves, walk-ins and swaps at a concrete day.
use greenlink.Prelude.{String, ◌≡◌, refl, true, false, none, some, [], ◌∷◌, string_eq}
use greenlink.Types.TeeSheet.{BookingRuleAppliesTo, applies_to_eq}
use greenlink.Types.Booking.{BookingMoveInput, BookingMoveResult}
use greenlink.Cache.{DayKey, day_key_eq}
use greenlink.Cache.Memory.{Days, memory, lookup}
use greenlink.Move.{MoveError, plain, Outcome, ok, on_error, on_mutate, patch_slot_with_move}
use greenlink.Move.Patch.{IsPatched, patch_slot-IsPatched}
use greenlink.Move.Rollback.{get-on_error-on_mutate}
use greenlink.Row.{target_row_has_intermediate_space}
use greenlink.Swap.{move_a, move_b, initial, initiate, on_success, on_failure}
use greenlink.Swap.Protocol.{
  Config, start_config, begin, success, Reach, here, next, IsConsistent, Reach-IsConsistent,
}
use greenlink.Tests.Data.{small_slot, lane, day_of, move_ben, swap_ben_cas, moved, refused}

-- The days of two courses, cached for the same date.
abbrev key_of_course : String → DayKey
key_of_course course = record {
  club_id = "club";
  course_id = course;
  day = "2026-05-14";
  membership_type = BookingRuleAppliesTo.staff;
  tee_id = "all-tees";
  interval_minutes = none;
}

abbrev two_days : Days
two_days = (key_of_course "c1", day_of "c1") ∷ (key_of_course "c2", day_of "c2") ∷ []

patch_slot-IsPatched_example :
    IsPatched move_ben "optimistic-move-7" small_slot
      (patch_slot_with_move move_ben "optimistic-move-7" small_slot)
patch_slot-IsPatched_example = patch_slot-IsPatched move_ben "optimistic-move-7" small_slot

get-on_error-on_mutate_example :
    lookup (key_of_course "c1") (
      on_error memory
        (on_mutate memory
          (some "club")
          "2026-05-14"
          BookingRuleAppliesTo.staff
          none
          "7"
          move_ben
          two_days).1
        (on_mutate memory
          (some "club")
          "2026-05-14"
          BookingRuleAppliesTo.staff
          none
          "7"
          move_ben
          two_days).0)
    ≡ some (day_of "c1")
get-on_error-on_mutate_example =
    get-on_error-on_mutate memory (some "club") "2026-05-14" BookingRuleAppliesTo.staff none "7"
      move_ben two_days (key_of_course "c1")

abbrev backend : String → BookingMoveInput → Outcome MoveError BookingMoveResult
backend id input = ok refused

abbrev begun : Config
begun = record {
  hook = initiate swap_ben_cas lane initial;
  a_moved = false;
  b_moved = false;
  overlapped = false;
}

abbrev half_done : Config
half_done = record {
  hook = on_success (move_a swap_ben_cas) moved (initiate swap_ben_cas lane initial);
  a_moved = true;
  b_moved = false;
  overlapped = false;
}

half_done_reached : Reach start_config half_done
unfolding initiate target_row_has_intermediate_space
half_done_reached =
    next (next here (begin swap_ben_cas lane)) (success (move_a swap_ben_cas) moved refl)

Reach-IsConsistent_example : IsConsistent half_done
Reach-IsConsistent_example = Reach-IsConsistent half_done_reached refl

abbrev stopped : Config
stopped = record {
  hook =
      on_failure (move_b swap_ben_cas) (plain "offline")
        (on_success (move_a swap_ben_cas) moved (initiate swap_ben_cas lane initial));
  a_moved = true;
  b_moved = false;
  overlapped = false;
}
