-- ===== src/Tests/Dates.antt =====
-- Anchors and shifts around 15 May 2026, a Friday, which is day 739750.
use greenlink.Prelude.{ℕ, ◌+◌, ◌≤◌, ◌≡◌, refl, some, none, arith}
use greenlink.Prelude.Int.{pos, negsuc}
use greenlink.Prelude.Text.{show, show_from}
use greenlink.Calendar.{
  leap, day_from_year, find_year, year_of, month_of, from_day, to_day, make_day, week_day,
  date_text, match_date, parse_date, text_of,
}
use greenlink.Targets.{
  normalize_target_period_range, parse_date_string, shift_days, derive_weekly_target_range,
  derive_quarterly_target_range,
}
use greenlink.Targets.Ranges.{Spans, normalize_target_period_range-Spans}
use greenlink.DayShift.{
  add_days, picker_shift_days, start_of_week, shift_iso_date, utc_day, player_add_days,
}
use greenlink.DayShift.Agree.{start_of_week_lem, add_days-negate, player_add_days_lem}

calendar : Unit {0}
unfolding leap day_from_year find_year year_of month_of from_day to_day make_day
calendar = tt

texts : Unit {0}
unfolding calendar date_text show show_from match_date parse_date
texts = tt

weeks :
    (normalize_target_period_range 0 "weekly" "2026-01-01"
      ≡ record { period_start = "2025-12-29"; period_end = "2026-01-04" })
    × (normalize_target_period_range 0 "quarterly" "2024-02-29"
        ≡ record { period_start = "2024-01-01"; period_end = "2024-03-31" })
unfolding texts normalize_target_period_range derive_weekly_target_range parse_date_string
    derive_quarterly_target_range shift_days
weeks = (refl, refl)

shifts :
    (shift_iso_date "2026-01-31" (pos 1) ≡ some "2026-02-01")
    × (shift_iso_date "not-a-date" (pos 1) ≡ none)
    × (add_days "2024-03-01" (negsuc 0) ≡ "2024-02-29")
unfolding texts shift_iso_date utc_day add_days
shifts = (refl, refl, refl)

normalize_target_period_range-Spans_example :
    Spans 0 "daily" 739750 739750 739750
    × Spans 0 "weekly" 739750 739746 739752
    × (week_day 739746 ≡ 1)
    × Spans 0 "monthly" 739750 739736 739766
    × Spans 0 "quarterly" 739750 739706 739796
    × Spans 0 "yearly" 739750 739616 739980
unfolding calendar
normalize_target_period_range-Spans_example =
    normalize_target_period_range-Spans 0 739750 (omega arith) (omega arith)

start_of_week_lem_example :
    (m i : ℕ) × (start_of_week (text_of 739750) ≡ text_of m)
    × (week_day m ≡ 1)
    × (m + i ≡ 739750)
    × (i ≤ 6)
    × (picker_shift_days (start_of_week (text_of 739750)) (pos i) ≡ text_of 739750)
unfolding calendar
start_of_week_lem_example =
    start_of_week_lem 739750 (omega arith) (omega arith, omega arith) (omega arith, omega arith)

add_days-negate_example :
    (add_days (add_days (text_of 739750) (negsuc 400)) (pos 401) ≡ text_of 739750)
    × (shift_iso_date (add_days (text_of 739750) (negsuc 400)) (pos 401) ≡ some (text_of 739750))
unfolding calendar
add_days-negate_example =
    add_days-negate 739750 (negsuc 400) (omega arith, omega arith) (omega arith, omega arith)
      (omega arith)

-- Two hours ahead of UTC.
player_add_days_lem_example :
    (player_add_days (pos 120) (text_of 739750) (pos 3) ≡ some (text_of 739752))
    × (player_add_days (pos 120) (text_of 739750) (pos 1) ≡ some (text_of 739750))
    × (player_add_days (negsuc 119) (text_of 739750) (pos 3) ≡ some (text_of 739753))
    × (player_add_days (pos 0) (text_of 739750) (pos 3) ≡ some (text_of 739753))
unfolding calendar
player_add_days_lem_example =
    player_add_days_lem 120 739750 (pos 3) (omega arith, omega arith) (omega arith, omega arith)
      (omega arith, omega arith) (omega arith) (omega arith) (omega arith)
