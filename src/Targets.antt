-- ===== src/Targets.antt =====
-- frontend/src/features/targets/hooks.ts: the period that a target of a club covers.
--
-- `now` is the day of `new Date()`. An invalid date is `none`; its getters are NaN.
pub mod Ranges
mod Years
use greenlink.Prelude.{
  ℕ, zero, suc, ◌+◌, ◌-◌, ◌*◌, ◌/◌, ◌%◌, Bool, if◌then◌else◌, ◌==◌, nat_beq, string_eq, Option,
  none, some, String,
}
use greenlink.Prelude.Int.{ℤ, pos, negsuc, sub_ℕ}
use greenlink.Prelude.ParseInt.{parse_int}
use greenlink.Prelude.Text.{◌++ₛ◌, show, take_chars, is_space}
use greenlink.Calendar.{Civil, from_day, make_day, week_day, shift, date_text, parse_date}
use greenlink.DayShift.{monday_offset}
use Prim.Native.String
use Prim.Native.Char.{Char, code}

-- The two dates of a ClubTargetUpsertInput.
pub record PeriodRange : Type 0 where
  pub period_start : String
  pub period_end : String

abbrev pub local_date_string : Option ℕ → String
local_date_string none = "NaN-NaN-NaN"
local_date_string (some n) = date_text (from_day n)

unfoldable pub parse_date_string : ℕ → String → Option ℕ
parse_date_string now value = elim (parse_date value) [
  | none ↦ parse_date (local_date_string (some now))
  | some n ↦ some n
]

abbrev show_int : ℤ → String
show_int (pos n) = show n
show_int (negsuc n) = "-" ++ₛ show (n + 1)

unfoldable pub extract_year_from_date_string : ℕ → String → ℤ
extract_year_from_date_string now value = elim (parse_int (take_chars 4 value)) [
  | none ↦ pos (from_day now).year
  | some year ↦ year
]

abbrev map_day : (ℕ → ℕ) → Option ℕ → Option ℕ
map_day f none = none
map_day f (some n) = some (f n)

unfoldable pub shift_days : ℕ → String → ℤ → String
shift_days now value amount =
    local_date_string (map_day (λ n. shift n amount) (parse_date_string now value))

unfoldable pub derive_weekly_target_range : ℕ → String → PeriodRange
derive_weekly_target_range now anchor_date =
    let monday =
      map_day (λ n. shift n (monday_offset (week_day n))) (parse_date_string now anchor_date) in
    let period_start = local_date_string monday in
    record { period_start = period_start; period_end = shift_days now period_start (pos 6) }

-- The first day of month `m`, from 0, and the last day of the month that is `k` months on.
abbrev first_day : (Civil → ℕ) → Option ℕ → Option ℕ
first_day m = map_day (λ n. let c = from_day n in make_day c.year (m c) 1)

abbrev last_day : (Civil → ℕ) → Option ℕ → Option ℕ
last_day m = map_day (λ n. let c = from_day n in make_day c.year (m c) 0)

unfoldable pub derive_monthly_target_range : ℕ → String → PeriodRange
derive_monthly_target_range now anchor_date =
    let date = parse_date_string now anchor_date in
    record {
      period_start = local_date_string (first_day (λ c. c.month - 1) date);
      period_end = local_date_string (last_day (λ c. c.month - 1 + 1) date);
    }

abbrev quarter_start_month : Civil → ℕ
quarter_start_month c = (c.month - 1) / 3 * 3

unfoldable pub derive_quarterly_target_range : ℕ → String → PeriodRange
derive_quarterly_target_range now anchor_date =
    let date = parse_date_string now anchor_date in
    record {
      period_start = local_date_string (first_day quarter_start_month date);
      period_end = local_date_string (last_day (λ c. quarter_start_month c + 3) date);
    }

unfoldable pub derive_daily_target_range : ℕ → String → PeriodRange
derive_daily_target_range now anchor_date =
    let normalized_date = local_date_string (parse_date_string now anchor_date) in
    record { period_start = normalized_date; period_end = normalized_date }

unfoldable pub derive_yearly_target_range : ℕ → String → PeriodRange
derive_yearly_target_range now anchor_date =
    let year = show_int (extract_year_from_date_string now anchor_date) in
    record { period_start = year ++ₛ "-01-01"; period_end = year ++ₛ "-12-31" }

unfoldable pub normalize_target_period_range : ℕ → String → String → PeriodRange
normalize_target_period_range now period_key anchor_date =
    if period_key == "daily"
    then derive_daily_target_range now anchor_date
    else if period_key == "weekly"
    then derive_weekly_target_range now anchor_date
    else if period_key == "monthly"
    then derive_monthly_target_range now anchor_date
    else if period_key == "quarterly"
    then derive_quarterly_target_range now anchor_date
    else if period_key == "yearly"
    then derive_yearly_target_range now anchor_date
    else derive_daily_target_range now anchor_date
