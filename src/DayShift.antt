-- ===== src/DayShift.antt =====
-- The shifts of a date's text that the pages have, each its own:
-- frontend/src/pages/admin-golf-tee-sheet-page.tsx (`addDays`),
-- frontend/src/features/tee-sheet/date-picker-popover.tsx (`shiftDays`, `startOfWeek`),
-- frontend/src/features/tee-sheet/use-tee-sheet-shortcuts.ts (`shiftIsoDate`) and
-- frontend/src/pages/player-book-page.tsx (`addDays`, whose result is read in UTC).
--
-- A date at midnight of the clock's own zone is its day number, and shifts stop at day 0, the first
-- of January of year 1: the theorems keep to years of four digits.
pub mod Agree
use greenlink.Prelude.{
  ℕ, zero, suc, ◌+◌, ◌-◌, ◌*◌, ◌/◌, ◌%◌, ◌≤◌, ◌≡◌, arith, if◌then◌else◌, nat_beq, ltb, Option, none,
  some, String,
}
use greenlink.Prelude.Int.{ℤ, negsuc, pos_part, neg_part, sub_ℕ}
use greenlink.Prelude.Text.{◌++ₛ◌, show}
use greenlink.Calendar.{
  Civil, civil, from_day, to_day, make_day, week_day, shift, text_of, pad_two, parse_date,
  match_date,
}

-- `addDays` of the golf tee sheet
unfoldable pub add_days : String → ℤ → String
add_days value amount = elim (parse_date value) [
  | none ↦ "NaN-NaN-NaN"
  | some n ↦ text_of (shift n amount)
]

-- `shiftDays` of the date picker
unfoldable pub picker_shift_days : String → ℤ → String
picker_shift_days value amount = elim (parse_date value) [
  | none ↦ "NaN-NaN-NaN"
  | some n ↦ text_of (shift n amount)
]

abbrev pub monday_offset : ℕ → ℤ
monday_offset day = if nat_beq day 0 then negsuc 5 else sub_ℕ 1 day

unfoldable pub start_of_week : String → String
start_of_week date_str = elim (parse_date date_str) [
  | none ↦ "NaN-NaN-NaN"
  | some n ↦ text_of (shift n (monday_offset (week_day n)))
]

-- Date.UTC(year, month - 1, day), where the text may give month 0 and a day that its month lacks
unfoldable pub utc_day : Civil → ℕ
utc_day c =
    let full = if ltb c.year 100 then 1900 + c.year else c.year in
    if nat_beq c.month 0
    then to_day (civil (full - 1) 12 c.day)
    else make_day c.year (c.month - 1) c.day

unfoldable pub shift_iso_date : String → ℤ → Option String
shift_iso_date iso delta_days = elim (match_date iso) [
  | none ↦ none
  | some c ↦ some (text_of (shift (utc_day c) delta_days))
]

abbrev pub minutes_of_day : ℕ
minutes_of_day = 1440

-- The day in UTC at midnight of day `n`, on a clock `offset` minutes ahead of UTC.
unfoldable pub utc_at_midnight : ℤ → ℕ → ℕ
utc_at_midnight offset n = (n * minutes_of_day + neg_part offset - pos_part offset) / minutes_of_day

abbrev pad_four : ℕ → String
pad_four n =
    if ltb n 10
    then "000" ++ₛ show n
    else if ltb n 100
    then "00" ++ₛ show n
    else if ltb n 1000
    then "0" ++ₛ show n
    else show n

-- date.toISOString().slice(0, 10), up to year 9999
unfoldable pub iso_text : Civil → String
iso_text c = pad_four c.year ++ₛ "-" ++ₛ pad_two c.month ++ₛ "-" ++ₛ pad_two c.day

-- `addDays` of the player's page. `toISOString` throws on an invalid date.
unfoldable pub player_add_days : ℤ → String → ℤ → Option String
player_add_days offset value amount = elim (parse_date value) [
  | none ↦ none
  | some n ↦ some (iso_text (from_day (utc_at_midnight offset (shift n amount))))
]

-- The Monday of the week of a day.
abbrev pub monday : ℕ → ℕ
monday n = shift n (monday_offset (week_day n))

pub monday_lem : (n : ℕ) → 6 ≤ n → (week_day (monday n) ≡ 1) × (monday n ≤ n) × (n ≤ monday n + 6)
monday_lem n h = ground arith
