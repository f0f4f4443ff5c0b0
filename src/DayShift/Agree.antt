-- ===== src/DayShift/Agree.antt =====
-- The shifts of the pages on the texts of dates.
use greenlink.Prelude.{ℕ, ◌+◌, ◌-◌, ◌≤◌, ◌<◌, ◌≡◌, refl, ap, ◌∙◌, arith, some}
use greenlink.Prelude.Int.{ℤ, pos, negate, neg_part}
use greenlink.Calendar.{
  Civil, leap, from_day, to_day, make_day, shift, text_of, week_day, date_text, parse_date,
  match_date,
}
use greenlink.Calendar.Days.{from_day-IsDate, leap-le}
use greenlink.Calendar.Texts.{IsFourDigit, parse_date-date_text, match_date-date_text, day-le}
use greenlink.DayShift.{
  add_days, picker_shift_days, start_of_week, monday, monday_lem, shift_iso_date, utc_day,
  player_add_days, iso_text, utc_at_midnight,
}

utc_day_lem : (c : Civil) → 100 ≤ c.year → 1 ≤ c.month → c.month ≤ 12 → utc_day c ≡ to_day c
unfolding utc_day make_day to_day
utc_day_lem c hy lo hi = ground arith

shift_back : (n : ℕ) (k : ℤ) → neg_part k ≤ n → shift (shift n k) (negate k) ≡ n
shift_back n k h = ground arith

module _ (n : ℕ) (four : IsFourDigit (from_day n).year) where
  pub parse_text : parse_date (text_of n) ≡ some n
  parse_text = parse_date-date_text n (from_day n) (from_day-IsDate n) four

  match_text : match_date (text_of n) ≡ some (from_day n)
  match_text =
      let c = from_day n in
      let v = from_day-IsDate n in
      match_date-date_text c.year c.month c.day four.0 four.1 (omega (arith, v.month_in))
        (day-le (leap c.year) c.month c.day (leap-le c.year) v.day_in.1)

  utc_day_text : utc_day (from_day n) ≡ n
  utc_day_text =
      let v = from_day-IsDate n in
      utc_day_lem (from_day n) (omega (arith, four)) v.month_in.0 v.month_in.1 ∙ v.is_day

  -- On the text of a date whose year has four digits, the shifts of the three files that read the
  -- date in the clock's own zone or in UTC alone give one result.
  pub add_days-shift_iso_date :
      (k : ℤ)
      → (add_days (text_of n) k ≡ text_of (shift n k))
        × (picker_shift_days (text_of n) k ≡ text_of (shift n k))
        × (shift_iso_date (text_of n) k ≡ some (text_of (shift n k)))
  unfolding add_days picker_shift_days shift_iso_date
  add_days-shift_iso_date k = (
    rw (add_days, parse_text) refl,
    rw (picker_shift_days, parse_text) refl,
    rw (shift_iso_date, match_text, utc_day_text) refl,
  )

  start_of_week-text : start_of_week (text_of n) ≡ text_of (monday n)
  unfolding start_of_week
  start_of_week-text = rw (start_of_week, parse_text) refl

-- The week strip of a date starts on a Monday, which is the date or one of the six days before it,
-- and one of the seven days that the strip shifts that Monday to is the date itself, where the years
-- of both have four digits.
pub start_of_week_lem :
    (n : ℕ)
    → 6 ≤ n
    → IsFourDigit (from_day n).year
    → IsFourDigit (from_day (monday n)).year
    → (m i : ℕ) × (start_of_week (text_of n) ≡ text_of m)
      × (week_day m ≡ 1)
      × (m + i ≡ n)
      × (i ≤ 6)
      × (picker_shift_days (start_of_week (text_of n)) (pos i) ≡ text_of n)
start_of_week_lem n late four near =
    let (is_monday, before, week) = monday_lem n late in
    let start = start_of_week-text n four in
    let (_, shifted, _) = add_days-shift_iso_date (monday n) near (pos (n - monday n)) in
    let back : shift (monday n) (pos (n - monday n)) ≡ n = omega (arith, before) in
    (
      monday n,
      n - monday n,
      start,
      is_monday,
      omega (arith, before),
      omega (arith, week),
      rw start (shifted ∙ ap text_of back),
    )

-- A shift by some days and back gives the text again, where the year has four digits at both ends.
pub add_days-negate :
    (n : ℕ) (k : ℤ)
    → IsFourDigit (from_day n).year
    → IsFourDigit (from_day (shift n k)).year
    → neg_part k ≤ n
    → (add_days (add_days (text_of n) k) (negate k) ≡ text_of n)
      × (shift_iso_date (add_days (text_of n) k) (negate k) ≡ some (text_of n))
add_days-negate n k four far h =
    let (there, _, _) = add_days-shift_iso_date n four k in
    let (back, _, keys) = add_days-shift_iso_date (shift n k) far (negate k) in
    let home = shift_back n k h in
    (rw there (back ∙ ap text_of home), rw there (keys ∙ ap (λ m. some (text_of m)) home))

iso_text-eq : (c : Civil) → IsFourDigit c.year → iso_text c ≡ date_text c
unfolding iso_text date_text
iso_text-eq c four = ground arith

utc_east : (o n : ℕ) → 1 ≤ o → o ≤ 1440 → 1 ≤ n → utc_at_midnight (pos o) n ≡ n - 1
unfolding utc_at_midnight
utc_east o n lo hi h = omega arith

utc_west : (o n : ℕ) → o < 1440 → utc_at_midnight (negate (pos o)) n ≡ n
unfolding utc_at_midnight
utc_west o n h = ground arith

-- Read in UTC, the day that is `k` days on is one day short on every clock ahead of UTC, so that
-- one day on is the day itself, and right on a clock of UTC or behind it.
pub player_add_days_lem :
    (o n : ℕ) (k : ℤ)
    → IsFourDigit (from_day n).year
    → IsFourDigit (from_day (shift n k)).year
    → IsFourDigit (from_day (shift n k - 1)).year
    → 1 ≤ shift n k
    → 1 ≤ o
    → o < 1440
    → (player_add_days (pos o) (text_of n) k ≡ some (text_of (shift n k - 1)))
      × (player_add_days (pos o) (text_of n) (pos 1) ≡ some (text_of n))
      × (player_add_days (negate (pos o)) (text_of n) k ≡ some (text_of (shift n k)))
      × (player_add_days (pos 0) (text_of n) k ≡ some (text_of (shift n k)))
unfolding player_add_days date_text
player_add_days_lem o n k four far near h lo hi =
    let read = parse_text n four in
    let on : shift n (pos 1) - 1 ≡ n = omega arith in
    (
      rw (player_add_days, read, utc_east o (shift n k) lo (omega arith) h)
          (ap some (iso_text-eq _ near)),
      rw (player_add_days, read, utc_east o (shift n (pos 1)) lo (omega arith) (omega arith), on)
          (ap some (iso_text-eq _ four)),
      rw (player_add_days, read, utc_west o (shift n k) hi) (ap some (iso_text-eq _ far)),
      rw (player_add_days, read, utc_west 0 (shift n k) (omega arith))
          (ap some (iso_text-eq _ far)),
    )
