-- ===== src/Targets/Ranges.antt =====
-- The periods that the anchor dates of targets give.
use greenlink.Prelude.{
  ℕ, suc, ◌+◌, ◌-◌, ◌*◌, ◌/◌, ◌≤◌, ◌≡◌, refl, sym, ap, ◌∙◌, arith, some, String,
}
use greenlink.Prelude.Text.{◌++ₛ◌, show}
use greenlink.Calendar.{
  Civil, civil, leap, days_in_month, day_from_year, days_before_month, from_day, to_day, make_day,
  week_day, text_of, date_text,
}
use greenlink.Calendar.Days.{
  IsDate, from_day-IsDate, day_from_year-suc, day_from_year_mono, day_from_year-low,
  from_day-to_day, days_before_month_mono, date_bounds,
}
use greenlink.Calendar.Texts.{IsFourDigit, parse_date-date_text}
use greenlink.DayShift.{monday, monday_lem}
use greenlink.Targets.Years.{extract_year_lem}
use greenlink.Targets.{
  PeriodRange, parse_date_string, shift_days, derive_weekly_target_range,
  derive_monthly_target_range, derive_quarterly_target_range, derive_daily_target_range,
  derive_yearly_target_range, normalize_target_period_range,
}

-- The last day of a month.
abbrev pub month_last : ℕ → ℕ → ℕ
month_last y m = to_day (civil y m (days_in_month y m))

month_last-eq :
    (y m : ℕ)
    → 1 ≤ y
    → 1 ≤ m
    → m ≤ 12
    → month_last y m ≡ day_from_year y + days_before_month (leap y) (suc m) - 1
unfolding to_day
month_last-eq y m hy lo hi = ground arith

make_day-first : (y m : ℕ) → 100 ≤ y → 1 ≤ m → m ≤ 12 → make_day y (m - 1) 1 ≡ to_day (civil y m 1)
unfolding make_day to_day
make_day-first y m hy lo hi = ground arith

-- Day 0 of the next month, which may be that of January, is the last day of the month.
make_day-last : (y m : ℕ) → 100 ≤ y → 1 ≤ m → m ≤ 12 → make_day y m 0 ≡ month_last y m
unfolding make_day to_day
make_day-last y m hy lo hi = ground (arith, day_from_year-suc y)

-- A day lies between the first day of a month not after its own and the last of one not before.
months_span :
    (n a b : ℕ)
    → 1 ≤ a
    → a ≤ (from_day n).month
    → (from_day n).month ≤ b
    → b ≤ 12
    → (to_day (civil (from_day n).year a 1) ≤ n) × (n ≤ month_last (from_day n).year b)
unfolding to_day
months_span n a b ha hm hb hi =
    let v = from_day-IsDate n in
    let y = (from_day n).year in
    let m = (from_day n).month in
    omega (
      arith,
      date_bounds n (from_day n) v,
      month_last-eq y b v.year_in (omega arith) hi,
      days_before_month_mono (leap y) a m hm,
      days_before_month_mono (leap y) (suc m) (suc b) (omega arith),
    )

parse_date_string_lem :
    (now n : ℕ) (c : Civil)
    → IsDate n c
    → IsFourDigit c.year
    → parse_date_string now (date_text c) ≡ some n
unfolding parse_date_string
parse_date_string_lem now n c v four = rw (parse_date_string, parse_date-date_text n c v four) refl

abbrev pub range_of : ℕ → ℕ → PeriodRange
range_of s e = record { period_start = text_of s; period_end = text_of e }

range_of-eq : {s t e f : ℕ} → s ≡ t → e ≡ f → range_of s e ≡ range_of t f
range_of-eq p q = λ i. range_of (p i) (q i)

-- The period of the key is that from day `s` to day `e`, and day `n` lies in it.
abbrev pub Spans : ℕ → String → ℕ → ℕ → ℕ → Type 0
Spans now key n s e =
    (normalize_target_period_range now key (text_of n) ≡ range_of s e) × (s ≤ n) × (n ≤ e)

new_year : (y : ℕ) → IsFourDigit y → show y ++ₛ "-01-01" ≡ text_of (to_day (civil y 1 1))
unfolding date_text show
new_year y (lo, hi) = ap date_text (
    sym (
      from_day-to_day (civil y 1 1) (record {
        year_in = omega arith;
        month_in = (omega arith, omega arith);
        day_in = (omega arith, omega arith);
        is_day = refl;
      })))

year_end : (y : ℕ) → IsFourDigit y → show y ++ₛ "-12-31" ≡ text_of (month_last y 12)
unfolding date_text show
year_end y (lo, hi) =
    let days : days_in_month y 12 ≡ 31 = omega arith in
    rw days (
      ap date_text (
        sym (
          from_day-to_day (civil y 12 31) (record {
            year_in = omega arith;
            month_in = (omega arith, omega arith);
            day_in = (omega arith, omega arith);
            is_day = refl;
          }))))

-- The week of a day starts in a year of four digits.
four_digits :
    (n s : ℕ)
    → 1001 ≤ (from_day n).year
    → (from_day n).year ≤ 9999
    → s ≤ n
    → n ≤ s + 6
    → IsFourDigit (from_day s).year
four_digits n s lo hi le near =
    let yn = (from_day n).year in
    let ys = (from_day s).year in
    let bn = date_bounds n (from_day n) (from_day-IsDate n) in
    let bs = date_bounds s (from_day s) (from_day-IsDate s) in
    grind (
      arith,
      bn,
      bs,
      (from_day-IsDate s).year_in,
      day_from_year_mono (ys + 1) 1000,
      day_from_year_mono 1001 yn,
      day_from_year-suc 1000,
      day_from_year_mono 10000 ys,
      day_from_year_mono (yn + 1) 10000,
    )

module _ (now n : ℕ) (four : IsFourDigit (from_day n).year) where
  read_anchor : parse_date_string now (text_of n) ≡ some n
  read_anchor = parse_date_string_lem now n (from_day n) (from_day-IsDate n) four

  daily-Spans : Spans now "daily" n n n
  unfolding normalize_target_period_range derive_daily_target_range
  daily-Spans = (rw read_anchor refl, omega arith, omega arith)

  monthly-Spans :
      (let c = from_day n in
        Spans now "monthly" n (to_day (civil c.year c.month 1)) (month_last c.year c.month))
  unfolding normalize_target_period_range derive_monthly_target_range
  monthly-Spans =
      let y = (from_day n).year in
      let m = (from_day n).month in
      let (lo, hi) = (from_day-IsDate n).month_in in
      let again : m - 1 + 1 ≡ m = omega arith in
      let (s, e) = months_span n m m lo (omega arith) (omega arith) hi in
      (
        rw (read_anchor, again)
            (range_of-eq (make_day-first y m (omega arith) lo hi)
              (make_day-last y m (omega arith) lo hi)),
        s,
        e,
      )

  quarterly-Spans :
      (let c = from_day n in
        let q = (c.month - 1) / 3 in
        Spans now "quarterly" n
          (to_day (civil c.year (q * 3 + 1) 1))
          (month_last c.year (q * 3 + 3)))
  unfolding normalize_target_period_range derive_quarterly_target_range
  quarterly-Spans =
      let y = (from_day n).year in
      let m = (from_day n).month in
      let q = (m - 1) / 3 in
      let (lo, hi) = (from_day-IsDate n).month_in in
      let again : q * 3 ≡ q * 3 + 1 - 1 = omega arith in
      let (s, e) =
        months_span n (q * 3 + 1) (q * 3 + 3) (omega arith) (omega arith) (omega arith)
          (omega arith) in
      (
        rw read_anchor (
            range_of-eq
              (ap (λ k. make_day y k 1) again
                ∙ make_day-first y (q * 3 + 1) (omega arith) (omega arith) (omega arith))
              (make_day-last y (q * 3 + 3) (omega arith) (omega arith) (omega arith))),
        s,
        e,
      )

  weekly-Spans :
      1001 ≤ (from_day n).year
      → Spans now "weekly" n (monday n) (monday n + 6) × (week_day (monday n) ≡ 1)
  unfolding normalize_target_period_range derive_weekly_target_range shift_days
  weekly-Spans lo =
      let (first, le, near) = monday_lem n (
        omega (
          arith,
          date_bounds n (from_day n) (from_day-IsDate n),
          day_from_year-low (from_day n).year,
        )) in
      let next =
        parse_date_string_lem now (monday n) (from_day (monday n)) (from_day-IsDate (monday n))
          (four_digits n (monday n) lo four.1 le near) in
      ((rw (read_anchor, next) (range_of-eq refl (omega arith)), le, near), first)

  yearly-Spans :
      Spans now "yearly" n (to_day (civil (from_day n).year 1 1)) (month_last (from_day n).year 12)
  unfolding normalize_target_period_range derive_yearly_target_range
  yearly-Spans =
      let y = (from_day n).year in
      let (lo, hi) = (from_day-IsDate n).month_in in
      let (s, e) = months_span n 1 12 (omega arith) lo hi (omega arith) in
      (
        rw (extract_year_lem now (from_day n) four)
            (λ i. record { period_start = new_year y four i; period_end = year_end y four i }),
        s,
        e,
      )

-- For an anchor whose year is from 1001 to 9999, the period of every key holds the anchor's day:
-- a week runs from its Monday for seven days, and a month, a quarter and a year from the first
-- day of their first month to the last day of their last.
pub normalize_target_period_range-Spans :
    (now n : ℕ)
    → 1001 ≤ (from_day n).year
    → (from_day n).year ≤ 9999
    → (let c = from_day n in
        let q = (c.month - 1) / 3 in
        Spans now "daily" n n n
        × Spans now "weekly" n (monday n) (monday n + 6)
        × (week_day (monday n) ≡ 1)
        × Spans now "monthly" n (to_day (civil c.year c.month 1)) (month_last c.year c.month)
        × Spans now "quarterly" n
            (to_day (civil c.year (q * 3 + 1) 1))
            (month_last c.year (q * 3 + 3))
        × Spans now "yearly" n (to_day (civil c.year 1 1)) (month_last c.year 12))
normalize_target_period_range-Spans now n lo hi =
    let four : IsFourDigit (from_day n).year = (omega arith, hi) in
    let (week, starts) = weekly-Spans now n four lo in
    (
      daily-Spans now n four,
      week,
      starts,
      monthly-Spans now n four,
      quarterly-Spans now n four,
      yearly-Spans now n four,
    )
