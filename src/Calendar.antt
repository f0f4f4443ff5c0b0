-- ===== src/Calendar.antt =====
-- The dates of the browser, as the files of the front end that shift days use them: the `Date` of
-- a text "YYYY-MM-DD" at midnight, its getters, `setDate` and `new Date(year, month, day)`.
--
-- A `Date` is its count of days from 0001-01-01, which ECMAScript's algorithms take apart
-- (DayFromYear, YearFromTime, MonthFromTime, DateFromTime, MakeDay); the hour stays midnight. A
-- date before year 1 has no count. A text of another form than "YYYY-MM-DD", or of a day that
-- its month lacks, is an invalid date.
pub mod Days
pub mod Texts
use greenlink.Prelude.{
  ℕ, zero, suc, ◌+◌, ◌-◌, ◌*◌, ◌/◌, ◌%◌, Bool, ◌&&◌, ◌||◌, not, if◌then◌else◌, ltb, leb, nat_beq,
  Option, none, some, String,
}
use greenlink.Prelude.Int.{ℤ, pos_part, neg_part}
use greenlink.Prelude.Text.{◌++ₛ◌, show}
use greenlink.Prelude.ParseInt.{is_digit, digit_value}
use Prim.Native.String
use Prim.Native.Char.{Char, code}

pub record Civil : Type 0 where
  pub year : ℕ
  pub month : ℕ
  pub day : ℕ

abbrev pub civil : ℕ → ℕ → ℕ → Civil
civil y m d = record { year = y; month = m; day = d }

-- 1 in a leap year
unfoldable pub leap : ℕ → ℕ
leap y = if nat_beq (y % 4) 0 && (not (nat_beq (y % 100) 0) || nat_beq (y % 400) 0) then 1 else 0

-- The count of the first day of a year.
unfoldable pub day_from_year : ℕ → ℕ
day_from_year y = (y - 1) * 365 + (y - 1) / 4 - (y - 1) / 100 + (y - 1) / 400

-- The days of the year before a month, from 1 to 12; all of them before month 13.
abbrev pub days_before_month : ℕ → ℕ → ℕ
days_before_month l zero = 0
days_before_month l (suc zero) = 0
days_before_month l (suc (suc zero)) = 31
days_before_month l (suc (suc (suc zero))) = 59 + l
days_before_month l (suc (suc (suc (suc zero)))) = 90 + l
days_before_month l (suc (suc (suc (suc (suc zero))))) = 120 + l
days_before_month l (suc (suc (suc (suc (suc (suc zero)))))) = 151 + l
days_before_month l (suc (suc (suc (suc (suc (suc (suc zero))))))) = 181 + l
days_before_month l (suc (suc (suc (suc (suc (suc (suc (suc zero)))))))) = 212 + l
days_before_month l (suc (suc (suc (suc (suc (suc (suc (suc (suc zero))))))))) = 243 + l
days_before_month l (suc (suc (suc (suc (suc (suc (suc (suc (suc (suc zero)))))))))) = 273 + l
days_before_month l (suc (suc (suc (suc (suc (suc (suc (suc (suc (suc (suc zero))))))))))) = 304 + l
days_before_month l (suc (suc (suc (suc (suc (suc (suc (suc (suc (suc (suc (suc zero)))))))))))) =
    334 + l
days_before_month l _ = 365 + l

unfoldable pub month_of : ℕ → ℕ → ℕ
month_of l n =
    if ltb n 31
    then 1
    else if ltb n (59 + l)
    then 2
    else if ltb n (90 + l)
    then 3
    else if ltb n (120 + l)
    then 4
    else if ltb n (151 + l)
    then 5
    else if ltb n (181 + l)
    then 6
    else if ltb n (212 + l)
    then 7
    else if ltb n (243 + l)
    then 8
    else if ltb n (273 + l)
    then 9
    else if ltb n (304 + l)
    then 10
    else if ltb n (334 + l)
    then 11
    else 12

-- The last year that starts on or before day `n`, from year `y` on.
unfoldable pub find_year : ℕ → ℕ → ℕ → ℕ
find_year zero y n = y
find_year (suc fuel) y n =
    let later = find_year fuel (y + 1) n in if ltb n (day_from_year (y + 1)) then y else later

-- A year has 365 or 366 days, which says where to look.
unfoldable pub year_of : ℕ → ℕ
year_of n = find_year (n / 365 - n / 366 + 1) (n / 366 + 1) n

-- getFullYear(), getMonth() + 1 and getDate()
unfoldable pub from_day : ℕ → Civil
from_day n =
    let y = year_of n in
    let d = n - day_from_year y in
    let m = month_of (leap y) d in civil y m (d - days_before_month (leap y) m + 1)

unfoldable pub to_day : Civil → ℕ
to_day c = day_from_year c.year + days_before_month (leap c.year) c.month + c.day - 1

-- getDay(), 0 on Sunday
abbrev pub week_day : ℕ → ℕ
week_day n = (n + 1) % 7

-- new Date(year, month, day), where `month` counts from 0, may pass 11, and `day` may be 0
unfoldable pub make_day : ℕ → ℕ → ℕ → ℕ
make_day y m d =
    let full = if ltb y 100 then 1900 + y else y in to_day (civil (full + m / 12) (m % 12 + 1) d)

-- date.setDate(date.getDate() + amount)
abbrev pub shift : ℕ → ℤ → ℕ
shift n amount = n + pos_part amount - neg_part amount

-- String(n).padStart(2, "0")
abbrev pub pad_two : ℕ → String
pad_two n = if ltb n 10 then "0" ++ₛ show n else show n

-- `${year}-${month}-${day}`, the last two padded to two digits
unfoldable pub date_text : Civil → String
date_text c = show c.year ++ₛ "-" ++ₛ pad_two c.month ++ₛ "-" ++ₛ pad_two c.day

abbrev pub text_of : ℕ → String
text_of n = date_text (from_day n)

abbrev pub two_digits : Char → Char → ℕ
two_digits a b = digit_value a * 10 + digit_value b

-- The numbers of a text of the form /^(\d{4})-(\d{2})-(\d{2})$/.
unfoldable pub match_date : String → Option Civil
match_date
      (String.◌∷◌ a (
        String.◌∷◌ b (
          String.◌∷◌ c (
            String.◌∷◌ d (
              String.◌∷◌ s (
                String.◌∷◌ e
                  (String.◌∷◌ f (String.◌∷◌ t (String.◌∷◌ g (String.◌∷◌ h String.[])))))))))) =
    if is_digit a
      && is_digit b
      && is_digit c
      && is_digit d
      && nat_beq (code s) 45
      && is_digit e
      && is_digit f
      && nat_beq (code t) 45
      && is_digit g
      && is_digit h
    then some (civil (two_digits a b * 100 + two_digits c d) (two_digits e f) (two_digits g h))
    else none
match_date _ = none

abbrev pub days_in_month : ℕ → ℕ → ℕ
days_in_month y m = days_before_month (leap y) (suc m) - days_before_month (leap y) m

abbrev pub is_valid : Civil → Bool
is_valid c =
    leb 1 c.year
    && leb 1 c.month
    && leb c.month 12
    && leb 1 c.day
    && leb c.day (days_in_month c.year c.month)

-- new Date(`${value}T00:00:00`), none for an invalid date
unfoldable pub parse_date : String → Option ℕ
parse_date value = elim (match_date value) [
  | none ↦ none
  | some c ↦ if is_valid c then some (to_day c) else none
]
