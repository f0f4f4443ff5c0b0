-- ===== src/Calendar/Days.antt =====
-- Counts of days and the dates that they stand for.
use greenlink.Prelude.{
  ℕ, zero, suc, ◌+◌, ◌-◌, ◌*◌, ◌/◌, ◌≤◌, ◌<◌, ◌≡◌, refl, sym, subst, ◌∙◌, arith,
}
use greenlink.Calendar.{
  Civil, civil, leap, day_from_year, days_before_month, days_in_month, month_of, find_year, year_of,
  from_day, to_day,
}

pub leap-le : (y : ℕ) → leap y ≤ 1
unfolding leap
leap-le y = ground arith

-- A year is as long as the leap rule says.
pub day_from_year-suc : (y : ℕ) → 1 ≤ y → day_from_year (y + 1) ≡ day_from_year y + 365 + leap y
unfolding day_from_year leap
day_from_year-suc y h = ground arith

pub day_from_year_mono : (a b : ℕ) → 1 ≤ a → a ≤ b → day_from_year a ≤ day_from_year b
unfolding day_from_year
day_from_year_mono a b h le = omega arith

pub day_from_year-low : (y : ℕ) → 365 * (y - 1) ≤ day_from_year y
unfolding day_from_year
day_from_year-low y = omega arith

day_from_year-high : (n : ℕ) → day_from_year (n / 366 + 1) ≤ n
unfolding day_from_year
day_from_year-high n = omega arith

find_year_lem :
    (fuel y n last : ℕ)
    → last ≡ y + fuel + 1
    → 1 ≤ y
    → day_from_year y ≤ n
    → n < day_from_year last
    → (1 ≤ find_year fuel y n)
      × (day_from_year (find_year fuel y n) ≤ n)
      × (n < day_from_year (find_year fuel y n + 1))
unfolding find_year
find_year_lem zero y n last e h lo hi = let e1 : last ≡ y + 1 = omega arith in (h, lo, rw e1 at hi)
find_year_lem (suc fuel) y n last e h lo hi = ground (arith, find_year_lem fuel (y + 1) n last)

-- `year_of` finds the year that a day lies in: the years that it tries are enough.
pub year_of_lem :
    (n : ℕ)
    → (1 ≤ year_of n) × (day_from_year (year_of n) ≤ n) × (n < day_from_year (year_of n + 1))
unfolding year_of
year_of_lem n =
    find_year_lem (n / 365 - n / 366 + 1) (n / 366 + 1) n
      (n / 366 + 1 + (n / 365 - n / 366 + 1) + 1) refl (omega arith) (day_from_year-high n)
      (omega (arith, day_from_year-low (n / 366 + 1 + (n / 365 - n / 366 + 1) + 1)))

year_unique :
    (a b n : ℕ)
    → 1 ≤ a
    → 1 ≤ b
    → day_from_year a ≤ n
    → n < day_from_year (a + 1)
    → day_from_year b ≤ n
    → n < day_from_year (b + 1)
    → a ≤ b
year_unique a b n ha hb la ua lb ub = grind (arith, day_from_year_mono (b + 1) a)

abbrev pub IsMonth : ℕ → ℕ → ℕ → Type 0
IsMonth l m n = (1 ≤ m) × (m ≤ 12) × (days_before_month l m ≤ n) × (n < days_before_month l (suc m))

pub month_of-IsMonth : (l n : ℕ) → l ≤ 1 → n < 365 + l → IsMonth l (month_of l n) n
unfolding month_of
month_of-IsMonth l n hl hn = ground arith

-- What `from_day` finds: the date of day `n`.
pub record IsDate (n : ℕ) (c : Civil) : Type 0 where
  pub year_in : 1 ≤ c.year
  pub month_in : (1 ≤ c.month) × (c.month ≤ 12)
  pub day_in : (1 ≤ c.day) × (c.day ≤ days_in_month c.year c.month)
  pub is_day : to_day c ≡ n

-- A date of the calendar, in words of the program's own test.
abbrev pub IsValid : Civil → Type 0
IsValid c = IsDate (to_day c) c

days_before_month-suc : (l m : ℕ) → m ≤ 12 → days_before_month l m ≤ days_before_month l (suc m)
days_before_month-suc l m h = ground arith

-- The date that the getters give for a day is a date of the calendar, and its count is that day.
pub from_day-IsDate : (n : ℕ) → IsDate n (from_day n)
unfolding from_day to_day
from_day-IsDate n =
    let (pos_year, lo, hi) = year_of_lem n in
    let y = year_of n in
    let m =
      month_of-IsMonth (leap y) (n - day_from_year y) (leap-le y)
        (omega (arith, day_from_year-suc y pos_year, lo, hi)) in
    record {
      year_in = pos_year;
      month_in = (m.0, m.1);
      day_in = omega (arith, m);
      is_day = omega (arith, m, lo);
    }

pub days_before_month_mono : (l a b : ℕ) → a ≤ b → days_before_month l a ≤ days_before_month l b
days_before_month_mono l a b h = ground arith

-- What a date says of its day: the year's days and the month's days that enclose it.
pub date_bounds :
    (n : ℕ) (c : Civil)
    → IsDate n c
    → (day_from_year c.year ≤ n)
      × (n < day_from_year (c.year + 1))
      × (days_before_month (leap c.year) c.month ≤ n - day_from_year c.year)
      × (n - day_from_year c.year < days_before_month (leap c.year) (suc c.month))
      × (c.day ≡ n - day_from_year c.year - days_before_month (leap c.year) c.month + 1)
unfolding to_day
date_bounds n c v = omega (
  arith,
  v.year_in,
  v.month_in,
  v.day_in,
  v.is_day,
  day_from_year-suc c.year v.year_in,
  days_before_month_mono (leap c.year) (suc c.month) 13 (omega (arith, v.month_in)),
)

civil-eq : (a b : Civil) → a.year ≡ b.year → a.month ≡ b.month → a.day ≡ b.day → a ≡ b
civil-eq a b y m d = λ i. civil (y i) (m i) (d i)

month_unique :
    (l n a b : ℕ)
    → days_before_month l a ≤ n
    → n < days_before_month l (suc a)
    → days_before_month l b ≤ n
    → n < days_before_month l (suc b)
    → a ≡ b
month_unique l n a b la ua lb ub =
    grind (arith, days_before_month_mono l (suc a) b, days_before_month_mono l (suc b) a)

-- A day has one date.
pub IsDate-unique : (n : ℕ) (a b : Civil) → IsDate n a → IsDate n b → a ≡ b
IsDate-unique n a b va vb =
    let (la, ua, ma, na, da) = date_bounds n a va in
    let (lb, ub, mb, nb, db) = date_bounds n b vb in
    let year : a.year ≡ b.year = omega (
      arith,
      year_unique a.year b.year n va.year_in vb.year_in la ua lb ub,
      year_unique b.year a.year n vb.year_in va.year_in lb ub la ua,
    ) in
    let month : a.month ≡ b.month =
      month_unique (leap b.year) (n - day_from_year b.year) _ _ (rw year at ma)
        (subst (λ y. n - day_from_year y < days_before_month (leap y) (suc a.month)) year na) mb
        nb in
    civil-eq a b year month (da ∙ rw (year, month) (sym db))

-- The date of the count of a date of the calendar is that date.
pub from_day-to_day : (c : Civil) → IsValid c → from_day (to_day c) ≡ c
from_day-to_day c v =
    IsDate-unique (to_day c) (from_day (to_day c)) c (from_day-IsDate (to_day c)) v
