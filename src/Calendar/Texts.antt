-- ===== src/Calendar/Texts.antt =====
-- Dates and their texts.
use text.Mathlib.TextLemmas.{cons-append, nil-append}
use Prim.Native.Char.{Char}
use greenlink.Prelude.{
  ℕ, zero, suc, ◌+◌, ◌-◌, ◌*◌, ◌/◌, ◌%◌, ◌≤◌, ◌<◌, ◌≡◌, refl, ap, ◌∙◌, arith, true, some, String,
}
use greenlink.Prelude.Text.{◌++ₛ◌, show, show_from, digit}
use greenlink.Prelude.ParseInt.{is_digit, digit_value}
use greenlink.Calendar.{
  Civil, civil, pad_two, date_text, match_date, parse_date, is_valid, days_before_month, leap,
}
use greenlink.Calendar.Days.{IsDate, leap-le}

abbrev pub digit_char : ℕ → Char
digit_char zero = "0"
digit_char (suc zero) = "1"
digit_char (suc (suc zero)) = "2"
digit_char (suc (suc (suc zero))) = "3"
digit_char (suc (suc (suc (suc zero)))) = "4"
digit_char (suc (suc (suc (suc (suc zero))))) = "5"
digit_char (suc (suc (suc (suc (suc (suc zero)))))) = "6"
digit_char (suc (suc (suc (suc (suc (suc (suc zero))))))) = "7"
digit_char (suc (suc (suc (suc (suc (suc (suc (suc zero)))))))) = "8"
digit_char _ = "9"

-- A statement on the ten digits.
pub below_ten :
    (P : ℕ → Type 0)
    → P 0 × P 1 × P 2 × P 3 × P 4 × P 5 × P 6 × P 7 × P 8 × P 9
    → (n : ℕ) → n < 10
    → P n
below_ten P all zero h = all.0
below_ten P all (suc zero) h = all.1
below_ten P all (suc (suc zero)) h = all.2
below_ten P all (suc (suc (suc zero))) h = all.3
below_ten P all (suc (suc (suc (suc zero)))) h = all.4
below_ten P all (suc (suc (suc (suc (suc zero))))) h = all.5
below_ten P all (suc (suc (suc (suc (suc (suc zero)))))) h = all.6
below_ten P all (suc (suc (suc (suc (suc (suc (suc zero))))))) h = all.7
below_ten P all (suc (suc (suc (suc (suc (suc (suc (suc zero)))))))) h = all.8
below_ten P all (suc (suc (suc (suc (suc (suc (suc (suc (suc zero))))))))) h = all.9
below_ten P all (suc (suc (suc (suc (suc (suc (suc (suc (suc (suc n)))))))))) h =
    absurd (omega arith)

pub digit_lem : (n : ℕ) → n < 10 → digit n ≡ String.◌∷◌ (digit_char n) ""
digit_lem =
    below_ten (λ n. digit n ≡ String.◌∷◌ (digit_char n) "")
      (refl, refl, refl, refl, refl, refl, refl, refl, refl, refl)

show_one : (n : ℕ) → n < 10 → show n ≡ digit n
unfolding show show_from
show_one zero h = refl
show_one (suc n) h = ground arith

show_two : (n : ℕ) → 10 ≤ n → n < 100 → show n ≡ digit (n / 10) ++ₛ digit (n % 10)
unfolding show show_from
show_two zero h k = ground arith
show_two (suc zero) h k = ground arith
show_two (suc (suc n)) h k = ground arith

pub show_four :
    (n : ℕ)
    → 1000 ≤ n
    → n ≤ 9999
    → show n
      ≡ ((digit (n / 10 / 10 / 10) ++ₛ digit (n / 10 / 10 % 10)) ++ₛ digit (n / 10 % 10))
        ++ₛ digit (n % 10)
unfolding show show_from
show_four zero h k = absurd (omega arith)
show_four (suc zero) h k = absurd (omega arith)
show_four (suc (suc zero)) h k = absurd (omega arith)
show_four (suc (suc (suc zero))) h k = absurd (omega arith)
show_four (suc (suc (suc (suc n)))) h k = ground arith

pad_two_lem : (n : ℕ) → n < 100 → pad_two n ≡ digit (n / 10) ++ₛ digit (n % 10)
pad_two_lem n h = ground (arith, show_one n, show_two n)

pub is_digit_lem : (n : ℕ) → n < 10 → is_digit (digit_char n) ≡ true
is_digit_lem =
    below_ten (λ n. is_digit (digit_char n) ≡ true)
      (refl, refl, refl, refl, refl, refl, refl, refl, refl, refl)

pub digit_value_lem : (n : ℕ) → n < 10 → digit_value (digit_char n) ≡ n
digit_value_lem =
    below_ten (λ n. digit_value (digit_char n) ≡ n)
      (refl, refl, refl, refl, refl, refl, refl, refl, refl, refl)

dash-append : (s : String) → "-" ++ₛ s ≡ String.◌∷◌ "-" s
dash-append s = cons-append "-" "" s ∙ ap (λ t. String.◌∷◌ "-" t) (nil-append s)

match_digits :
    (a b c d e f g h : ℕ)
    → (a < 10) × (b < 10) × (c < 10) × (d < 10) × (e < 10) × (f < 10) × (g < 10) × (h < 10)
    → match_date (
        (((digit a ++ₛ digit b) ++ₛ digit c) ++ₛ digit d)
        ++ₛ "-"
        ++ₛ (digit e ++ₛ digit f)
        ++ₛ "-"
        ++ₛ (digit g ++ₛ digit h))
      ≡ some (civil ((a * 10 + b) * 100 + (c * 10 + d)) (e * 10 + f) (g * 10 + h))
unfolding match_date
match_digits a b c d e f g h (ha, hb, hc, hd, he, hf, hg, hh) =
    simp
      (
        cons-append,
        nil-append,
        dash-append,
        digit_lem a ha,
        digit_lem b hb,
        digit_lem c hc,
        digit_lem d hd,
        digit_lem e he,
        digit_lem f hf,
        digit_lem g hg,
        digit_lem h hh,
      )
      (rw
        (
          is_digit_lem a ha,
          is_digit_lem b hb,
          is_digit_lem c hc,
          is_digit_lem d hd,
          is_digit_lem e he,
          is_digit_lem f hf,
          is_digit_lem g hg,
          is_digit_lem h hh,
          digit_value_lem a ha,
          digit_value_lem b hb,
          digit_value_lem c hc,
          digit_value_lem d hd,
          digit_value_lem e he,
          digit_value_lem f hf,
          digit_value_lem g hg,
          digit_value_lem h hh,
        )
        refl)

-- The form of a date's text is read back.
pub match_date-date_text :
    (y m d : ℕ)
    → 1000 ≤ y
    → y ≤ 9999
    → m < 100
    → d < 100
    → match_date (date_text (civil y m d)) ≡ some (civil y m d)
unfolding date_text
match_date-date_text y m d lo hi hm hd =
    let tens : (y / 10 / 10 / 10 * 10 + y / 10 / 10 % 10) * 100 + (y / 10 % 10 * 10 + y % 10) ≡ y =
      omega arith in
    let month : m / 10 * 10 + m % 10 ≡ m = omega arith in
    let day : d / 10 * 10 + d % 10 ≡ d = omega arith in
    rw (show_four y lo hi, pad_two_lem m hm, pad_two_lem d hd)
      (match_digits (y / 10 / 10 / 10) (y / 10 / 10 % 10) (y / 10 % 10) (y % 10) (m / 10) (m % 10)
          (d / 10) (d % 10)
          (
            omega arith,
            omega arith,
            omega arith,
            omega arith,
            omega arith,
            omega arith,
            omega arith,
            omega arith,
          )
        ∙ λ i. some (civil (tens i) (month i) (day i)))

-- A year that four digits write.
abbrev pub IsFourDigit : ℕ → Type 0
IsFourDigit y = (1000 ≤ y) × (y ≤ 9999)

pub day-le : (l m d : ℕ) → l ≤ 1 → d ≤ days_before_month l (suc m) - days_before_month l m → d < 100
day-le l m d hl h = ground arith

is_valid-true : (n : ℕ) (c : Civil) → IsDate n c → is_valid c ≡ true
is_valid-true n c v = ground (arith, v.year_in, v.month_in, v.day_in)

-- The text of a date is read back as that day.
pub parse_date-date_text :
    (n : ℕ) (c : Civil) → IsDate n c → IsFourDigit c.year → parse_date (date_text c) ≡ some n
unfolding parse_date
parse_date-date_text n c v (lo, hi) =
    let read =
      match_date-date_text c.year c.month c.day lo hi (omega (arith, v.month_in))
        (day-le (leap c.year) c.month c.day (leap-le c.year) v.day_in.1) in
    rw (parse_date, read, is_valid-true n c v) (ap some v.is_day)
