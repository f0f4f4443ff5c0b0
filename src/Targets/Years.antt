-- ===== src/Targets/Years.antt =====
-- The year of a date's text, as `parseInt` reads it.
use Prim.Native.Char.{code}
use text.Mathlib.TextLemmas.{cons-append, nil-append}
use greenlink.Prelude.{
  ℕ, ◌+◌, ◌*◌, ◌/◌, ◌%◌, ◌<◌, ◌≡◌, refl, ap, arith, false, some, String, nat_beq,
}
use greenlink.Prelude.Int.{pos}
use greenlink.Prelude.Text.{◌++ₛ◌, digit, take_chars, is_space}
use greenlink.Calendar.{Civil, date_text}
use greenlink.Calendar.Texts.{
  IsFourDigit, digit_char, below_ten, digit_lem, is_digit_lem, digit_value_lem, show_four,
}
use greenlink.Prelude.ParseInt.{digits_from, unsigned, signed, parse_int}
use greenlink.Targets.{extract_year_from_date_string}

no_space : (n : ℕ) → n < 10 → is_space (digit_char n) ≡ false
no_space =
    below_ten (λ n. is_space (digit_char n) ≡ false)
      (refl, refl, refl, refl, refl, refl, refl, refl, refl, refl)

no_minus : (n : ℕ) → n < 10 → nat_beq (code (digit_char n)) 45 ≡ false
no_minus =
    below_ten (λ n. nat_beq (code (digit_char n)) 45 ≡ false)
      (refl, refl, refl, refl, refl, refl, refl, refl, refl, refl)

no_plus : (n : ℕ) → n < 10 → nat_beq (code (digit_char n)) 43 ≡ false
no_plus =
    below_ten (λ n. nat_beq (code (digit_char n)) 43 ≡ false)
      (refl, refl, refl, refl, refl, refl, refl, refl, refl, refl)

parse_digits :
    (a b c d : ℕ) (rest : String)
    → (a < 10) × (b < 10) × (c < 10) × (d < 10)
    → parse_int (take_chars 4 ((((digit a ++ₛ digit b) ++ₛ digit c) ++ₛ digit d) ++ₛ rest))
      ≡ some (pos (((a * 10 + b) * 10 + c) * 10 + d))
unfolding parse_int signed unsigned digits_from
parse_digits a b c d rest (ha, hb, hc, hd) =
    simp (cons-append, nil-append, digit_lem a ha, digit_lem b hb, digit_lem c hc, digit_lem d hd)
      (rw
        (
          no_space a ha,
          no_minus a ha,
          no_plus a ha,
          is_digit_lem a ha,
          is_digit_lem b hb,
          is_digit_lem c hc,
          is_digit_lem d hd,
          digit_value_lem a ha,
          digit_value_lem b hb,
          digit_value_lem c hc,
          digit_value_lem d hd,
        )
        refl)

-- The year of the text of a date is that of the date.
pub extract_year_lem :
    (now : ℕ) (c : Civil)
    → IsFourDigit c.year
    → extract_year_from_date_string now (date_text c) ≡ pos c.year
unfolding extract_year_from_date_string date_text
extract_year_lem now c (lo, hi) =
    let y = c.year in
    let all : ((y / 10 / 10 / 10 * 10 + y / 10 / 10 % 10) * 10 + y / 10 % 10) * 10 + y % 10 ≡ y =
      omega arith in
    rw
      (
        extract_year_from_date_string,
        show_four y lo hi,
        parse_digits (y / 10 / 10 / 10) (y / 10 / 10 % 10) (y / 10 % 10) (y % 10) _
            (omega arith, omega arith, omega arith, omega arith),
      )
      (ap pos all)
