-- ===== src/Prelude/ParseInt.antt =====
-- Number.parseInt of a text in base ten.
use Prim.Native.String.{String}
use Prim.Native.Char.{Char, code}
use Prim.Native.Nat.{ℕ, ◌+◌, ◌-◌, ◌*◌}
use mathlib.Core.Bool.{Bool, ◌&&◌}
use mathlib.Core.Option.{Option, none, some}
use greenlink.Prelude.Int.{ℤ, pos, sub_ℕ}
use greenlink.Prelude.Tests.{leb, nat_beq, if◌then◌else◌}
use greenlink.Prelude.Text.{is_space}

abbrev pub is_digit : Char → Bool
is_digit c = leb 48 (code c) && leb (code c) 57

abbrev pub digit_value : Char → ℕ
digit_value c = code c - 48

unfoldable pub digits_from : ℕ → String → ℕ
digits_from n String.[] = n
digits_from n (String.◌∷◌ c s) =
    let rest = digits_from (n * 10 + digit_value c) s in if is_digit c then rest else n

unfoldable pub unsigned : String → Option ℕ
unfolding digits_from
unsigned String.[] = none
unsigned (String.◌∷◌ c s) = if is_digit c then some (digits_from (digit_value c) s) else none

-- A sign, and the digits after it.
unfoldable pub signed : String → Option ℤ
unfolding unsigned
signed String.[] = none
signed (String.◌∷◌ c s) =
    if nat_beq (code c) 45
    then elim (unsigned s) [ none ↦ none | some n ↦ some (sub_ℕ 0 n) ]
    else if nat_beq (code c) 43
    then elim (unsigned s) [ none ↦ none | some n ↦ some (pos n) ]
    else elim (unsigned (String.◌∷◌ c s)) [ none ↦ none | some n ↦ some (pos n) ]

-- Number.parseInt(s, 10), none for NaN
unfoldable pub parse_int : String → Option ℤ
unfolding signed
parse_int String.[] = none
parse_int (String.◌∷◌ c s) =
    let rest = parse_int s in if is_space c then rest else signed (String.◌∷◌ c s)
