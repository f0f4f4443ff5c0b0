-- ===== src/Prelude/Text.antt =====
-- The string operations that the program uses. A text is its code points: `slice(0, n)` counts
-- UTF-16 units, which are the same below U+10000.
use Prim.Native.String
use Prim.Native.String.{String}
use Prim.Native.Char.{Char, code}
use Prim.Native.Nat.{ℕ, zero, suc, ◌/◌, ◌%◌}
use mathlib.Core.Bool.{Bool, true, false, ◌&&◌, ◌||◌}
use mathlib.Core.Option.{Option, none, some}
use greenlink.Prelude.Tests.{ltb, leb, nat_beq, if◌then◌else◌}

infixr 65 ◌++ₛ◌
-- `${a}${b}`
abbrev pub ◌++ₛ◌ : String → String → String
a ++ₛ b = String.◌++◌ a b

-- s.slice(0, n)
abbrev pub take_chars : ℕ → String → String
take_chars zero s = ""
take_chars (suc n) String.[] = ""
take_chars (suc n) (String.◌∷◌ c s) = String.◌∷◌ c (take_chars n s)

-- s.startsWith(prefix)
abbrev pub starts_with : String → String → Bool
starts_with String.[] s = true
starts_with (String.◌∷◌ c p) String.[] = false
starts_with (String.◌∷◌ c p) (String.◌∷◌ d s) = nat_beq (code c) (code d) && starts_with p s

-- Boolean(s) of a string
abbrev pub truthy : String → Bool
truthy String.[] = false
truthy (String.◌∷◌ c s) = true

-- Boolean(s) of a string that may be null
abbrev pub is_set : Option String → Bool
is_set none = false
is_set (some s) = truthy s

-- The white space that `trim` removes.
abbrev pub is_space : Char → Bool
is_space c =
    leb 9 (code c) && leb (code c) 13
    || nat_beq (code c) 32
    || nat_beq (code c) 160
    || nat_beq (code c) 5760
    || leb 8192 (code c) && leb (code c) 8202
    || nat_beq (code c) 8232
    || nat_beq (code c) 8233
    || nat_beq (code c) 8239
    || nat_beq (code c) 8287
    || nat_beq (code c) 12288
    || nat_beq (code c) 65279

-- s.trim() === ""
abbrev pub is_blank : String → Bool
is_blank String.[] = true
is_blank (String.◌∷◌ c s) = is_space c && is_blank s

abbrev pub digit : ℕ → String
digit zero = "0"
digit (suc zero) = "1"
digit (suc (suc zero)) = "2"
digit (suc (suc (suc zero))) = "3"
digit (suc (suc (suc (suc zero)))) = "4"
digit (suc (suc (suc (suc (suc zero))))) = "5"
digit (suc (suc (suc (suc (suc (suc zero)))))) = "6"
digit (suc (suc (suc (suc (suc (suc (suc zero))))))) = "7"
digit (suc (suc (suc (suc (suc (suc (suc (suc zero)))))))) = "8"
digit _ = "9"

unfoldable pub show_from : ℕ → ℕ → String
show_from zero n = digit n
show_from (suc fuel) n =
    let shorter = show_from fuel (n / 10) in
    if ltb n 10 then digit n else shorter ++ₛ digit (n % 10)

-- The decimal digits of a number. A number has at most as many digits as its value and one.
unfoldable pub show : ℕ → String
unfolding show_from
show n = show_from n n

-- s.trimStart()
abbrev pub trim_start : String → String
trim_start String.[] = ""
trim_start (String.◌∷◌ c s) = let rest = trim_start s in if is_space c then rest else String.◌∷◌ c s

-- s.trimEnd()
abbrev pub trim_end : String → String
trim_end String.[] = ""
trim_end (String.◌∷◌ c s) =
    let rest = trim_end s in if is_space c && is_blank s then "" else String.◌∷◌ c rest

abbrev pub trim : String → String
trim s = trim_end (trim_start s)
