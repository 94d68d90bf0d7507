-- ===== src/Prelude/Texts.antt =====
-- What the services use of Python's texts: lower case, `in`, `rsplit` and the formatting of numbers.
use Prim.Native.Nat.{ℕ, zero, suc, ◌-◌, ◌/◌, ◌%◌}
use Prim.Native.Char.{Char, code}
use Prim.Native.String
use Prim.Native.String.{String}
use text.Mathlib.Text.{find?}
use mathlib.Core.Bool.{Bool, ◌&&◌}
use mathlib.Core.Option.{Option, none, some}
use blyns_ops.Prelude.Tests.{leb, ltb, ◌==◌, is_some, or_else, if◌then◌else◌}

-- `a + b`
infixr 60 ◌+++◌
abbrev pub ◌+++◌ : String → String → String
a +++ b = String.◌++◌ a b

-- `text.lower()`, on the letters of ASCII
abbrev lower_char : Char → Char
lower_char c =
    if leb 65 (code c) && leb (code c) 90
    then String.char_at "abcdefghijklmnopqrstuvwxyz" (code c - 65)
    else c

unfoldable pub lower : String → String
lower String.[] = String.[]
lower (String.◌∷◌ c text) = String.◌∷◌ (lower_char c) (lower text)

-- `part in text`
unfoldable pub is_in : String → String → Bool
is_in part text = is_some (find? text part)

-- `text.rsplit("-", 1)[-1] if "-" in text else text`
abbrev dash_tail : String → Option String
dash_tail String.[] = none
dash_tail (String.◌∷◌ c text) = elim (dash_tail text) [
  | some rest ↦ some rest
  | none ↦ if code c == 45 then some text else none
]

unfoldable pub after_last_dash : String → String
after_last_dash text = or_else (dash_tail text) text

-- `str(n)`, with a step of fuel for each digit
abbrev digit : ℕ → String
digit n = String.◌∷◌ (String.char_at "0123456789" (n % 10)) String.[]

abbrev digits : ℕ → ℕ → String
digits zero n = ""
digits (suc fuel) n =
    let rest = digits fuel (n / 10) in if ltb n 10 then digit n else rest +++ digit n

unfoldable pub decimal : ℕ → String
decimal n = digits (suc n) n

-- `f"{n:02d}"`
unfoldable pub two_digits : ℕ → String
unfolding decimal
two_digits n = if ltb n 10 then "0" +++ decimal n else decimal n
