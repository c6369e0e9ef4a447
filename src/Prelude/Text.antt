-- ===== src/Prelude/Text.antt =====
-- Texts as lists of UTF-16 units: the white space of JavaScript, trim, and parseInt.
use glanceus.Prelude.{
  ℕ, ◌+◌, ◌-◌, ◌*◌, String, Bool, ◌&&◌, ◌||◌, Option, none, some, List, [], ◌∷◌, leb, ◌==◌,
  if◌then◌else◌,
}
use mathlib.Core.List.{reverse}
use mathlib.Core.Option
use Prim.Native.Char.{code}
use glanceus.Prelude.Int.{ℤ, pos, sub_ℕ}

-- The units of a text without characters beyond U+FFFF.
abbrev pub codes : String → List ℕ
codes String.[] = []
codes (String.◌∷◌ c s) = code c ∷ codes s

-- WhiteSpace and LineTerminator, which is `\s`.
unfoldable pub is_space : ℕ → Bool
is_space c =
    (leb 9 c && leb c 13)
    || (c == 32)
    || (c == 160)
    || (c == 0x1680)
    || (leb 0x2000 c && leb c 0x200a)
    || (c == 0x2028)
    || (c == 0x2029)
    || (c == 0x202f)
    || (c == 0x205f)
    || (c == 0x3000)
    || (c == 0xfeff)

abbrev pub trim_start : List ℕ → List ℕ
trim_start [] = []
trim_start (c ∷ cs) = let rest = trim_start cs in if is_space c then rest else c ∷ cs

-- String.prototype.trim.
abbrev pub trim : List ℕ → List ℕ
trim cs = reverse (trim_start (reverse (trim_start cs)))

abbrev pub is_digit : ℕ → Bool
is_digit c = leb b'0' c && leb c b'9'

-- The digits at the front of a text, after a first one.
abbrev pub digits_from : ℕ → List ℕ → ℕ
digits_from value [] = value
digits_from value (c ∷ cs) =
    let rest = digits_from (value * 10 + (c - b'0')) cs in if is_digit c then rest else value

abbrev pub leading_digits : List ℕ → Option ℕ
leading_digits [] = none
leading_digits (c ∷ cs) = if is_digit c then some (digits_from (c - b'0') cs) else none

abbrev parse_signed : List ℕ → Option ℤ
parse_signed [] = none
parse_signed (c ∷ cs) =
    if c == b'-'
    then Option.map (sub_ℕ 0) (leading_digits cs)
    else Option.map pos (leading_digits (if c == b'+' then cs else c ∷ cs))

-- parseInt(text, 10), for values that a double holds exactly; `none` is NaN.
unfoldable pub parse_int : List ℕ → Option ℤ
unfolding is_space
parse_int cs = parse_signed (trim_start cs)
