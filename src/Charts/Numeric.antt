-- ===== src/Charts/Numeric.antt =====
-- The texts that `Number` reads: the StringNumericLiteral of JavaScript, of which isNumericLike in
-- chartFieldValidation.ts asks only whether it is not NaN.
use glanceus.Prelude.{ℕ, Bool, true, false, ◌&&◌, ◌||◌, List, [], ◌∷◌, leb, ◌==◌, if◌then◌else◌}
use glanceus.Prelude.Text.{codes, is_digit}

abbrev pub same_text : List ℕ → List ℕ → Bool
same_text [] [] = true
same_text (c ∷ cs) (d ∷ ds) = (c == d) && same_text cs ds
same_text _ _ = false

abbrev pub every : (ℕ → Bool) → List ℕ → Bool
every p [] = true
every p (c ∷ cs) = p c && every p cs

abbrev pub some_of : (ℕ → Bool) → List ℕ → Bool
some_of p [] = false
some_of p (c ∷ cs) = p c && every p cs

abbrev skip_digits : List ℕ → List ℕ
skip_digits [] = []
skip_digits (c ∷ cs) = let rest = skip_digits cs in if is_digit c then rest else c ∷ cs

abbrev skip_sign : List ℕ → List ℕ
skip_sign [] = []
skip_sign (c ∷ cs) = if (c == b'+') || (c == b'-') then cs else c ∷ cs

abbrev starts_digit : List ℕ → Bool
starts_digit [] = false
starts_digit (c ∷ cs) = is_digit c

-- The end of a decimal literal: an exponent or nothing.
abbrev is_exponent : List ℕ → Bool
is_exponent [] = true
is_exponent (c ∷ cs) = ((c == b'e') || (c == b'E')) && some_of is_digit (skip_sign cs)

abbrev is_after_digits : List ℕ → Bool
is_after_digits [] = true
is_after_digits (c ∷ cs) = if c == b'.' then is_exponent (skip_digits cs) else is_exponent (c ∷ cs)

abbrev is_point_first : List ℕ → Bool
is_point_first [] = false
is_point_first (c ∷ cs) = (c == b'.') && (starts_digit cs && is_exponent (skip_digits cs))

abbrev is_unsigned : List ℕ → Bool
is_unsigned cs =
    same_text cs (codes "Infinity")
    || (if starts_digit cs then is_after_digits (skip_digits cs) else is_point_first cs)

abbrev is_hex_digit : ℕ → Bool
is_hex_digit c = is_digit c || ((leb b'a' c && leb c b'f') || (leb b'A' c && leb c b'F'))

-- A literal with a prefix: hexadecimal, octal or binary.
abbrev is_prefixed : List ℕ → Bool
is_prefixed (z ∷ p ∷ cs) =
    (z == b'0')
    && ((((p == b'x') || (p == b'X')) && some_of is_hex_digit cs)
        || ((((p == b'o') || (p == b'O')) && some_of (λ c. leb b'0' c && leb c b'7') cs)
            || (((p == b'b') || (p == b'B')) && some_of (λ c. (c == b'0') || (c == b'1')) cs)))
is_prefixed _ = false

-- `!Number.isNaN(Number(text))`, for a trimmed text that is not empty.
unfoldable pub is_numeric_text : List ℕ → Bool
is_numeric_text cs = is_prefixed cs || is_unsigned (skip_sign cs)
