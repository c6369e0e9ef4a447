-- ===== src/Template/Helpers.antt =====
-- templateExpression.ts, TEMPLATE_HELPERS: the functions that an expression can call.
pub mod Clamp
use glanceus.Prelude.{
  ℕ, zero, suc, ◌+◌, ◌-◌, ◌*◌, ◌/◌, ◌^◌, ◌==◌, ltb, String, Bool, true, false, not, ◌&&◌, ◌||◌,
  Option, none, some, List, [], ◌∷◌, map, if◌then◌else◌, includes, min, max,
}
use glanceus.Prelude.Int.{
  ℤ, pos, negsuc, pos_part, neg_part, ltb_ℤ, Num, nan, infinite, finite, units, whole,
}
use glanceus.Prelude.Value.{Value, undefined, null, boolean, number, string, array, object}

-- What the expressions take from the engine as it is: Number, String and the two changes of case,
-- toFixed, the length of a string or an array, the products and quotients of doubles, the binary
-- operators but `===` and the logical ones, and the functions that a plain object inherits, which
-- may throw (`none`). Number and String do not throw: they are given data of JSON.
pub record Engine : Type 0 where
  pub to_number : Value → Num
  pub to_text : Value → String
  pub to_lower_case : String → String
  pub to_upper_case : String → String
  pub to_fixed : Num → ℕ → String
  pub length_of : Value → ℕ
  pub times : Num → Num → Num
  pub over : Num → Num → Num
  pub operate : String → Value → Value → Value
  pub call_inherited : String → List Value → Option Value

abbrev pub is_finite : Num → Bool
is_finite (finite z) = true
is_finite _ = false

-- Math.floor: a quotient of units, rounded down.
abbrev pub floor_ℤ : ℤ → ℤ
floor_ℤ (pos n) = pos (n / units * units)
floor_ℤ (negsuc n) = negsuc ((n / units + 1) * units - 1)

abbrev pub negate_ℤ : ℤ → ℤ
negate_ℤ (pos zero) = pos zero
negate_ℤ (pos (suc n)) = negsuc n
negate_ℤ (negsuc n) = pos (suc n)

abbrev pub floor : Num → Num
floor (finite z) = finite (floor_ℤ z)
floor n = n

abbrev pub negate : Num → Num
negate nan = nan
negate (infinite true) = infinite false
negate (infinite false) = infinite true
negate (finite z) = finite (negate_ℤ z)

abbrev pub ceil : Num → Num
ceil n = negate (floor (negate n))

abbrev pub abs : Num → Num
abs nan = nan
abs (infinite negative) = infinite false
abs (finite z) = finite (pos (max (pos_part z) (neg_part z)))

-- a < b, for numbers that are not NaN.
abbrev pub lt_Num : Num → Num → Bool
lt_Num (infinite true) (infinite true) = false
lt_Num (infinite true) _ = true
lt_Num _ (infinite true) = false
lt_Num (infinite false) _ = false
lt_Num _ (infinite false) = true
lt_Num (finite a) (finite b) = ltb_ℤ a b
lt_Num _ _ = false

-- Math.min and Math.max of two numbers, and of a list.
abbrev pub min_of : Num → Num → Num
min_of nan b = nan
min_of a nan = nan
min_of a b = if lt_Num b a then b else a

abbrev pub max_of : Num → Num → Num
max_of nan b = nan
max_of a nan = nan
max_of a b = if lt_Num a b then b else a

abbrev pub min_all : List Num → Num
min_all [] = infinite false
min_all (n ∷ ns) = min_of n (min_all ns)

abbrev pub max_all : List Num → Num
max_all [] = infinite true
max_all (n ∷ ns) = max_of n (max_all ns)

-- The number of digits, from 0 to 8, of the clamped argument.
abbrev pub digits_of : Num → ℕ
digits_of nan = 0
digits_of (infinite true) = 0
digits_of (infinite false) = 8
digits_of (finite z) = min 8 (pos_part z / units)

-- Math.round: the floor of the number and a half.
abbrev pub half_up : Num → Num
half_up (finite (pos n)) = floor (finite (pos (n + units / 2)))
half_up (finite (negsuc n)) = negate (ceil (finite (pos (suc n - units / 2))))
half_up n = n

-- An argument that is not given is undefined, or its default.
abbrev pub nth_argument : ℕ → List Value → Value
nth_argument i [] = undefined
nth_argument zero (v ∷ vs) = v
nth_argument (suc i) (v ∷ vs) = nth_argument i vs

abbrev pub or_zero : Value → Value
or_zero undefined = number (whole 0)
or_zero v = v

abbrev pub or_blank : Value → Value
or_blank undefined = string ""
or_blank null = string ""
or_blank v = v

pub data Helper : Type 0 where
  fixed_helper round_helper floor_helper ceil_helper abs_helper min_helper max_helper : Helper
  clamp_helper len_helper lower_helper upper_helper string_helper number_helper : Helper

abbrev pub template_helpers : List (String × Helper)
template_helpers =
    ("fixed", fixed_helper)
    ∷ ("round", round_helper)
    ∷ ("floor", floor_helper)
    ∷ ("ceil", ceil_helper)
    ∷ ("abs", abs_helper)
    ∷ ("min", min_helper)
    ∷ ("max", max_helper)
    ∷ ("clamp", clamp_helper)
    ∷ ("len", len_helper)
    ∷ ("lower", lower_helper)
    ∷ ("upper", upper_helper)
    ∷ ("string", string_helper)
    ∷ ("number", number_helper)
    ∷ []

-- clamp, of numbers.
unfoldable pub clamp_numbers : Num → Num → Num → Num
clamp_numbers n lo hi =
    if is_finite n && (is_finite lo && is_finite hi) then min_of (max_of n lo) hi else nan

abbrev pub length_value : Engine → Value → Num
length_value e (string s) = whole (e.length_of (string s))
length_value e (array i) = whole (e.length_of (array i))
length_value e _ = whole 0

unfoldable pub run_helper : Engine → Helper → List Value → Value
unfolding clamp_numbers
run_helper e fixed_helper vs =
    let n = e.to_number (nth_argument 0 vs) in
    if is_finite n
    then string (e.to_fixed n (digits_of (e.to_number (or_zero (nth_argument 1 vs)))))
    else string ""
run_helper e round_helper vs =
    let n = e.to_number (nth_argument 0 vs) in
    let factor = whole (10 ^ digits_of (e.to_number (or_zero (nth_argument 1 vs)))) in
    if is_finite n then number (e.over (half_up (e.times n factor)) factor) else number nan
run_helper e floor_helper vs = number (floor (e.to_number (nth_argument 0 vs)))
run_helper e ceil_helper vs = number (ceil (e.to_number (nth_argument 0 vs)))
run_helper e abs_helper vs = number (abs (e.to_number (nth_argument 0 vs)))
run_helper e min_helper vs = number (min_all (map e.to_number vs))
run_helper e max_helper vs = number (max_all (map e.to_number vs))
run_helper e clamp_helper vs = number (
    clamp_numbers (e.to_number (nth_argument 0 vs)) (e.to_number (nth_argument 1 vs))
      (e.to_number (nth_argument 2 vs)))
run_helper e len_helper vs = number (length_value e (nth_argument 0 vs))
run_helper e lower_helper vs = string (e.to_lower_case (e.to_text (or_blank (nth_argument 0 vs))))
run_helper e upper_helper vs = string (e.to_upper_case (e.to_text (or_blank (nth_argument 0 vs))))
run_helper e string_helper vs = string (e.to_text (or_blank (nth_argument 0 vs)))
run_helper e number_helper vs =
    let n = e.to_number (nth_argument 0 vs) in
    number (if is_finite n then n else e.to_number (or_zero (nth_argument 1 vs)))
