-- ===== src/Prelude/Value.antt =====
-- A JavaScript value as the code's dynamic tests see it. Objects and arrays are known by their
-- identity, which is what `===` compares.
use glanceus.Prelude.{ℕ, ◌==◌, String, Bool, true, false, not, str_eq, Option, none, some}
use glanceus.Prelude.Int.{Num, nan, infinite, finite, eqb_ℤ, pos_part, neg_part}

pub data Value : Type 0 where
  undefined null : Value
  boolean : Bool → Value
  number : Num → Value
  string : String → Value
  array object : ℕ → Value

abbrev pub eqb_Bool : Bool → Bool → Bool
eqb_Bool true b = b
eqb_Bool false true = false
eqb_Bool false false = true

-- `a === b` on numbers: NaN equals nothing.
abbrev pub eqb_Num : Num → Num → Bool
eqb_Num (infinite s) (infinite t) = eqb_Bool s t
eqb_Num (finite a) (finite b) = eqb_ℤ a b
eqb_Num _ _ = false

-- `a === b`.
unfoldable pub strict_eq : Value → Value → Bool
strict_eq undefined undefined = true
strict_eq null null = true
strict_eq (boolean a) (boolean b) = eqb_Bool a b
strict_eq (number a) (number b) = eqb_Num a b
strict_eq (string a) (string b) = str_eq a b
strict_eq (array a) (array b) = a == b
strict_eq (object a) (object b) = a == b
strict_eq _ _ = false

-- `a ?? b`.
abbrev pub coalesce : Value → Value → Value
coalesce undefined b = b
coalesce null b = b
coalesce a b = a

-- A property read: `undefined` for a key that is not there.
abbrev pub or_undefined : Option Value → Value
or_undefined none = undefined
or_undefined (some v) = v

-- A value as a condition.
abbrev pub is_truthy : Value → Bool
is_truthy undefined = false
is_truthy null = false
is_truthy (boolean b) = b
is_truthy (number nan) = false
is_truthy (number (infinite negative)) = true
is_truthy (number (finite z)) = not (pos_part z == neg_part z)
is_truthy (string s) = not (str_eq s "")
is_truthy (array i) = true
is_truthy (object i) = true
