-- ===== src/Prelude/Int.antt =====
-- Signed integers over the native numbers, and the numbers of JavaScript.
use Prim.Native.Nat.{ℕ, suc, ◌+◌, ◌-◌, ◌*◌, ◌/◌, ◌^◌}
use mathlib.Core.Bool.{Bool}
use mathlib.Core.Option.{Option, none, some}
use glanceus.Prelude.Tests.{if◌then◌else◌, ltb, ◌==◌}

-- `negsuc n` is -(n + 1).
pub data ℤ : Type 0 where
  pos : ℕ → ℤ
  negsuc : ℕ → ℤ

abbrev pub pos_part : ℤ → ℕ
pos_part (pos n) = n
pos_part (negsuc n) = 0

abbrev pub neg_part : ℤ → ℕ
neg_part (pos n) = 0
neg_part (negsuc n) = suc n

abbrev pub ltb_ℤ : ℤ → ℤ → Bool
ltb_ℤ a b = ltb (pos_part a + neg_part b) (pos_part b + neg_part a)

abbrev pub eqb_ℤ : ℤ → ℤ → Bool
eqb_ℤ a b = pos_part a + neg_part b == pos_part b + neg_part a

-- a - b, as an integer.
abbrev pub sub_ℕ : ℕ → ℕ → ℤ
sub_ℕ a b = if ltb a b then negsuc (b - a - 1) else pos (a - b)

-- A double. Every finite one is a whole number of units of 2 ^ -1074, and `infinite true` is the
-- negative infinity. The sign of a zero is not kept: of the code modelled here only a template that
-- divides by a zero could tell.
pub data Num : Type 0 where
  nan : Num
  infinite : Bool → Num
  finite : ℤ → Num

unfoldable pub units : ℕ
units = 2 ^ 1074

-- Math.trunc of a number that passes Number.isFinite; `none` for one that does not.
unfoldable pub trunc : Num → Option ℤ
trunc nan = none
trunc (infinite negative) = none
trunc (finite z) = some (sub_ℕ (pos_part z / units) (neg_part z / units))

-- A whole number as a double.
unfoldable pub whole : ℕ → Num
whole n = finite (pos (n * units))
