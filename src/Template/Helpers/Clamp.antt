-- ===== src/Template/Helpers/Clamp.antt =====
-- The helper `clamp` keeps its bounds.
use glanceus.Prelude.{◌≡◌, false, if◌then◌else◌, arith}
use glanceus.Prelude.Int.{ℤ, ltb_ℤ, finite}
use glanceus.Template.Helpers.{clamp_numbers}

-- Of finite numbers with bounds in order, `clamp` gives a finite number between the bounds: the
-- number itself, if that lies there.
pub clamp_numbers-finite :
    (n lo hi : ℤ)
    → ltb_ℤ hi lo ≡ false
    → (z : ℤ) × (clamp_numbers (finite n) (finite lo) (finite hi) ≡ finite z)
      × (ltb_ℤ z lo ≡ false)
      × (ltb_ℤ hi z ≡ false)
      × (ltb_ℤ n lo ≡ false → ltb_ℤ hi n ≡ false → z ≡ n)
unfolding clamp_numbers
clamp_numbers-finite n lo hi h =
    (pick n lo hi, picks, ground arith, ground arith, λ p q. ground arith)
  where
    pick : ℤ → ℤ → ℤ → ℤ
    pick n lo hi = let m = if ltb_ℤ n lo then lo else n in if ltb_ℤ hi m then hi else m

    picks : clamp_numbers (finite n) (finite lo) (finite hi) ≡ finite (pick n lo hi)
    picks = ground arith
