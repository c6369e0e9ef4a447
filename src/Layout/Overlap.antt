-- ===== src/Layout/Overlap.antt =====
-- Geometry of the grid: overlap is symmetric, and nothing overlaps below the lowest node.
use glanceus.Prelude.{
  ℕ, zero, suc, ◌+◌, ◌≤◌, ◌≡◌, refl, false, List, [], ◌∷◌, arith, any, max, All, Bool-cases, inl,
  inr,
}
use glanceus.Layout.{
  GridNodeLayout, RawNode, overlaps, bottom_from, max_bottom, settle, settle_without_overlap,
  sanitize,
}

pub overlaps_sym : (a b : GridNodeLayout) → overlaps a b ≡ overlaps b a
unfolding overlaps
overlaps_sym a b = ground arith

pub bottom_from-le : (acc : ℕ) (nodes : List GridNodeLayout) → acc ≤ bottom_from acc nodes
unfolding bottom_from
bottom_from-le acc [] = omega arith
bottom_from-le acc (n ∷ nodes) = omega (arith, bottom_from-le (max acc (n.y + n.h)) nodes)

pub bottom_from-All :
    (acc : ℕ) (nodes : List GridNodeLayout) → All (λ n. n.y + n.h ≤ bottom_from acc nodes) nodes
unfolding bottom_from
bottom_from-All acc [] = tt
bottom_from-All acc (n ∷ nodes) = (
  omega (arith, bottom_from-le (max acc (n.y + n.h)) nodes),
  bottom_from-All (max acc (n.y + n.h)) nodes,
)

any-below :
    (node : GridNodeLayout) (nodes : List GridNodeLayout)
    → All (λ n. n.y + n.h ≤ node.y) nodes
    → any (overlaps node) nodes ≡ false
unfolding overlaps
any-below node [] h = refl
any-below node (n ∷ nodes) h = ground (arith, any-below node nodes (h.1))

All-le :
    (a b : ℕ) (nodes : List GridNodeLayout)
    → a ≤ b
    → All (λ n. n.y + n.h ≤ a) nodes
    → All (λ n. n.y + n.h ≤ b) nodes
All-le a b [] h k = tt
All-le a b (n ∷ nodes) h k = (omega (arith, k.0), All-le a b nodes h (k.1))

pub below_is_free :
    (node : GridNodeLayout) (placed : List GridNodeLayout)
    → max_bottom placed ≤ node.y
    → any (overlaps node) placed ≡ false
below_is_free node placed h =
    any-below node placed (All-le (max_bottom placed) node.y placed h (bottom_from-All 0 placed))

settle-free :
    (fuel : ℕ) (node : GridNodeLayout) (placed : List GridNodeLayout)
    → max_bottom placed ≤ node.y + fuel
    → any (overlaps (settle fuel node placed)) placed ≡ false
unfolding settle
settle-free zero node placed h = below_is_free node placed (omega arith)
settle-free (suc fuel) node placed h = elim (Bool-cases (any (overlaps node) placed)) [
  | inl busy ↦
      rw (busy, settle) (settle-free fuel (record node { y = node.y + 1 }) placed (omega arith))
  | inr free ↦ rw (free, settle) free
]

-- A settle moves down only.
settle-stays :
    (fuel : ℕ) (node : GridNodeLayout) (placed : List GridNodeLayout)
    → let s = settle fuel node placed in
      (s.id ≡ node.id) × (s.x ≡ node.x) × (s.w ≡ node.w) × (s.h ≡ node.h) × (node.y ≤ s.y)
unfolding settle
settle-stays zero node placed = (refl, refl, refl, refl, omega arith)
settle-stays (suc fuel) node placed = elim (Bool-cases (any (overlaps node) placed)) [
  | inl busy ↦
      rw (busy, settle)
        (let s = settle-stays fuel (record node { y = node.y + 1 }) placed in
          (s.0, s.1, s.2, s.3, omega (arith, s.4)))
  | inr free ↦ rw (free, settle) (refl, refl, refl, refl, omega arith)
]

-- The loop ends on a node that overlaps none of the placed ones, in the same column and of the
-- same size, and not above where it began.
pub settle_without_overlap_lem :
    (node : GridNodeLayout) (placed : List GridNodeLayout)
    → let s = settle_without_overlap node placed in
      (any (overlaps s) placed ≡ false)
      × (s.x ≡ node.x)
      × (s.w ≡ node.w)
      × (s.h ≡ node.h)
      × (node.y ≤ s.y)
unfolding settle_without_overlap
settle_without_overlap_lem node placed =
    let s = settle-stays (max_bottom placed) node placed in
    (settle-free (max_bottom placed) node placed (omega arith), s.1, s.2, s.3, s.4)

-- A sanitised node is not empty and lies within the columns.
abbrev pub IsWithin : ℕ → GridNodeLayout → Type 0
IsWithin columns node = (1 ≤ node.w) × (1 ≤ node.h) × (node.x + node.w ≤ columns)

pub sanitize-IsWithin :
    (node : RawNode) (columns : ℕ) → 1 ≤ columns → IsWithin columns (sanitize node columns)
unfolding sanitize
sanitize-IsWithin node columns h = omega arith
