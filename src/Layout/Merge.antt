-- ===== src/Layout/Merge.antt =====
-- mergeViewItemsWithGridNodes gives a layout without overlaps.
use glanceus.Prelude.{ℕ, ◌≤◌, ◌≡◌, refl, ◌∙◌, String, false, List, [], ◌∷◌, ◌++◌, arith, any, All}
use glanceus.Config.{ViewItem}
use glanceus.Layout.{
  GridNodeLayout, RawNode, Coordinate, overlaps, settle_without_overlap, sanitize_grid_node_layout,
  safe_columns, with_layout, node_of, requested, merge_items, merge_view_items_with_grid_nodes,
  has_layout_overlap, node_map,
}
use glanceus.Layout.Overlap.{overlaps_sym, settle_without_overlap_lem, IsWithin, sanitize-IsWithin}

any-append_one :
    (a : GridNodeLayout) (placed : List GridNodeLayout) (s : GridNodeLayout)
    → any (overlaps a) (placed ++ (s ∷ [])) ≡ false
    → (any (overlaps a) placed ≡ false) × (overlaps a s ≡ false)
any-append_one a [] s h = (refl, ground arith)
any-append_one a (n ∷ placed) s h = ground (arith, any-append_one a placed s)

-- None of the merged items overlaps a node that was placed before.
abbrev AllFree : List GridNodeLayout → List (ViewItem ℕ) → Type 0
AllFree placed = All (λ r. any (overlaps (node_of r)) placed ≡ false)

sanitize_grid_node_layout-IsWithin :
    (node : RawNode) (columns : Coordinate)
    → IsWithin (safe_columns columns) (sanitize_grid_node_layout node columns)
unfolding sanitize_grid_node_layout
sanitize_grid_node_layout-IsWithin node columns =
    sanitize-IsWithin node (safe_columns columns) (omega arith)

AllFree-split :
    (placed : List GridNodeLayout) (a : ViewItem ℕ) (s : GridNodeLayout) (rs : List (ViewItem ℕ))
    → ((b : GridNodeLayout) → overlaps s b ≡ overlaps (node_of a) b)
    → AllFree (placed ++ (s ∷ [])) rs
    → AllFree placed rs × (any (λ b. overlaps (node_of a) (node_of b)) rs ≡ false)
AllFree-split placed a s [] e h = (tt, refl)
AllFree-split placed a s (r ∷ rs) e h =
    let here = any-append_one (node_of r) placed s (h.0) in
    let rest = AllFree-split placed a s rs e (h.1) in
    ((here.0, rest.0), ground (arith, here.1, rest.1, overlaps_sym (node_of r) s, e (node_of r)))

-- The merged item has the box of the settled node.
same_box :
    (item : ViewItem Coordinate) (s b : GridNodeLayout)
    → overlaps s b ≡ overlaps (node_of (with_layout item s)) b
unfolding overlaps
same_box item s b = refl

any_same_box :
    (item : ViewItem Coordinate) (s : GridNodeLayout) (placed : List GridNodeLayout)
    → any (overlaps (node_of (with_layout item s))) placed ≡ any (overlaps s) placed
any_same_box item s [] = refl
any_same_box item s (n ∷ placed) = ground (arith, same_box item s n, any_same_box item s placed)

add_item-free :
    (item : ViewItem Coordinate) (candidate : GridNodeLayout) (placed : List GridNodeLayout)
    (rest : List (ViewItem ℕ))
    → let s = settle_without_overlap candidate placed in
      AllFree (placed ++ (s ∷ [])) rest × (has_layout_overlap rest ≡ false)
      → AllFree placed (with_layout item s ∷ rest)
        × (has_layout_overlap (with_layout item s ∷ rest) ≡ false)
unfolding has_layout_overlap
add_item-free item candidate placed rest later =
    let s = settle_without_overlap candidate placed in
    let split = AllFree-split placed (with_layout item s) s rest (same_box item s) (later.0) in
    (
      (any_same_box item s placed ∙ (settle_without_overlap_lem candidate placed).0, split.0),
      ground (arith, split.1, later.1),
    )

merge_items-free :
    (nodes : List (String × RawNode)) (columns : Coordinate) (placed : List GridNodeLayout)
    (items : List (ViewItem Coordinate))
    → AllFree placed (merge_items nodes columns placed items)
      × (has_layout_overlap (merge_items nodes columns placed items) ≡ false)
unfolding merge_items has_layout_overlap
merge_items-free nodes columns placed [] = (tt, refl)
merge_items-free nodes columns placed (item ∷ items) = add_item-free item _ placed _ (
    merge_items-free nodes columns
      (placed
        ++ (settle_without_overlap (sanitize_grid_node_layout (requested nodes item) columns) placed
            ∷ []))
      items)

-- No two items of a merged layout overlap.
pub merge-no_overlap :
    (items : List (ViewItem Coordinate)) (nodes : List RawNode) (columns : Coordinate)
    → has_layout_overlap (merge_view_items_with_grid_nodes items nodes columns) ≡ false
unfolding merge_view_items_with_grid_nodes
merge-no_overlap items nodes columns = (merge_items-free (node_map nodes []) columns [] items).1

-- The merged item is the given one, but for a box of the size that its request has and in its
-- column, within the grid and not above the row that was asked for.
abbrev pub IsPlaced :
    List (String × RawNode) → Coordinate → ViewItem Coordinate → ViewItem ℕ → Type 0
IsPlaced nodes columns item r =
    let asked = sanitize_grid_node_layout (requested nodes item) columns in
    (r.id ≡ item.id)
    × (r.source_id ≡ item.source_id)
    × (r.template_id ≡ item.template_id)
    × (r.props ≡ item.props)
    × (r.x ≡ asked.x)
    × (r.w ≡ asked.w)
    × (r.h ≡ asked.h)
    × (asked.y ≤ r.y)
    × IsWithin (safe_columns columns) (node_of r)

-- The two lists correspond item by item.
abbrev pub AllPlaced :
    List (String × RawNode) → Coordinate → List (ViewItem Coordinate) → List (ViewItem ℕ) → Type 0
AllPlaced nodes columns [] [] = Unit {0}
AllPlaced nodes columns [] (r ∷ rs) = ⊥
AllPlaced nodes columns (item ∷ items) [] = ⊥
AllPlaced nodes columns (item ∷ items) (r ∷ rs) =
    IsPlaced nodes columns item r × AllPlaced nodes columns items rs

settled-IsPlaced :
    (nodes : List (String × RawNode)) (columns : Coordinate) (item : ViewItem Coordinate)
    (placed : List GridNodeLayout)
    → IsPlaced nodes columns item (
        with_layout item (
          settle_without_overlap (sanitize_grid_node_layout (requested nodes item) columns) placed))
settled-IsPlaced nodes columns item placed =
    let asked = sanitize_grid_node_layout (requested nodes item) columns in
    let s = settle_without_overlap_lem asked placed in
    let within = sanitize_grid_node_layout-IsWithin (requested nodes item) columns in
    (refl, refl, refl, refl, s.1, s.2, s.3, s.4, omega (arith, s.1, s.2, s.3, within))

merge_items-AllPlaced :
    (nodes : List (String × RawNode)) (columns : Coordinate) (placed : List GridNodeLayout)
    (items : List (ViewItem Coordinate))
    → AllPlaced nodes columns items (merge_items nodes columns placed items)
unfolding merge_items
merge_items-AllPlaced nodes columns placed [] = tt
merge_items-AllPlaced nodes columns placed (item ∷ items) = (
  settled-IsPlaced nodes columns item placed,
  merge_items-AllPlaced nodes columns
      (placed
        ++ (settle_without_overlap (sanitize_grid_node_layout (requested nodes item) columns) placed
            ∷ []))
      items,
)

-- Item by item, in order, a merged layout is the sanitised request moved down at most.
pub merge-AllPlaced :
    (items : List (ViewItem Coordinate)) (nodes : List RawNode) (columns : Coordinate)
    → AllPlaced
        (node_map nodes [])
        columns
        items
        (merge_view_items_with_grid_nodes items nodes columns)
unfolding merge_view_items_with_grid_nodes
merge-AllPlaced items nodes columns = merge_items-AllPlaced (node_map nodes []) columns [] items
