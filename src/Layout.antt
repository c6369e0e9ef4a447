-- ===== src/Layout.antt =====
-- ui-react/src/pages/dashboardLayout.ts: the grid of a dashboard. Sanitised layouts are whole
-- numbers from 0, so they are natural numbers here.
pub mod Place
pub mod Merge
pub mod Overlap
mod Tests
use glanceus.Prelude.{
  ℕ, zero, suc, ◌+◌, ◌-◌, ◌≡◌, refl, String, Bool, true, false, not, ◌&&◌, ◌||◌, Option, none, some,
  List, [], ◌∷◌, ◌++◌, map, if◌then◌else◌, ltb, any, min, max,
}
use glanceus.Prelude.Int.{ℤ, pos, negsuc, pos_part, Num, trunc}
use glanceus.Prelude.Text.{parse_int}
use glanceus.Prelude.Dict.{lookup, set}
use glanceus.Config.{ViewItem}

-- A value where a number is due: a number, or what String(value) makes of anything else.
pub data Coordinate : Type 0 where
  number : Num → Coordinate
  text : List ℕ → Coordinate

abbrev or_else : Option ℤ → ℤ → ℤ
or_else none fallback = fallback
or_else (some z) fallback = z

-- toFiniteInt.
unfoldable pub to_finite_int : Coordinate → ℤ → ℤ
to_finite_int (number n) fallback = or_else (trunc n) fallback
to_finite_int (text cs) fallback = or_else (parse_int cs) fallback

-- toPositiveInt, for a fallback above 0.
unfoldable pub to_positive_int : Coordinate → ℕ → ℕ
to_positive_int value fallback =
    let parsed = pos_part (to_finite_int value (pos fallback)) in
    if ltb 0 parsed then parsed else fallback

-- Math.min(max, Math.max(min, value)).
abbrev pub clamp : ℕ → ℕ → ℕ → ℕ
clamp value lower upper = min upper (max lower value)

-- GridNodeLayout, as it comes and sanitised.
pub record RawNode : Type 0 where
  pub id : String
  pub x : Coordinate
  pub y : Coordinate
  pub w : Coordinate
  pub h : Coordinate

pub record GridNodeLayout : Type 0 where
  pub id : String
  pub x : ℕ
  pub y : ℕ
  pub w : ℕ
  pub h : ℕ

abbrev pub safe_columns : Coordinate → ℕ
safe_columns column_count = max 1 (pos_part (to_finite_int column_count (pos 12)))

-- sanitizeGridNodeLayout, for a column count that is already made safe: a negative value is 0
-- after its clamp, which `pos_part` stands for.
unfoldable pub sanitize : RawNode → ℕ → GridNodeLayout
sanitize node columns =
    let safe_w = clamp (to_positive_int node.w 3) 1 columns in
    record {
      id = node.id;
      x = clamp (pos_part (to_finite_int node.x (pos 0))) 0 (columns - safe_w);
      y = pos_part (to_finite_int node.y (pos 0));
      w = safe_w;
      h = max 1 (to_positive_int node.h 4);
    }

unfoldable pub sanitize_grid_node_layout : RawNode → Coordinate → GridNodeLayout
unfolding sanitize
sanitize_grid_node_layout node column_count = sanitize node (safe_columns column_count)

unfoldable pub overlaps : GridNodeLayout → GridNodeLayout → Bool
overlaps a b =
    (ltb a.x (b.x + b.w) && ltb b.x (a.x + a.w)) && (ltb a.y (b.y + b.h) && ltb b.y (a.y + a.h))

-- `occupied.reduce((max, node) => Math.max(max, node.y + node.h), 0)`.
unfoldable pub bottom_from : ℕ → List GridNodeLayout → ℕ
bottom_from acc [] = acc
bottom_from acc (node ∷ nodes) = bottom_from (max acc (node.y + node.h)) nodes

abbrev pub max_bottom : List GridNodeLayout → ℕ
max_bottom = bottom_from 0

abbrev pub is_free : GridNodeLayout → List GridNodeLayout → Bool
is_free node placed = not (any (overlaps node) placed)

abbrev pub candidate_at : ℕ → ℕ → ℕ → ℕ → GridNodeLayout
candidate_at w h x y = record { id = "candidate"; x = x; y = y; w = w; h = h }

-- The inner loop of findFirstAvailableGridPlacement, from x for so many rounds.
unfoldable pub scan_row : (w h : ℕ) → List GridNodeLayout → (rounds x y : ℕ) → Option GridNodeLayout
scan_row w h occupied zero x y = none
scan_row w h occupied (suc rounds) x y =
    let rest = scan_row w h occupied rounds (x + 1) y in
    if is_free (candidate_at w h x y) occupied then some (candidate_at w h x y) else rest

-- The outer loop, from y for so many rounds; each row has `width` places.
unfoldable pub scan_rows :
    (w h width : ℕ) → List GridNodeLayout → (rounds y : ℕ) → Option GridNodeLayout
unfolding scan_row
scan_rows w h width occupied zero y = none
scan_rows w h width occupied (suc rounds) y = elim (scan_row w h occupied width 0 y) [
  | some found ↦ some found
  | none ↦ scan_rows w h width occupied rounds (y + 1)
]

abbrev pub raw_of : ViewItem Coordinate → RawNode
raw_of item = record { id = item.id; x = item.x; y = item.y; w = item.w; h = item.h }

-- findFirstAvailableGridPlacement.
unfoldable pub find_first_available_grid_placement :
    List (ViewItem Coordinate) → Coordinate → Coordinate → Coordinate → GridNodeLayout
unfolding scan_rows
find_first_available_grid_placement items column_count preferred_width preferred_height =
    let columns = safe_columns column_count in
    let safe_w = clamp (to_positive_int preferred_width 4) 1 columns in
    let safe_h = max 1 (to_positive_int preferred_height 4) in
    let occupied = map (λ item. sanitize (raw_of item) columns) items in
    let bottom = max_bottom occupied in
    elim (scan_rows safe_w safe_h (columns - safe_w + 1) occupied (bottom + safe_h + 1) 0) [
      | some found ↦ found
      | none ↦ candidate_at safe_w safe_h 0 bottom
    ]

-- The loop of settleWithoutOverlap, on fuel.
unfoldable pub settle : ℕ → GridNodeLayout → List GridNodeLayout → GridNodeLayout
settle zero node placed = node
settle (suc fuel) node placed = elim (any (overlaps node) placed) [
  | true ↦ settle fuel (record node { y = node.y + 1 }) placed
  | false ↦ node
]

-- settleWithoutOverlap: below the lowest placed node nothing overlaps, so its bottom is fuel
-- enough.
unfoldable pub settle_without_overlap : GridNodeLayout → List GridNodeLayout → GridNodeLayout
unfolding settle
settle_without_overlap candidate placed = settle (max_bottom placed) candidate placed

-- new Map(nodes.map((node) => [node.id, node])).
abbrev pub node_map : List RawNode → List (String × RawNode) → List (String × RawNode)
node_map [] m = m
node_map (node ∷ nodes) m = node_map nodes (set node.id node m)

-- The layout that an item asks for: that of its node, or its own.
unfoldable pub requested : List (String × RawNode) → ViewItem Coordinate → RawNode
requested nodes item = elim (lookup item.id nodes) [
  | some node ↦ record node { id = item.id }
  | none ↦ raw_of item
]

abbrev pub with_layout : ViewItem Coordinate → GridNodeLayout → ViewItem ℕ
with_layout item node = record {
  id = item.id;
  x = node.x;
  y = node.y;
  w = node.w;
  h = node.h;
  source_id = item.source_id;
  template_id = item.template_id;
  props = item.props;
}

unfoldable pub merge_items :
    List (String × RawNode)
    → Coordinate
    → List GridNodeLayout
    → List (ViewItem Coordinate)
    → List (ViewItem ℕ)
unfolding settle_without_overlap requested sanitize_grid_node_layout
merge_items nodes column_count placed [] = []
merge_items nodes column_count placed (item ∷ items) =
    let candidate = sanitize_grid_node_layout (requested nodes item) column_count in
    let settled = settle_without_overlap candidate placed in
    with_layout item settled ∷ merge_items nodes column_count (placed ++ (settled ∷ [])) items

-- mergeViewItemsWithGridNodes.
unfoldable pub merge_view_items_with_grid_nodes :
    List (ViewItem Coordinate) → List RawNode → Coordinate → List (ViewItem ℕ)
unfolding merge_items
merge_view_items_with_grid_nodes items nodes column_count =
    merge_items (node_map nodes []) column_count [] items

abbrev pub node_of : ViewItem ℕ → GridNodeLayout
node_of item = record { id = item.id; x = item.x; y = item.y; w = item.w; h = item.h }

-- hasLayoutOverlap, of sanitised items: a pair i < j that overlaps.
unfoldable pub has_layout_overlap : List (ViewItem ℕ) → Bool
unfolding overlaps
has_layout_overlap [] = false
has_layout_overlap (a ∷ rest) =
    any (λ b. overlaps (node_of a) (node_of b)) rest || has_layout_overlap rest
