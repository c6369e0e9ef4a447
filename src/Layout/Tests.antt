-- ===== src/Layout/Tests.antt =====
-- The grid at concrete items.
use glanceus.Prelude.{ℕ, ◌+◌, ◌-◌, ◌≤◌, ◌≡◌, refl, String, false, List, [], ◌∷◌, any, max}
use glanceus.Prelude.Int.{whole}
use glanceus.Prelude.Value.{undefined}
use glanceus.Config.{ViewItem}
use glanceus.Layout.{
  Coordinate, number, text, GridNodeLayout, RawNode, overlaps, settle_without_overlap, node_map,
  clamp, to_positive_int, safe_columns, max_bottom, merge_view_items_with_grid_nodes,
  has_layout_overlap, find_first_available_grid_placement,
}
use glanceus.Layout.Overlap.{settle_without_overlap_lem}
use glanceus.Layout.Merge.{merge-no_overlap, merge-AllPlaced, AllPlaced}
use glanceus.Layout.Place.{find_first-IsEarliest, IsEarliest, occupied_by}

abbrev item_at : String → ℕ → ℕ → ViewItem Coordinate
item_at id x y = record {
  id = id;
  x = number (whole x);
  y = number (whole y);
  w = number (whole 2);
  h = number (whole 1);
  source_id = "s";
  template_id = "t";
  props = undefined;
}

abbrev two_items : List (ViewItem Coordinate)
two_items = item_at "a" 0 0 ∷ item_at "b" 1 0 ∷ []

abbrev moved : List RawNode
moved =
    record {
      id = "b";
      x = number (whole 0);
      y = number (whole 0);
      w = text (50 ∷ []);
      h = number (whole 1);
    }
    ∷ []

abbrev four : Coordinate
four = number (whole 4)

abbrev box : ℕ → ℕ → GridNodeLayout
box x y = record { id = "n"; x = x; y = y; w = 2; h = 2 }

settled_y : GridNodeLayout.y (settle_without_overlap (box 1 0) (box 0 1 ∷ [])) ≡ 3
unfolding settle_without_overlap glanceus.Layout.bottom_from overlaps
settled_y = refl

settle_without_overlap_lem_example :
    let s = settle_without_overlap (box 1 0) (box 0 1 ∷ []) in
    (any (overlaps s) (box 0 1 ∷ []) ≡ false) × (s.x ≡ 1) × (s.w ≡ 2) × (s.h ≡ 2) × (0 ≤ s.y)
settle_without_overlap_lem_example = settle_without_overlap_lem (box 1 0) (box 0 1 ∷ [])

merge-no_overlap_example :
    has_layout_overlap (merge_view_items_with_grid_nodes two_items moved four) ≡ false
merge-no_overlap_example = merge-no_overlap two_items moved four

merge-AllPlaced_example :
    AllPlaced
      (node_map moved [])
      four
      two_items
      (merge_view_items_with_grid_nodes two_items moved four)
merge-AllPlaced_example = merge-AllPlaced two_items moved four

find_first-IsEarliest_example :
    let columns = safe_columns four in
    let w = clamp (to_positive_int four 4) 1 columns in
    let h = max 1 (to_positive_int four 4) in
    let occupied = occupied_by two_items columns in
    IsEarliest w h occupied
      (columns - w + 1)
      (max_bottom occupied + h + 1)
      0
      (find_first_available_grid_placement two_items four four four)
    × (1 ≤ w)
    × (w ≤ columns)
find_first-IsEarliest_example = find_first-IsEarliest two_items four four four
