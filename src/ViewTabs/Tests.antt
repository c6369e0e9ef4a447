-- ===== src/ViewTabs/Tests.antt =====
-- The tabs at concrete views.
use glanceus.Prelude.{
  ◌≤◌, ◌≡◌, refl, String, none, some, List, [], ◌∷◌, ◌++◌, includes, IsUnique, dedupe, length, min,
}
use glanceus.Prelude.Int.{whole, units}
use glanceus.Prelude.Value.{undefined}
use glanceus.Config.{StoredView}
use glanceus.ViewTabs.{
  merge_ordered_view_ids, split_visible_and_overflow_view_ids, normalize_cap, ReorderParams,
  overflow, build_reordered_view_ids, splice,
}
use glanceus.ViewTabs.Order.{merge-dedupe, split-partition}
use glanceus.ViewTabs.Reorder.{build_reordered-splice, build_reordered-ids, place, others_of}
use glanceus.ViewTabs.Store.{ViewTabsState, initial}

abbrev view : String → StoredView
view id = record { id = id; name = []; layout_columns = undefined; items = [] }

abbrev three : List StoredView
three = view "a" ∷ view "b" ∷ view "c" ∷ []

merged_order : merge_ordered_view_ids three ("c" ∷ "x" ∷ "c" ∷ "a" ∷ []) ≡ "c" ∷ "a" ∷ "b" ∷ []
unfolding merge_ordered_view_ids
merged_order = refl

abbrev drag : ReorderParams
drag = record {
  ordered_view_ids = "a" ∷ "b" ∷ "c" ∷ "d" ∷ [];
  dragged_view_id = "a";
  drop_target_view_id = none;
  drop_zone = overflow;
  drop_index = whole 1;
  cap = some (whole 2);
}

dragged_order : build_reordered_view_ids drag ≡ "b" ∷ "c" ∷ "d" ∷ "a" ∷ []
unfolding build_reordered_view_ids whole units
dragged_order = refl

merge-dedupe_example :
    merge_ordered_view_ids three ("c" ∷ "x" ∷ []) ≡ dedupe ("c" ∷ "a" ∷ "b" ∷ "c" ∷ [])
merge-dedupe_example = merge-dedupe three ("c" ∷ "x" ∷ [])

split-partition_example :
    let s = split_visible_and_overflow_view_ids ("a" ∷ "b" ∷ "a" ∷ []) (some (whole 1)) in
    (s.visible_view_ids ++ s.overflow_view_ids ≡ "a" ∷ "b" ∷ [])
    × (length s.visible_view_ids ≡ min (normalize_cap (some (whole 1))) 2)
    × (1 ≤ normalize_cap (some (whole 1)))
split-partition_example = split-partition ("a" ∷ "b" ∷ "a" ∷ []) (some (whole 1))

build_reordered-splice_example :
    build_reordered_view_ids drag ≡ splice (place drag (others_of drag)) "a" ("b" ∷ "c" ∷ "d" ∷ [])
build_reordered-splice_example = build_reordered-splice drag

build_reordered-ids_example :
    IsUnique (build_reordered_view_ids drag)
    × ((id : String)
        → includes id (build_reordered_view_ids drag) ≡ includes id ("a" ∷ "b" ∷ "c" ∷ "d" ∷ []))
build_reordered-ids_example = build_reordered-ids drag

abbrev stored : ViewTabsState
stored = record initial { active_view_id = some "x"; ordered_view_ids = "c" ∷ "x" ∷ [] }
