-- ===== src/ViewTabs.antt =====
-- ui-react/src/pages/dashboardViewTabs.ts: which dashboard tab is active, in which order the tabs
-- stand, which of them are visible, and where a dragged tab goes. The store of these choices,
-- ui-react/src/store/viewTabsState.ts, is `Store`.
pub mod Order
pub mod Splice
pub mod Reorder
pub mod Store
pub mod Names
mod Tests
use glanceus.Prelude.{
  ℕ, zero, suc, ◌+◌, ◌≡◌, refl, String, str_eq, Bool, true, false, not, ◌&&◌, Option, none, some,
  List, [], ◌∷◌, ◌++◌, map, if◌then◌else◌, includes, index_of, dedupe, take, drop, filter, length,
  min, max,
}
use glanceus.Prelude.Int.{ℤ, Num, trunc, pos_part}
use glanceus.Config.{StoredView}

abbrev pub dashboard_visible_tab_cap : ℕ
dashboard_visible_tab_cap = 6

-- normalizeCap; `none` is a cap that is not given.
unfoldable pub normalize_cap : Option Num → ℕ
unfolding trunc
normalize_cap none = dashboard_visible_tab_cap
normalize_cap (some cap) = elim (trunc cap) [
  | none ↦ dashboard_visible_tab_cap
  | some z ↦ max 1 (pos_part z)
]

-- clampIndex.
unfoldable pub clamp_index : Num → ℕ → ℕ
unfolding trunc
clamp_index index upper = elim (trunc index) [ none ↦ upper | some z ↦ min upper (pos_part z) ]

-- resolveInsertIndex. Without a finite drop index the drop target's place counts.
unfoldable pub resolve_insert_index : List String → Option String → Num → ℕ
unfolding trunc clamp_index
resolve_insert_index zone_ids drop_target drop_index = elim (trunc drop_index) [
  | some z ↦ clamp_index drop_index (length zone_ids)
  | none ↦ elim drop_target [
    | none ↦ length zone_ids
    | some target ↦
        if str_eq target ""
        then length zone_ids
        else elim (index_of target zone_ids) [ none ↦ length zone_ids | some i ↦ i ]
  ]
]

abbrev pub ids_of : List StoredView → List String
ids_of = map λ view. view.id

-- resolveActiveViewId.
unfoldable pub resolve_active_view_id : List StoredView → Option String → Option String
resolve_active_view_id [] persisted = none
resolve_active_view_id (first ∷ rest) none = some first.id
resolve_active_view_id (first ∷ rest) (some persisted) =
    if includes persisted (ids_of (first ∷ rest)) then some persisted else some first.id

-- The two loops of mergeOrderedViewIds, which push what `seen` lacks.
pub record Collected : Type 0 where
  pub seen : List String
  pub merged : List String

abbrev pub push_unseen : Collected → String → Collected
push_unseen c id =
    if includes id c.seen then c else record { seen = id ∷ c.seen; merged = c.merged ++ (id ∷ []) }

unfoldable pub collect_persisted : List String → List String → Collected → Collected
collect_persisted available [] c = c
collect_persisted available (id ∷ ids) c =
    collect_persisted available ids (if includes id available then push_unseen c id else c)

unfoldable pub collect_views : List String → Collected → Collected
collect_views [] c = c
collect_views (id ∷ ids) c = collect_views ids (push_unseen c id)

-- mergeOrderedViewIds.
unfoldable pub merge_ordered_view_ids : List StoredView → List String → List String
unfolding collect_persisted collect_views
merge_ordered_view_ids views persisted =
    (collect_views (ids_of views)
      (collect_persisted (ids_of views) persisted (record { seen = []; merged = [] }))).merged

pub record Split : Type 0 where
  pub visible_view_ids : List String
  pub overflow_view_ids : List String

-- splitVisibleAndOverflowViewIds, for a cap that is already normalised. `dedupe` is
-- buildUniqueOrderedIds.
unfoldable pub split_at_cap : List String → ℕ → Split
split_at_cap ordered effective_cap = record {
  visible_view_ids = take effective_cap (dedupe ordered);
  overflow_view_ids = drop effective_cap (dedupe ordered);
}

unfoldable pub split_visible_and_overflow_view_ids : List String → Option Num → Split
unfolding split_at_cap normalize_cap
split_visible_and_overflow_view_ids ordered cap = split_at_cap ordered (normalize_cap cap)

-- ids.splice(index, 0, id), for an index within the list.
abbrev pub splice : ℕ → String → List String → List String
splice index id ids = take index ids ++ (id ∷ drop index ids)

pub data DropZone : Type 0 where
  visible overflow : DropZone

pub record ReorderParams : Type 0 where
  pub ordered_view_ids : List String
  pub dragged_view_id : String
  pub drop_target_view_id : Option String
  pub drop_zone : DropZone
  pub drop_index : Num
  pub cap : Option Num

-- The rows of buildReorderedViewIds that put the dragged id into its zone.
unfoldable pub recombine : DropZone → Split → String → Option String → Num → List String
unfolding resolve_insert_index
recombine visible split dragged target index =
    splice (resolve_insert_index split.visible_view_ids target index) dragged split.visible_view_ids
    ++ split.overflow_view_ids
recombine overflow split dragged target index =
    split.visible_view_ids
    ++ splice (resolve_insert_index split.overflow_view_ids target index) dragged
        split.overflow_view_ids

-- buildReorderedViewIds. (normalizeCap of a normalised cap is that cap.)
unfoldable pub build_reordered_view_ids : ReorderParams → List String
unfolding recombine split_at_cap normalize_cap
build_reordered_view_ids p =
    let effective_cap = normalize_cap p.cap in
    let unique = dedupe p.ordered_view_ids in
    let without_dragged = filter (λ id. not (str_eq id p.dragged_view_id)) unique in
    let split = split_at_cap without_dragged effective_cap in
    let recombined =
      recombine p.drop_zone split p.dragged_view_id p.drop_target_view_id p.drop_index in
    let final_split = split_at_cap recombined effective_cap in
    if includes p.dragged_view_id unique
    then final_split.visible_view_ids ++ final_split.overflow_view_ids
    else unique
