-- ===== src/ViewTabs/Store.antt =====
-- ui-react/src/store/viewTabsState.ts: the persisted choice of the active tab and of the order.

use glanceus.Prelude.{
  ◌≡◌, refl, sym, ap, ◌∙◌, String, str_eq, eq_iff, Bool, true, false, ◌&&◌, Option, none, some,
  List, [], ◌∷◌, arith, if◌then◌else◌, Bool-cases, inl, inr, includes, length, ◌==◌, eq_refl,
}
use glanceus.Config.{StoredView}
use glanceus.ViewTabs.{ids_of, merge_ordered_view_ids, resolve_active_view_id}
use glanceus.ViewTabs.Order.{merge_twice_ids}

pub data ViewMode : Type 0 where
  single management : ViewMode

pub record ViewTabsState : Type 0 where
  pub active_view_id : Option String
  pub ordered_view_ids : List String
  pub view_mode : ViewMode
  pub selected_dashboard_id : Option String

abbrev pub initial : ViewTabsState
initial = record {
  active_view_id = none;
  ordered_view_ids = [];
  view_mode = single;
  selected_dashboard_id = none;
}

abbrev pub set_active_view_id : Option String → ViewTabsState → ViewTabsState
set_active_view_id id state = record state { active_view_id = id }

abbrev pub set_ordered_view_ids : List String → ViewTabsState → ViewTabsState
set_ordered_view_ids ids state = record state { ordered_view_ids = ids }

abbrev pub set_view_mode : ViewMode → ViewTabsState → ViewTabsState
set_view_mode mode state = record state { view_mode = mode }

abbrev pub set_selected_dashboard_id : Option String → ViewTabsState → ViewTabsState
set_selected_dashboard_id id state = record state { selected_dashboard_id = id }

-- `a === b` on a string or null.
abbrev pub same_id : Option String → Option String → Bool
same_id none none = true
same_id (some a) (some b) = str_eq a b
same_id _ _ = false

-- `a.every((id, i) => id === b[i])`: an id beyond the end of `b` equals nothing there.
abbrev pub every_same : List String → List String → Bool
every_same [] ys = true
every_same (x ∷ xs) [] = false
every_same (x ∷ xs) (y ∷ ys) = str_eq x y && every_same xs ys

pub record Synced : Type 0 where
  pub active_view_id : Option String
  pub ordered_view_ids : List String

-- syncWithViews: what it returns, and the state after its `set`.
unfoldable pub sync_with_views : List StoredView → ViewTabsState → Synced × ViewTabsState
sync_with_views views state =
    let ordered = merge_ordered_view_ids views state.ordered_view_ids in
    let active = resolve_active_view_id views state.active_view_id in
    (
      record { active_view_id = active; ordered_view_ids = ordered },
      if same_id state.active_view_id active
            && (length state.ordered_view_ids == length ordered)
            && every_same state.ordered_view_ids ordered
          then state
          else record state { active_view_id = active; ordered_view_ids = ordered },
    )

same_id→eq : (a b : Option String) → same_id a b ≡ true → a ≡ b
same_id→eq none none h = refl
same_id→eq none (some b) h = cc
same_id→eq (some a) none h = cc
same_id→eq (some a) (some b) h = ap some ((eq_iff a b).0 h)

every_same→eq :
    (xs ys : List String) → (length xs == length ys) ≡ true → every_same xs ys ≡ true → xs ≡ ys
every_same→eq [] [] n h = refl
every_same→eq [] (y ∷ ys) n h = absurd (ground arith)
every_same→eq (x ∷ xs) [] n h = cc
every_same→eq (x ∷ xs) (y ∷ ys) n h = ground (arith, eq_iff x y, every_same→eq xs ys)

-- Whether or not the state is written, it ends with what the call returns, and the other fields
-- stay.
pub sync_with_views_lem :
    (views : List StoredView) (state : ViewTabsState)
    → let r = sync_with_views views state in
      ((r.1).active_view_id ≡ resolve_active_view_id views state.active_view_id)
      × ((r.1).ordered_view_ids ≡ merge_ordered_view_ids views state.ordered_view_ids)
      × ((r.0).active_view_id ≡ (r.1).active_view_id)
      × ((r.0).ordered_view_ids ≡ (r.1).ordered_view_ids)
      × ((r.1).view_mode ≡ state.view_mode)
      × ((r.1).selected_dashboard_id ≡ state.selected_dashboard_id)
unfolding sync_with_views
sync_with_views_lem views state = ground (
  arith,
  same_id→eq state.active_view_id (resolve_active_view_id views state.active_view_id),
  every_same→eq state.ordered_view_ids (merge_ordered_view_ids views state.ordered_view_ids),
)

resolve_twice :
    (views : List StoredView) (id : Option String)
    → resolve_active_view_id views (resolve_active_view_id views id)
      ≡ resolve_active_view_id views id
unfolding resolve_active_view_id
resolve_twice [] id = refl
resolve_twice (v ∷ vs) none = ground (arith, eq_refl v.id)
resolve_twice (v ∷ vs) (some id) = ground (arith, eq_refl v.id)

-- A second sync with the same views changes neither the active tab nor the order.
pub sync_twice :
    (views : List StoredView) (state : ViewTabsState)
    → let s = (sync_with_views views state).1 in
      ((sync_with_views views s).1.active_view_id ≡ s.active_view_id)
      × ((sync_with_views views s).1.ordered_view_ids ≡ s.ordered_view_ids)
sync_twice views state = (
  again.0
      ∙ ap (resolve_active_view_id views) (once.0)
      ∙ resolve_twice views state.active_view_id
      ∙ sym (once.0),
  again.1
      ∙ ap (merge_ordered_view_ids views) (once.1)
      ∙ merge_twice_ids views state.ordered_view_ids
      ∙ sym (once.1),
)
  where
    s : ViewTabsState
    s = (sync_with_views views state).1

    once :
        (s.active_view_id ≡ resolve_active_view_id views state.active_view_id)
        × (s.ordered_view_ids ≡ merge_ordered_view_ids views state.ordered_view_ids)
    once = ((sync_with_views_lem views state).0, (sync_with_views_lem views state).1)

    again :
        ((sync_with_views views s).1.active_view_id ≡ resolve_active_view_id views s.active_view_id)
        × ((sync_with_views views s).1.ordered_view_ids
            ≡ merge_ordered_view_ids views s.ordered_view_ids)
    again = ((sync_with_views_lem views s).0, (sync_with_views_lem views s).1)

-- With a view at hand the active tab is one of the views.
pub resolve-listed :
    (v : StoredView) (vs : List StoredView) (id : Option String)
    → (active : String) × (resolve_active_view_id (v ∷ vs) id ≡ some active)
      × (includes active (ids_of (v ∷ vs)) ≡ true)
unfolding resolve_active_view_id
resolve-listed v vs none = (v.id, refl, ground (arith, eq_refl v.id))
resolve-listed v vs (some id) = elim (Bool-cases (includes id (ids_of (v ∷ vs)))) [
  | inl h ↦ (id, rw h, h)
  | inr h ↦ (v.id, rw h, ground (arith, eq_refl v.id))
]
