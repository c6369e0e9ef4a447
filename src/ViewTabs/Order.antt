-- ===== src/ViewTabs/Order.antt =====
-- The order of the tabs: what mergeOrderedViewIds and the split at the cap guarantee.
use mathlib.Core.List.{append_assoc, append-nil}
use glanceus.Prelude.{
  ◌≤◌, ◌≡◌, refl, sym, ap, ◌∙◌, String, Bool, true, Option, List, [], ◌∷◌, ◌++◌, arith, Bool-cases,
  inl, inr, includes, dedupe, dedupe_from, IsUnique, eq_refl, dedupe-IsUnique, includes-dedupe,
  includes-append, includes-filter, dedupe_from-append, dedupe_from-covered, Disjoint-nil,
  includes-add_all, add_all, filter, length, min, take-append-drop, length-take,
}
use glanceus.Prelude.Int.{Num}
use glanceus.Config.{StoredView}
use glanceus.ViewTabs.{
  ids_of, Collected, push_unseen, collect_persisted, collect_views, merge_ordered_view_ids,
  split_visible_and_overflow_view_ids, normalize_cap,
}

collect_persisted-filter :
    (available ids : List String) (c : Collected)
    → collect_persisted available ids c ≡ collect_views (filter (λ id. includes id available) ids) c
unfolding collect_persisted collect_views
collect_persisted-filter available [] c = refl
collect_persisted-filter available (id ∷ ids) c = elim (Bool-cases (includes id available)) [
  | inl yes' ↦ rw yes' (collect_persisted-filter available ids (push_unseen c id))
  | inr no' ↦ rw no' (collect_persisted-filter available ids c)
]

collect_views-append :
    (xs ys : List String) (c : Collected)
    → collect_views (xs ++ ys) c ≡ collect_views ys (collect_views xs c)
unfolding collect_views
collect_views-append [] ys c = refl
collect_views-append (x ∷ xs) ys c = collect_views-append xs ys (push_unseen c x)

collect_views-merged :
    (ids : List String) (c : Collected)
    → (collect_views ids c).merged ≡ c.merged ++ dedupe_from c.seen ids
unfolding collect_views
collect_views-merged [] c = sym (append-nil c.merged)
collect_views-merged (x ∷ ids) c = elim (Bool-cases (includes x c.seen)) [
  | inl old ↦ rw (old, dedupe_from, collect_views) (collect_views-merged ids c)
  | inr new ↦
      rw (new, dedupe_from, collect_views)
        (collect_views-merged ids (record { seen = x ∷ c.seen; merged = c.merged ++ (x ∷ []) })
          ∙ append_assoc c.merged (x ∷ []) (dedupe_from (x ∷ c.seen) ids))
]

-- The merge is the persisted ids that are still there, then all views, each id once and at its
-- first place.
pub merge-dedupe :
    (views : List StoredView) (persisted : List String)
    → merge_ordered_view_ids views persisted
      ≡ dedupe (filter (λ id. includes id (ids_of views)) persisted ++ ids_of views)
unfolding merge_ordered_view_ids
merge-dedupe views persisted =
    ap (λ c. (collect_views (ids_of views) c).merged)
      (collect_persisted-filter (ids_of views) persisted _)
    ∙ ap (λ c. c.merged)
        (sym (
          collect_views-append (filter (λ id. includes id (ids_of views)) persisted) (ids_of views)
            _))
    ∙ collect_views-merged (filter (λ id. includes id (ids_of views)) persisted ++ ids_of views) _

-- The merged order lists each view's id exactly once, and nothing else.
pub merge-ids :
    (views : List StoredView) (persisted : List String)
    → IsUnique (merge_ordered_view_ids views persisted)
      × ((id : String)
          → includes id (merge_ordered_view_ids views persisted) ≡ includes id (ids_of views))
merge-ids views persisted = (
  rw (merge-dedupe views persisted) (dedupe-IsUnique _),
  λ id. ap (includes id) (merge-dedupe views persisted) ∙ same id,
)
  where
    same :
        (id : String)
        → includes id (dedupe (filter (λ j. includes j (ids_of views)) persisted ++ ids_of views))
          ≡ includes id (ids_of views)
    same id = ground (
      arith,
      includes-dedupe id (filter (λ j. includes j (ids_of views)) persisted ++ ids_of views),
      includes-append id (filter (λ j. includes j (ids_of views)) persisted) (ids_of views),
      includes-filter id (λ j. includes j (ids_of views)) persisted,
    )

filter-all :
    (p : String → Bool) (xs : List String)
    → ((a : String) → includes a xs ≡ true → p a ≡ true)
    → filter p xs ≡ xs
filter-all p [] h = refl
filter-all p (x ∷ xs) h =
    rw (h x (ground (arith, eq_refl x)))
      (ap (λ (l : List String). x ∷ l) (filter-all p xs (λ a k. h a (ground arith))))

-- Merging again with the same views changes nothing.
pub merge_twice_ids :
    (views : List StoredView) (persisted : List String)
    → merge_ordered_view_ids views (merge_ordered_view_ids views persisted)
      ≡ merge_ordered_view_ids views persisted
merge_twice_ids views persisted =
    merge-dedupe views m
    ∙ ap (λ l. dedupe (l ++ ids_of views)) (filter-all _ m (λ a h. sym (facts.1 a) ∙ h))
    ∙ dedupe_from-append [] m (ids_of views) (facts.0) (Disjoint-nil m)
    ∙ ap (λ l. m ++ l)
        (dedupe_from-covered (add_all m []) (ids_of views)
          (λ a h. ground (arith, includes-add_all a m [], facts.1 a)))
    ∙ append-nil m
  where
    m : List String
    m = merge_ordered_view_ids views persisted

    facts : IsUnique m × ((id : String) → includes id m ≡ includes id (ids_of views))
    facts = merge-ids views persisted

-- The visible tabs and the others are the ids in order, each once; as many are visible as the
-- cap allows.
pub split-partition :
    (ordered : List String) (cap : Option Num)
    → let s = split_visible_and_overflow_view_ids ordered cap in
      (s.visible_view_ids ++ s.overflow_view_ids ≡ dedupe ordered)
      × (length s.visible_view_ids ≡ min (normalize_cap cap) (length (dedupe ordered)))
      × (1 ≤ normalize_cap cap)
unfolding split_visible_and_overflow_view_ids normalize_cap
split-partition ordered cap = (
  take-append-drop (normalize_cap cap) (dedupe ordered),
  length-take (normalize_cap cap) (dedupe ordered),
  ground arith,
)
