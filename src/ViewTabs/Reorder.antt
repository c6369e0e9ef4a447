-- ===== src/ViewTabs/Reorder.antt =====
-- Where buildReorderedViewIds puts the dragged tab.
use mathlib.Core.Option
use glanceus.Prelude.{
  ℕ, suc, ◌+◌, ◌≤◌, ◌≡◌, refl, sym, ap, subst, ◌∙◌, String, str_eq, eq_iff, eq_refl, false, not,
  Option, none, some, List, [], ◌∷◌, ◌++◌, arith, if◌then◌else◌, Bool-cases, Option-cases, inl, inr,
  includes, index_of, dedupe, IsUnique, dedupe-IsUnique, includes-dedupe, includes-filter,
  filter-IsUnique, dedupe_unique, take, drop, filter, length, take-append-drop, if_rule,
}
use glanceus.Prelude.Int.{Num, trunc}
use glanceus.ViewTabs.{
  ReorderParams, DropZone, visible, overflow, splice, split_at_cap, recombine, resolve_insert_index,
  clamp_index, build_reordered_view_ids, normalize_cap,
}
use glanceus.ViewTabs.Splice.{splice-left, splice-right, splice-IsUnique, includes-splice}

-- The place among the other tabs: the insert index in the drop zone, behind the visible tabs for
-- the overflow zone.
unfoldable pub place : ReorderParams → List String → ℕ
place p others = elim p.drop_zone [
  | visible ↦
      resolve_insert_index (take (normalize_cap p.cap) others) p.drop_target_view_id p.drop_index
  | overflow ↦
      length (take (normalize_cap p.cap) others)
      + resolve_insert_index (drop (normalize_cap p.cap) others) p.drop_target_view_id p.drop_index
]

abbrev pub others_of : ReorderParams → List String
others_of p = filter (λ id. not (str_eq id p.dragged_view_id)) (dedupe p.ordered_view_ids)

some_eq : {a b : ℕ} → some a ≡ some b → a ≡ b
some_eq e = cc

suc_bound :
    (o : Option ℕ) (n i : ℕ)
    → ((j : ℕ) → o ≡ some j → j ≤ n)
    → Option.map suc o ≡ some i
    → i ≤ suc n
suc_bound none n i h e = cc
suc_bound (some j) n i h e = omega (arith, h j refl, some_eq e)

index_of-bound : (a : String) (xs : List String) (i : ℕ) → index_of a xs ≡ some i → i ≤ length xs
index_of-bound a [] i e = cc
index_of-bound a (x ∷ xs) i e = elim (Bool-cases (str_eq a x)) [
  | inl same ↦ omega (arith, some_eq (rw same at e))
  | inr other ↦ suc_bound (index_of a xs) (length xs) i (index_of-bound a xs) (rw other at e)
]

resolve_insert_index-bound :
    (zone : List String) (target : Option String) (index : Num)
    → resolve_insert_index zone target index ≤ length zone
unfolding resolve_insert_index clamp_index
resolve_insert_index-bound zone target index = elim (Option-cases (trunc index)) [
  | inr (z, e) ↦ rw (e, resolve_insert_index) (rw (e, clamp_index) (omega arith))
  | inl e ↦ rw (e, resolve_insert_index) (by_target target)
]
  where
    by_index :
        (o : Option ℕ)
        → ((i : ℕ) → o ≡ some i → i ≤ length zone)
        → elim o [ none ↦ length zone | some i ↦ i ] ≤ length zone
    by_index none h = omega arith
    by_index (some i) h = h i refl

    by_target :
        (t : Option String)
        → elim t [
          | none ↦ length zone
          | some name ↦
              if str_eq name ""
              then length zone
              else elim (index_of name zone) [ none ↦ length zone | some i ↦ i ]
        ]
          ≤ length zone
    by_target none = omega arith
    by_target (some name) =
        if_rule (λ n. n ≤ length zone) (str_eq name "") (λ _. omega arith)
          λ _. by_index (index_of name zone) (index_of-bound name zone)

split_join :
    (ids : List String) (n : ℕ)
    → IsUnique ids
    → (split_at_cap ids n).visible_view_ids ++ (split_at_cap ids n).overflow_view_ids ≡ ids
unfolding split_at_cap
split_join ids n u = take-append-drop n (dedupe ids) ∙ dedupe_unique ids u

recombine-splice :
    (p : ReorderParams) (ids : List String)
    → IsUnique ids
    → recombine p.drop_zone
        (split_at_cap ids (normalize_cap p.cap))
        p.dragged_view_id
        p.drop_target_view_id
        p.drop_index
      ≡ splice (place p ids) p.dragged_view_id ids
unfolding recombine split_at_cap place
recombine-splice p ids u = rw (dedupe_unique ids u) (by_zone p.drop_zone)
  where
    cap : ℕ
    cap = normalize_cap p.cap

    index : List String → ℕ
    index zone = resolve_insert_index zone p.drop_target_view_id p.drop_index

    by_zone :
        (zone : DropZone)
        → recombine zone
            (record { visible_view_ids = take cap ids; overflow_view_ids = drop cap ids })
            p.dragged_view_id
            p.drop_target_view_id
            p.drop_index
          ≡ splice
              (elim zone [
                | visible ↦ index (take cap ids)
                | overflow ↦ length (take cap ids) + index (drop cap ids)
              ])
              p.dragged_view_id
              ids
    by_zone visible =
        splice-left (index (take cap ids)) p.dragged_view_id (take cap ids) (drop cap ids)
          (resolve_insert_index-bound (take cap ids) p.drop_target_view_id p.drop_index)
        ∙ ap (splice (index (take cap ids)) p.dragged_view_id) (take-append-drop cap ids)
    by_zone overflow =
        splice-right (index (drop cap ids)) p.dragged_view_id (take cap ids) (drop cap ids)
        ∙ ap (splice (length (take cap ids) + index (drop cap ids)) p.dragged_view_id)
            (take-append-drop cap ids)

not_in_others :
    (a : String) (ids : List String) → includes a (filter (λ id. not (str_eq id a)) ids) ≡ false
not_in_others a ids = ground (arith, includes-filter a (λ id. not (str_eq id a)) ids, eq_refl a)

-- A drag of a listed tab leaves the other tabs in order, each once, and puts the dragged one
-- among them at its place in the drop zone; a drag of an unknown tab only drops repetitions.
pub build_reordered-splice :
    (p : ReorderParams)
    → build_reordered_view_ids p ≡ (
        if includes p.dragged_view_id (dedupe p.ordered_view_ids)
        then splice (place p (others_of p)) p.dragged_view_id (others_of p)
        else dedupe p.ordered_view_ids)
unfolding build_reordered_view_ids
build_reordered-splice p =
    ap
      (λ l.
        if includes p.dragged_view_id (dedupe p.ordered_view_ids)
        then l
        else dedupe p.ordered_view_ids)
      (split_join recombined (normalize_cap p.cap) (subst IsUnique (sym joined) unique) ∙ joined)
  where
    others_unique : IsUnique (others_of p)
    others_unique =
        filter-IsUnique _ (dedupe p.ordered_view_ids) (dedupe-IsUnique p.ordered_view_ids)

    recombined : List String
    recombined =
        recombine p.drop_zone (split_at_cap (others_of p) (normalize_cap p.cap)) p.dragged_view_id
          p.drop_target_view_id p.drop_index

    joined : recombined ≡ splice (place p (others_of p)) p.dragged_view_id (others_of p)
    joined = recombine-splice p (others_of p) others_unique

    unique : IsUnique (splice (place p (others_of p)) p.dragged_view_id (others_of p))
    unique =
        splice-IsUnique (place p (others_of p)) p.dragged_view_id (others_of p)
          (not_in_others p.dragged_view_id (dedupe p.ordered_view_ids)) others_unique

-- A drag loses no tab, makes none up and repeats none.
pub build_reordered-ids :
    (p : ReorderParams)
    → IsUnique (build_reordered_view_ids p)
      × ((id : String) → includes id (build_reordered_view_ids p) ≡ includes id p.ordered_view_ids)
build_reordered-ids p = rw (build_reordered-splice p) (
    if_rule (λ l. IsUnique l × ((id : String) → includes id l ≡ includes id p.ordered_view_ids))
      (includes p.dragged_view_id unique_ids)
      (λ listed. (
        splice-IsUnique (place p (others_of p)) p.dragged_view_id (others_of p)
            (not_in_others p.dragged_view_id unique_ids)
            (filter-IsUnique _ unique_ids (dedupe-IsUnique p.ordered_view_ids)),
        λ id. ground (
          arith,
          includes-splice (place p (others_of p)) p.dragged_view_id id (others_of p),
          includes-filter id (λ j. not (str_eq j p.dragged_view_id)) unique_ids,
          includes-dedupe id p.ordered_view_ids,
          eq_iff id p.dragged_view_id,
        ),
      ))
      λ _. (dedupe-IsUnique p.ordered_view_ids, λ id. includes-dedupe id p.ordered_view_ids))
  where
    unique_ids : List String
    unique_ids = dedupe p.ordered_view_ids
