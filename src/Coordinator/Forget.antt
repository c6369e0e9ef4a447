-- ===== src/Coordinator/Forget.antt =====
-- What a fresh list of sources does to the state.
use glanceus.Prelude.{
  ◌≡◌, refl, String, str_eq, eq_iff, Bool, true, false, ◌||◌, none, List, [], ◌∷◌, arith,
  if◌then◌else◌, Bool-cases, inl, inr, includes, subst, sym,
}
use glanceus.Prelude.Dict.{lookup, has, set, has-set, has-delete}
use glanceus.Coordinator.State.{SourceUpdateCoordinator, Detail, Summary}
use glanceus.Coordinator.Snapshot.{
  apply_sources_snapshot, forget_missing, forget_source, keep_allowed, set_summaries, ids_of,
}

-- Nothing of this source is left in the queue, the runtimes and the summaries.
abbrev pub IsForgotten : String → SourceUpdateCoordinator → Type 0
IsForgotten id c =
    (has id c.queue ≡ false) × (has id c.source_runtime ≡ false) × (has id c.summary_by_id ≡ false)

forget_source-IsForgotten :
    (c : SourceUpdateCoordinator) (id : String) → IsForgotten id (forget_source c id)
unfolding forget_source
forget_source-IsForgotten c id = (
  ground (arith, has-delete id id c.queue, eq_iff id id),
  ground (arith, has-delete id id c.source_runtime, eq_iff id id),
  ground (arith, has-delete id id c.summary_by_id, eq_iff id id),
)

forget_source-keeps :
    (c : SourceUpdateCoordinator) (j id : String)
    → IsForgotten id c
    → IsForgotten id (forget_source c j)
unfolding forget_source
forget_source-keeps c j id f = (
  ground (arith, has-delete j id c.queue, f.0),
  ground (arith, has-delete j id c.source_runtime, f.1),
  ground (arith, has-delete j id c.summary_by_id, f.2),
)

forget_missing-keeps :
    (latest : List String) (previous : List (String × Summary)) (c : SourceUpdateCoordinator)
    (id : String)
    → IsForgotten id c
    → IsForgotten id (forget_missing latest previous c)
forget_missing-keeps latest [] c id f = f
forget_missing-keeps latest ((j, s) ∷ rest) c id f =
    forget_missing-keeps latest rest _ id
      (elim (includes j latest) as (λ b. IsForgotten id (if b then c else forget_source c j)) [
        | true ↦ f
        | false ↦ forget_source-keeps c j id f
      ])

pub forget_missing-IsForgotten :
    (latest : List String) (previous : List (String × Summary)) (c : SourceUpdateCoordinator)
    (id : String)
    → has id previous ≡ true
    → includes id latest ≡ false
    → IsForgotten id (forget_missing latest previous c)
forget_missing-IsForgotten latest [] c id h k = cc
forget_missing-IsForgotten latest ((j, s) ∷ rest) c id h k = elim (Bool-cases (str_eq j id)) [
  | inl same ↦ forget_missing-keeps latest rest _ id (
      subst (λ i. IsForgotten id (if includes i latest then c else forget_source c i))
        (sym ((eq_iff j id).0 same))
        (subst (λ b. IsForgotten id (if b then c else forget_source c id)) (sym k)
          (forget_source-IsForgotten c id)))
  | inr other ↦ forget_missing-IsForgotten latest rest _ id (ground arith) k
]

pub has-set_summaries :
    (id : String) (ss : List Summary) (m : List (String × Summary))
    → has id (set_summaries ss m) ≡ (includes id (ids_of ss) || has id m)
has-set_summaries id [] m = refl
has-set_summaries id (s ∷ ss) m = ground (
  arith,
  has-set_summaries id ss (set s.id s m),
  has-set s.id id s m,
  eq_iff id s.id,
  eq_iff s.id id,
)

lookup-keep_allowed :
    (id : String) (allowed : List String) (m : List (String × Detail))
    → lookup id (keep_allowed allowed m) ≡ (if includes id allowed then lookup id m else none)
lookup-keep_allowed id allowed [] = ground arith
lookup-keep_allowed id allowed ((j, d) ∷ m) =
    ground (arith, eq_iff j id, lookup-keep_allowed id allowed m)

-- Once a list of sources is applied, the snapshot holds that list and, of the details, those of
-- listed sources unchanged; a source that was in the snapshot and is not listed is forgotten.
pub apply_sources_snapshot_lem :
    (latest : List Summary) (force_all : Bool) (c : SourceUpdateCoordinator) (id : String)
    → let d = (apply_sources_snapshot latest force_all c).0 in
      (d.snapshot.sources ≡ latest)
      × (lookup id d.snapshot.data_map
          ≡ (if includes id (ids_of latest) then lookup id c.snapshot.data_map else none))
      × (includes id (ids_of c.snapshot.sources) ≡ true
          → includes id (ids_of latest) ≡ false
          → IsForgotten id d)
unfolding apply_sources_snapshot
apply_sources_snapshot_lem latest force_all c id = (
  refl,
  lookup-keep_allowed id (ids_of latest) c.snapshot.data_map,
  λ h k.
      forget_missing-IsForgotten (ids_of latest) (set_summaries c.snapshot.sources []) _ id
        (ground (arith, has-set_summaries id c.snapshot.sources [])) k,
)
