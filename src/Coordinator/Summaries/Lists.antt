-- ===== src/Coordinator/Summaries/Lists.antt =====
-- A new list of sources brings the summaries in agreement with it.
use glanceus.Prelude.{
  ◌∙◌, sym, ◌≡◌, refl, String, eq_iff, Bool, true, false, none, some, List, [], ◌∷◌, arith,
  if◌then◌else◌, Bool-cases, inl, inr, ◌⊎◌, includes, IsUnique,
}
use glanceus.Prelude.Dict.{lookup, has, set, lookup-set, lookup-delete, has-lookup}
use glanceus.Coordinator.State.{SourceUpdateCoordinator, Summary}
use glanceus.Coordinator.Snapshot.{
  find_source, set_summaries, ids_of, forget_source, forget_missing, apply_sources_snapshot,
}
use glanceus.Coordinator.Forget.{forget_missing-IsForgotten, has-set_summaries}
use glanceus.Coordinator.Summaries.Writes.{AgreesIn}

find_source-unlisted :
    (id : String) (ss : List Summary) → includes id (ids_of ss) ≡ false → find_source id ss ≡ none
find_source-unlisted id [] h = refl
find_source-unlisted id (s ∷ ss) h =
    ground (arith, eq_iff s.id id, eq_iff id s.id, find_source-unlisted id ss)

find_source-listed :
    (id : String) (s : Summary) (ss : List Summary)
    → find_source id ss ≡ some s
    → includes id (ids_of ss) ≡ true
find_source-listed id s [] e = cc
find_source-listed id s (t ∷ ss) e =
    ground (arith, eq_iff t.id id, eq_iff id t.id, find_source-listed id s ss)

lookup-set_summaries :
    (id : String) (ss : List Summary) (m : List (String × Summary))
    → IsUnique (ids_of ss)
    → lookup id (set_summaries ss m)
      ≡ (if includes id (ids_of ss) then find_source id ss else lookup id m)
lookup-set_summaries id [] m u = refl
lookup-set_summaries id (s ∷ ss) m u = ground (
  arith,
  eq_iff s.id id,
  eq_iff id s.id,
  lookup-set s.id id s m,
  lookup-set_summaries id ss (set s.id s m) u.1,
)

-- A listed source keeps its summary, and no other one gets one.
lookup-forget_missing :
    (latest : List String) (previous : List (String × Summary)) (c : SourceUpdateCoordinator)
    (id : String)
    → (lookup id (forget_missing latest previous c).summary_by_id ≡ lookup id c.summary_by_id)
      ⊎ ((lookup id (forget_missing latest previous c).summary_by_id ≡ none)
          × (includes id latest ≡ false))
unfolding forget_source
lookup-forget_missing latest [] c id = inl refl
lookup-forget_missing latest ((j, s) ∷ rest) c id = elim (Bool-cases (includes j latest)) [
  | inl listed ↦ rw (listed, forget_missing) (lookup-forget_missing latest rest c id)
  | inr missing ↦ ground (
    arith,
    eq_iff j id,
    lookup-delete j id c.summary_by_id,
    lookup-forget_missing latest rest (forget_source c j) id,
  )
]

pub apply_sources_snapshot-AgreesIn :
    (polled : Bool) (latest : List Summary) (force_all : Bool) (c : SourceUpdateCoordinator)
    → IsUnique (ids_of latest)
    → AgreesIn polled c.snapshot.sources c.summary_by_id
    → let d = (apply_sources_snapshot latest force_all c).0 in
      AgreesIn true d.snapshot.sources d.summary_by_id
unfolding apply_sources_snapshot
apply_sources_snapshot-AgreesIn polled latest force_all c u v id =
    elim (Bool-cases (includes id (ids_of latest))) [
      | inl listed ↦ elim forgotten [
        | inl kept ↦ inr (ground (arith, kept, listed, recorded))
        | inr (gone, unlisted) ↦ absurd (ground (arith, listed, unlisted))
      ]
      | inr missing ↦ elim (Bool-cases (has id previous)) [
        | inl before ↦ inr (
            has-lookup id (forget_missing (ids_of latest) previous applied).summary_by_id
              (forget_missing-IsForgotten (ids_of latest) previous applied id before missing).2
            ∙ sym (find_source-unlisted id latest missing))
        | inr unknown ↦ elim forgotten [
          | inl kept ↦ inr (
              ground (
                arith,
                kept,
                missing,
                recorded,
                v id,
                find_source-unlisted id c.snapshot.sources,
                find_source-unlisted id latest,
                has-set_summaries id c.snapshot.sources [],
                unknown,
              ))
          | inr (gone, unlisted) ↦ inr (gone ∙ sym (find_source-unlisted id latest missing))
        ]
      ]
    ]
  where
    previous : List (String × Summary)
    previous = set_summaries c.snapshot.sources []

    applied : SourceUpdateCoordinator
    applied = record c { summary_by_id = set_summaries latest c.summary_by_id }

    recorded :
        lookup id (set_summaries latest c.summary_by_id)
        ≡ (if includes id (ids_of latest) then find_source id latest else lookup id c.summary_by_id)
    recorded = lookup-set_summaries id latest c.summary_by_id u

    forgotten :
        (lookup id (forget_missing (ids_of latest) previous applied).summary_by_id
          ≡ lookup id (set_summaries latest c.summary_by_id))
        ⊎ ((lookup id (forget_missing (ids_of latest) previous applied).summary_by_id ≡ none)
            × (includes id (ids_of latest) ≡ false))
    forgotten = lookup-forget_missing (ids_of latest) previous applied id
