-- ===== src/Coordinator/Summaries/Writes.antt =====
-- An event's status and a committed detail keep the snapshot and the summaries in agreement.
use glanceus.Prelude.{
  ◌≡◌, refl, String, str_eq, Bool, false, eq_iff, eq_refl, Option, none, some, List, [], ◌∷◌, arith,
  if◌then◌else◌, if_rule, Option-cases, Bool-cases, inl, inr, ◌⊎◌,
}
use glanceus.Prelude.Value.{Value}
use glanceus.Prelude.Dict.{lookup, set, lookup-set}
use glanceus.Coordinator.State.{SourceUpdateCoordinator, Detail, Summary}
use glanceus.Coordinator.Merge.{
  merge_summary_with_detail, should_write_back, resolve_updated_at, written_back,
  apply_event_status, read,
}
use glanceus.Coordinator.Snapshot.{map_source, find_source, record_event_status, write_detail}

-- A source has the summary that the list of sources has of it, or none if it has none; or, before
-- the first poll has come in, it may have none yet.
abbrev pub AgreesIn : Bool → List Summary → List (String × Summary) → Type 0
AgreesIn polled sources summaries =
    (id : String)
    → ((polled ≡ false) × (lookup id summaries ≡ none))
      ⊎ (lookup id summaries ≡ find_source id sources)

abbrev map_found : (Summary → Summary) → Option Summary → Option Summary
map_found f none = none
map_found f (some s) = some (f s)

find_source-map_source :
    (id j : String) (f : Summary → Summary) (ss : List Summary)
    → ((s : Summary) → (f s).id ≡ s.id)
    → find_source j (map_source id f ss)
      ≡ (if str_eq id j then map_found f (find_source j ss) else find_source j ss)
find_source-map_source id j f [] k = ground arith
find_source-map_source id j f (s ∷ ss) k =
    ground
      (arith, k s, eq_iff s.id id, eq_iff s.id j, eq_iff id j, find_source-map_source id j f ss k)

merge_summary_with_detail-id :
    (detail : Detail) (s : Summary) → (merge_summary_with_detail s detail).id ≡ s.id
unfolding merge_summary_with_detail written_back
merge_summary_with_detail-id detail s =
    if_rule (λ (m : Summary). m.id ≡ s.id)
      (should_write_back (resolve_updated_at (read "updated_at" detail) s.updated_at) s.updated_at)
      (λ _. refl) (λ _. refl)

apply_event_status-id :
    (status : Value) (code : Option Value) (s : Summary)
    → (apply_event_status status code s).id ≡ s.id
unfolding apply_event_status
apply_event_status-id status code s = refl

-- The listed source is changed and, if it has one, its summary.
abbrev with_current :
    String
    → (Summary → Summary)
    → Option Summary
    → List (String × Summary)
    → List (String × Summary)
with_current id f none m = m
with_current id f (some current) m = set id (f current) m

module _ (polled : Bool) where
  changed-AgreesIn :
      (id : String) (f : Summary → Summary) (ss : List Summary) (m : List (String × Summary))
      → ((s : Summary) → (f s).id ≡ s.id)
      → AgreesIn polled ss m
      → AgreesIn polled (map_source id f ss) (with_current id f (lookup id m) m)
  changed-AgreesIn id f ss m k v j = elim (Bool-cases (str_eq id j)) [
    | inl same ↦ elim (Option-cases (lookup id m)) [
      | inl e ↦ rw e (elim (v id) [
        | inl (off, absent) ↦ inl (off, ground (arith, eq_iff id j))
        | inr present ↦
            inr (ground (arith, e, present, eq_iff id j, find_source-map_source id j f ss k))
      ])
      | inr (current, e) ↦ rw e (elim (v id) [
        | inl (off, absent) ↦ absurd (ground (arith, absent, e))
        | inr present ↦ inr (
            ground (
              arith,
              e,
              present,
              eq_iff id j,
              lookup-set id j (f current) m,
              find_source-map_source id j f ss k,
            ))
      ])
    ]
    | inr other ↦ elim (Option-cases (lookup id m)) [
      | inl e ↦ rw (e, find_source-map_source id j f ss k, other) (v j)
      | inr (current, e) ↦
          rw (e, find_source-map_source id j f ss k, lookup-set id j (f current) m, other) (v j)
    ]
  ]

  -- The listed source is changed, and becomes its summary.
  abbrev with_found : String → Option Summary → List (String × Summary) → List (String × Summary)
  with_found id none m = m
  with_found id (some merged) m = set id merged m

  found-AgreesIn :
      (id : String) (f : Summary → Summary) (ss : List Summary) (m : List (String × Summary))
      → ((s : Summary) → (f s).id ≡ s.id)
      → AgreesIn polled ss m
      → AgreesIn polled (map_source id f ss) (with_found id (find_source id (map_source id f ss)) m)
  found-AgreesIn id f ss m k v j = elim (Option-cases (find_source id (map_source id f ss))) [
    | inl e ↦ rw e (elim (Bool-cases (str_eq id j)) [
      | inl same ↦ elim (v id) [
        | inl (off, absent) ↦ inl (off, ground (arith, eq_iff id j))
        | inr present ↦ inr (
            ground (
              arith,
              present,
              eq_iff id j,
              e,
              find_source-map_source id id f ss k,
              find_source-map_source id j f ss k,
              eq_refl id,
            ))
      ]
      | inr other ↦ rw (find_source-map_source id j f ss k, other) (v j)
    ])
    | inr (merged, e) ↦ rw e (elim (Bool-cases (str_eq id j)) [
      | inl same ↦ inr (ground (arith, eq_iff id j, lookup-set id j merged m, e))
      | inr other ↦ rw (lookup-set id j merged m, find_source-map_source id j f ss k, other) (v j)
    ])
  ]

  pub record_event_status-AgreesIn :
      (id : String) (status : Value) (code : Option Value) (c : SourceUpdateCoordinator)
      → AgreesIn polled c.snapshot.sources c.summary_by_id
      → let d = record_event_status id status code c in
        AgreesIn polled d.snapshot.sources d.summary_by_id
  unfolding record_event_status
  record_event_status-AgreesIn id status code c v = recorded (lookup id c.summary_by_id) (
      changed-AgreesIn id (apply_event_status status code) c.snapshot.sources c.summary_by_id
        (apply_event_status-id status code) v)
    where
      recorded :
          (o : Option Summary)
          → AgreesIn polled
              (map_source id (apply_event_status status code) c.snapshot.sources)
              (with_current id (apply_event_status status code) o c.summary_by_id)
          → AgreesIn polled
              (map_source id (apply_event_status status code) c.snapshot.sources)
              (elim o [
                | none ↦ c.summary_by_id
                | some current ↦ set id (apply_event_status status code current) c.summary_by_id
              ])
      recorded none h = h
      recorded (some current) h = h

  pub write_detail-AgreesIn :
      (id : String) (detail : Detail) (c : SourceUpdateCoordinator)
      → AgreesIn polled c.snapshot.sources c.summary_by_id
      → let d = write_detail id detail c in AgreesIn polled d.snapshot.sources d.summary_by_id
  unfolding write_detail
  write_detail-AgreesIn id detail c v =
      written
        (find_source id
          (map_source id (λ s. merge_summary_with_detail s detail) c.snapshot.sources))
        (found-AgreesIn id (λ s. merge_summary_with_detail s detail) c.snapshot.sources
          c.summary_by_id (merge_summary_with_detail-id detail) v)
    where
      written :
          (o : Option Summary)
          → AgreesIn polled
              (map_source id (λ s. merge_summary_with_detail s detail) c.snapshot.sources)
              (with_found id o c.summary_by_id)
          → AgreesIn polled
              (map_source id (λ s. merge_summary_with_detail s detail) c.snapshot.sources)
              (elim o [ none ↦ c.summary_by_id | some merged ↦ set id merged c.summary_by_id ])
      written none h = h
      written (some merged) h = h
