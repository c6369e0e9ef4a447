-- ===== src/Coordinator/Snapshot.antt =====
-- What sourceUpdateCoordinator.ts writes to the snapshot and its summaries: a list of sources, the
-- status of a websocket event, and a fetched detail.
use glanceus.Prelude.{
  ℕ, ◌==◌, String, Bool, true, false, not, ◌||◌, Option, none, some, List, [], ◌∷◌, map,
  if◌then◌else◌, str_eq, filter, includes,
}
use glanceus.Prelude.Value.{Value, strict_eq}
use glanceus.Prelude.Dict.{lookup, set, delete}
use glanceus.Coordinator.State.{
  SourceUpdateCoordinator, Summary, Detail, runtime_of, put_runtime, to_numeric_timestamp, ltb_Num,
}
use glanceus.Coordinator.Merge.{merge_summary_with_detail, apply_event_status, read}

-- new Map(sources.map((s) => [s.id, s])), and a loop of `set`.
abbrev pub set_summaries : List Summary → List (String × Summary) → List (String × Summary)
set_summaries [] m = m
set_summaries (s ∷ ss) m = set_summaries ss (set s.id s m)

-- The test of applySourcesSnapshot for a source that was there before.
unfoldable pub has_changed : Bool → Option Summary → Summary → Bool
has_changed force_all none source = true
has_changed force_all (some previous) source =
    force_all
    || not (strict_eq previous.updated_at source.updated_at)
    || not (strict_eq previous.status source.status)
    || not (strict_eq previous.error_code source.error_code)

abbrev pub ids_of : List Summary → List String
ids_of = map λ s. s.id

abbrev pub changed_ids : Bool → List (String × Summary) → List Summary → List String
changed_ids force_all previous_by_id sources =
    ids_of (filter (λ s. has_changed force_all (lookup s.id previous_by_id) s) sources)

-- What happens to a source that the latest list lacks.
unfoldable pub forget_source : SourceUpdateCoordinator → String → SourceUpdateCoordinator
forget_source c id = record c {
  summary_by_id = delete id c.summary_by_id;
  queue = delete id c.queue;
  source_runtime = delete id c.source_runtime;
}

abbrev pub forget_missing :
    List String → List (String × Summary) → SourceUpdateCoordinator → SourceUpdateCoordinator
forget_missing latest [] c = c
forget_missing latest ((id, previous) ∷ rest) c =
    forget_missing latest rest (if includes id latest then c else forget_source c id)

abbrev pub keep_allowed : List String → List (String × Detail) → List (String × Detail)
keep_allowed allowed = filter λ e. includes (e.0) allowed

-- applySourcesSnapshot: the new state, and the ids to submit.
unfoldable pub apply_sources_snapshot :
    List Summary → Bool → SourceUpdateCoordinator → SourceUpdateCoordinator × List String
unfolding has_changed forget_source
apply_sources_snapshot latest force_all c =
    let previous_by_id = set_summaries c.snapshot.sources [] in
    let latest_ids = ids_of latest in
    let recorded = record c { summary_by_id = set_summaries latest c.summary_by_id } in
    let kept = forget_missing latest_ids previous_by_id recorded in
    (
      record kept {
        snapshot = record {
          sources = latest;
          data_map = keep_allowed latest_ids c.snapshot.data_map;
        };
      },
      changed_ids force_all previous_by_id latest,
    )

abbrev pub map_source : String → (Summary → Summary) → List Summary → List Summary
map_source id f [] = []
map_source id f (s ∷ ss) = (if str_eq s.id id then f s else s) ∷ map_source id f ss

abbrev pub find_source : String → List Summary → Option Summary
find_source id [] = none
find_source id (s ∷ ss) = if str_eq s.id id then some s else find_source id ss

-- The two updates of handleWebSocketEvent: the snapshot's sources and the summary.
unfoldable pub record_event_status :
    String → Value → Option Value → SourceUpdateCoordinator → SourceUpdateCoordinator
unfolding apply_event_status
record_event_status source_id status error_code c = record c {
  snapshot = record {
    sources = map_source source_id (apply_event_status status error_code) c.snapshot.sources;
    data_map = c.snapshot.data_map;
  };
  summary_by_id = elim (lookup source_id c.summary_by_id) [
    | none ↦ c.summary_by_id
    | some current ↦ set source_id (apply_event_status status error_code current) c.summary_by_id
  ];
}

-- The test of commitDetail for a detail that is older than the summary.
unfoldable pub is_outdated : Detail → Option Summary → Bool
unfolding to_numeric_timestamp
is_outdated detail none = false
is_outdated detail (some summary) = elim (to_numeric_timestamp (read "updated_at" detail)) [
  | none ↦ false
  | some d ↦ elim (to_numeric_timestamp summary.updated_at) [ none ↦ false | some s ↦ ltb_Num d s ]
]

-- The update of the snapshot in commitDetail.
unfoldable pub write_detail : String → Detail → SourceUpdateCoordinator → SourceUpdateCoordinator
write_detail source_id detail c =
    let sources =
      map_source source_id (λ s. merge_summary_with_detail s detail) c.snapshot.sources in
    record c {
      snapshot = record { sources = sources; data_map = set source_id detail c.snapshot.data_map };
      summary_by_id = elim (find_source source_id sources) [
        | none ↦ c.summary_by_id
        | some merged ↦ set source_id merged c.summary_by_id
      ];
    }

-- commitDetail.
unfoldable pub commit_detail :
    String → Detail → ℕ → SourceUpdateCoordinator → SourceUpdateCoordinator
unfolding is_outdated write_detail
commit_detail source_id detail request_id c =
    let runtime = runtime_of source_id c in
    let created = put_runtime source_id runtime c in
    if not (runtime.active_request_id == request_id)
    then created
    else if is_outdated detail (lookup source_id c.summary_by_id)
    then put_runtime source_id (record runtime { needs_refetch = true }) c
    else write_detail source_id detail created
