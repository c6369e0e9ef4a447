-- ===== src/Coordinator/State.antt =====
-- The data of sourceUpdateCoordinator.ts and the small methods that read it. Times are whole
-- milliseconds and are passed in where the code calls Date.now.
use glanceus.Prelude.{
  ℕ, ◌-◌, ◌==◌, ltb, String, Bool, true, false, ◌||◌, Option, none, some, List, [], ◌∷◌, str_eq,
  if◌then◌else◌, index_of, max,
}
use glanceus.Prelude.Int.{Num, finite, ltb_ℤ}
use glanceus.Prelude.Value.{Value, undefined, number, string, object, or_undefined}
use glanceus.Prelude.Dict.{lookup, set}

pub data Trigger : Type 0 where
  bootstrap polling websocket manual view_change : Trigger

-- SourceSummary. `other_fields` are the ones that this file only carries along.
pub record Summary : Type 0 where
  pub id : String
  pub has_data : Bool
  pub updated_at : Value
  pub error : Value
  pub error_code : Value
  pub error_details : Value
  pub status : Value
  pub message : Value
  pub interaction : Value
  pub last_success_at : Value
  pub other_fields : List (String × Value)

-- DataResponse, by its own properties.
abbrev pub Detail : Type 0
Detail = List (String × Value)

pub record SourcesWithData : Type 0 where
  pub sources : List Summary
  pub data_map : List (String × Detail)

pub record QueueTask : Type 0 where
  pub source_id : String
  pub enqueue_seq : ℕ
  pub priority_tier : ℕ
  pub priority_order : ℕ
  pub manual_boost : Bool
  pub trigger : Trigger

-- `trailing_timer` holds the time at which the timer is due.
pub record SourceRuntimeState : Type 0 where
  pub in_flight : Bool
  pub needs_refetch : Bool
  pub manual_boost_pending : Bool
  pub active_request_id : ℕ
  pub last_submit_at : ℕ
  pub trailing_timer : Option ℕ
  pub trailing_pending : Bool
  pub trailing_force : Bool
  pub trailing_manual_boost : Bool
  pub trailing_trigger : Trigger

pub record PriorityContext : Type 0 where
  pub active_dashboard_source_ids : List String
  pub other_dashboard_source_ids : List String

-- A `runTask` that waits for its response.
pub record Fetch : Type 0 where
  pub task : QueueTask
  pub request_id : ℕ

-- A `pollNow` that waits for its response.
pub record Poll : Type 0 where
  pub trigger : Trigger
  pub force_all : Bool

-- The contexts given to handleError.
pub data ErrorContext : Type 0 where
  poll_sources_failed : ErrorContext
  fetch_source_detail_failed : String → ErrorContext

-- The class. `snapshot` is what getSnapshot reads and updateSnapshot updates, `fetches` and
-- `polls` are the promises that it has made, `errors` the contexts given to onError, latest first.
pub record SourceUpdateCoordinator : Type 0 where
  pub max_concurrency : ℕ
  pub poll_interval_ms : ℕ
  pub detail_throttle_ms : ℕ
  pub source_runtime : List (String × SourceRuntimeState)
  pub queue : List (String × QueueTask)
  pub summary_by_id : List (String × Summary)
  pub priority_context : PriorityContext
  pub running : Bool
  pub in_flight_count : ℕ
  pub next_enqueue_seq : ℕ
  pub next_request_id : ℕ
  pub poll_timer : Option ℕ
  pub snapshot : SourcesWithData
  pub fetches : List Fetch
  pub polls : List Poll
  pub errors : List ErrorContext

abbrev pub default_max_concurrency : ℕ
default_max_concurrency = 4

abbrev pub default_poll_interval_ms : ℕ
default_poll_interval_ms = 3000

abbrev pub default_detail_throttle_ms : ℕ
default_detail_throttle_ms = 800

abbrev pub or_default : Option ℕ → ℕ → ℕ
or_default none d = d
or_default (some n) d = n

-- The constructor, with the options that are whole numbers.
unfoldable pub new : Option ℕ → Option ℕ → Option ℕ → SourcesWithData → SourceUpdateCoordinator
new max_concurrency poll_interval_ms detail_throttle_ms snapshot = record {
  max_concurrency = max 1 (or_default max_concurrency default_max_concurrency);
  poll_interval_ms = max 1000 (or_default poll_interval_ms default_poll_interval_ms);
  detail_throttle_ms = max 0 (or_default detail_throttle_ms default_detail_throttle_ms);
  source_runtime = [];
  queue = [];
  summary_by_id = [];
  priority_context = record { active_dashboard_source_ids = []; other_dashboard_source_ids = [] };
  running = false;
  in_flight_count = 0;
  next_enqueue_seq = 1;
  next_request_id = 1;
  poll_timer = none;
  snapshot = snapshot;
  fetches = [];
  polls = [];
  errors = [];
}

-- toNumericTimestamp: `none` for null.
unfoldable pub to_numeric_timestamp : Value → Option Num
to_numeric_timestamp (number (finite z)) = some (finite z)
to_numeric_timestamp _ = none

-- `a < b` on numbers that toNumericTimestamp lets through.
abbrev pub ltb_Num : Num → Num → Bool
ltb_Num (finite a) (finite b) = ltb_ℤ a b
ltb_Num _ _ = false

unfoldable pub normalize_optional_string : Value → Value
normalize_optional_string (string s) = if str_eq s "" then undefined else string s
normalize_optional_string _ = undefined

unfoldable pub normalize_optional_interaction : Value → Value
normalize_optional_interaction (object o) = object o
normalize_optional_interaction _ = undefined

abbrev pub fresh_runtime : SourceRuntimeState
fresh_runtime = record {
  in_flight = false;
  needs_refetch = false;
  manual_boost_pending = false;
  active_request_id = 0;
  last_submit_at = 0;
  trailing_timer = none;
  trailing_pending = false;
  trailing_force = false;
  trailing_manual_boost = false;
  trailing_trigger = polling;
}

-- getOrCreateRuntimeState returns `runtime_of`; what the caller then writes to that object is
-- stored by `put_runtime`, which also creates the entry.
abbrev pub runtime_in : String → List (String × SourceRuntimeState) → SourceRuntimeState
runtime_in source_id runtimes = elim (lookup source_id runtimes) [
  | none ↦ fresh_runtime
  | some existing ↦ existing
]

unfoldable pub runtime_of : String → SourceUpdateCoordinator → SourceRuntimeState
runtime_of source_id c = runtime_in source_id c.source_runtime

unfoldable pub put_runtime :
    String → SourceRuntimeState → SourceUpdateCoordinator → SourceUpdateCoordinator
put_runtime source_id state c = record c { source_runtime = set source_id state c.source_runtime }

-- MAX_SAFE_INTEGER.
abbrev pub max_safe_integer : ℕ
max_safe_integer = 9_007_199_254_740_991

unfoldable pub resolve_priority : String → PriorityContext → ℕ × ℕ
resolve_priority source_id context = elim (index_of source_id context.active_dashboard_source_ids) [
  | some active_index ↦ (1, active_index)
  | none ↦ elim (index_of source_id context.other_dashboard_source_ids) [
    | some other_index ↦ (2, other_index)
    | none ↦ (3, max_safe_integer)
  ]
]

unfoldable pub should_throttle : ℕ → SourceRuntimeState → SourceUpdateCoordinator → Bool
should_throttle now state c =
    if c.detail_throttle_ms == 0 || state.last_submit_at == 0
    then false
    else ltb (now - state.last_submit_at) c.detail_throttle_ms

-- resetTrailingState.
unfoldable pub reset_trailing_state : Bool → SourceRuntimeState → SourceRuntimeState
reset_trailing_state clear_timer state = record state {
  trailing_timer = if clear_timer then none else state.trailing_timer;
  trailing_pending = false;
  trailing_force = false;
  trailing_manual_boost = false;
  trailing_trigger = polling;
}

unfoldable pub needs_fetch : String → SourceUpdateCoordinator → Bool
unfolding to_numeric_timestamp
needs_fetch source_id c = elim (lookup source_id c.snapshot.data_map) [
  | none ↦ true
  | some detail ↦ elim (lookup source_id c.summary_by_id) [
    | none ↦ false
    | some summary ↦ elim (to_numeric_timestamp summary.updated_at) [
      | none ↦ true
      | some summary_updated_at ↦
          elim (to_numeric_timestamp (or_undefined (lookup "updated_at" detail))) [
            | none ↦ true
            | some detail_updated_at ↦ ltb_Num detail_updated_at summary_updated_at
          ]
    ]
  ]
]

-- handleError.
unfoldable pub handle_error : ErrorContext → SourceUpdateCoordinator → SourceUpdateCoordinator
handle_error context c = record c { errors = context ∷ c.errors }
