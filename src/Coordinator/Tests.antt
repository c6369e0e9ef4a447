-- ===== src/Coordinator/Tests.antt =====
-- Runs of the coordinator, and its theorems at concrete states.
use glanceus.Prelude.{
  ℕ, ◌≡◌, refl, String, true, false, ◌⊎◌, none, some, List, [], ◌∷◌, map, includes,
}
use glanceus.Prelude.Value.{undefined, null, number, string, object, strict_eq}
use glanceus.Prelude.Int.{finite, pos}
use glanceus.Prelude.Dict.{lookup}
use glanceus.Prelude.Sort.{sort}
use glanceus.Coordinator.State.{
  manual, Summary, Detail, SourcesWithData, SourceUpdateCoordinator, new, runtime_of,
  reset_trailing_state, to_numeric_timestamp, normalize_optional_string, should_throttle,
  needs_fetch, resolve_priority, put_runtime,
}
use glanceus.Coordinator.Merge.{
  merge_summary_with_detail, written_back, should_write_back, resolve_updated_at,
}
use glanceus.Coordinator.Merge.Laws.{merge_twice, merge-IsNotBefore, IsNotBefore}
use glanceus.Coordinator.Queue.{not_after, pump_queue, pump_one}
use glanceus.Coordinator.Submit.{SubmitOptions, submit_sources}
use glanceus.Coordinator.Events.{
  Event, step, run, poll_answered, started, submitted, fetch_answers, poll_ticked, poll_answers,
  found, fetch_answered,
}
use glanceus.Coordinator.Snapshot.{commit_detail, apply_sources_snapshot, ids_of}
use glanceus.Coordinator.Invariant.Defs.{Inv}
use glanceus.Coordinator.Invariant.Events.{run-new-Inv}
use glanceus.Coordinator.Progress.{pump_queue_busy, StartsFirst, pump_one-StartsFirst}
use glanceus.Coordinator.Submitted.{IsTracked}
use glanceus.Coordinator.Submitted.Forced.{submit_sources-IsTracked}
use glanceus.Coordinator.Forget.{IsForgotten, apply_sources_snapshot_lem}

abbrev source : String → Summary
source id = record {
  id = id;
  has_data = false;
  updated_at = number (finite (pos 5));
  error = string "timeout";
  error_code = undefined;
  error_details = string "timeout";
  status = string "error";
  message = undefined;
  interaction = undefined;
  last_success_at = null;
  other_fields = [];
}

abbrev two_sources : SourcesWithData
two_sources = record { sources = source "a" ∷ source "b" ∷ []; data_map = [] }

abbrev forced : SubmitOptions
forced = record { trigger = manual; force = true; manual_boost = false; bypass_throttle = false }

abbrev opening : List (ℕ × Event)
opening = (100, started) ∷ (110, submitted ("a" ∷ "b" ∷ "a" ∷ []) forced) ∷ []

-- One slot: `a` is in flight and `b` waits.
abbrev busy : SourceUpdateCoordinator
busy = run (new (some 1) none none two_sources) opening

busy_count : busy.in_flight_count ≡ 1
unfolding run new submit_sources pump_queue pump_one needs_fetch runtime_of resolve_priority
    should_throttle sort reset_trailing_state not_after put_runtime
busy_count = refl

busy_queue : map (λ e. e.0) busy.queue ≡ "b" ∷ []
unfolding run new submit_sources pump_queue pump_one needs_fetch runtime_of resolve_priority
    should_throttle sort reset_trailing_state not_after put_runtime
busy_queue = refl

busy_runs : busy.running ≡ true
unfolding run new submit_sources pump_queue pump_one needs_fetch runtime_of resolve_priority
    should_throttle sort reset_trailing_state not_after put_runtime
busy_runs = refl

abbrev fresh_detail : Detail
fresh_detail =
    ("updated_at", number (finite (pos 7))) ∷ ("status", string "active") ∷ ("data", object 1) ∷ []

-- The answer for `a` clears its error, and frees the slot for `b`.
abbrev answered : SourceUpdateCoordinator
answered = step busy (120, fetch_answers 0 (found fresh_detail))

answered_error : map (λ s. s.error) answered.snapshot.sources ≡ undefined ∷ string "timeout" ∷ []
unfolding run new submit_sources pump_queue pump_one needs_fetch runtime_of resolve_priority
    should_throttle sort reset_trailing_state not_after put_runtime step fetch_answered
    merge_summary_with_detail written_back should_write_back resolve_updated_at to_numeric_timestamp
    normalize_optional_string commit_detail strict_eq
answered_error = refl

run-new-Inv_example : Inv busy
run-new-Inv_example = run-new-Inv (some 1) none none two_sources opening

pump_queue_busy_example :
    ((pump_queue busy).queue ≡ [])
    ⊎ ((pump_queue busy).in_flight_count ≡ (pump_queue busy).max_concurrency)
pump_queue_busy_example =
    pump_queue_busy busy (run-new-Inv (some 1) none none two_sources opening) busy_runs

pump_one-StartsFirst_example : StartsFirst busy
unfolding run new submit_sources pump_queue pump_one needs_fetch runtime_of resolve_priority
    should_throttle sort reset_trailing_state not_after put_runtime
pump_one-StartsFirst_example =
    pump_one-StartsFirst busy (run-new-Inv (some 1) none none two_sources opening) refl

submit_sources-IsTracked_example :
    IsTracked busy.next_request_id "b" (submit_sources 115 ("a" ∷ "b" ∷ []) forced busy)
submit_sources-IsTracked_example =
    submit_sources-IsTracked 115 ("a" ∷ "b" ∷ []) forced busy "b" refl refl

-- After a stop the request for `a` is answered, a poll timer would tick, and `b` is submitted.
abbrev closing : List (ℕ × Event)
closing =
    (140, fetch_answers 0 (found fresh_detail))
    ∷ (150, poll_ticked)
    ∷ (160, submitted ("b" ∷ []) forced)
    ∷ []

abbrev opened : SourceUpdateCoordinator
opened = run (new (some 1) none none two_sources) ((100, started) ∷ [])

-- The detail of `a` comes in after the first poll has listed both sources.
abbrev detailing : List (ℕ × Event)
detailing = (110, submitted ("a" ∷ []) forced) ∷ (120, fetch_answers 0 (found fresh_detail)) ∷ []

abbrev listed : SourceUpdateCoordinator
listed = run (step opened (105, poll_answers 0 (some (source "a" ∷ source "b" ∷ [])))) detailing

-- The error is cleared in the summary of `a` as well.
listed_error : map (λ e. (e.1).error) listed.summary_by_id ≡ undefined ∷ string "timeout" ∷ []
unfolding run new submit_sources pump_queue pump_one needs_fetch runtime_of resolve_priority
    should_throttle sort reset_trailing_state not_after put_runtime step fetch_answered
    merge_summary_with_detail written_back should_write_back resolve_updated_at to_numeric_timestamp
    normalize_optional_string commit_detail strict_eq poll_answered
listed_error = refl

apply_sources_snapshot_lem_example :
    let d = (apply_sources_snapshot (source "b" ∷ []) false busy).0 in
    (d.snapshot.sources ≡ source "b" ∷ [])
    × (lookup "a" d.snapshot.data_map ≡ none)
    × (includes "a" (ids_of busy.snapshot.sources) ≡ true → false ≡ false → IsForgotten "a" d)
apply_sources_snapshot_lem_example = apply_sources_snapshot_lem (source "b" ∷ []) false busy "a"

merge_twice_example :
    merge_summary_with_detail (merge_summary_with_detail (source "a") fresh_detail) fresh_detail
    ≡ merge_summary_with_detail (source "a") fresh_detail
merge_twice_example = merge_twice (source "a") fresh_detail

merge-IsNotBefore_example :
    IsNotBefore
      (merge_summary_with_detail (source "a") fresh_detail).updated_at
      (number (finite (pos 5)))
merge-IsNotBefore_example = merge-IsNotBefore (source "a") fresh_detail
