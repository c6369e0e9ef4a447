-- ===== src/Coordinator/Events.antt =====
-- The handlers of sourceUpdateCoordinator.ts that the event loop calls, and a run of them. A
-- promise that the class has made is a `Fetch` or a `Poll` of its state until it is answered.
use glanceus.Prelude.{
  ℕ, zero, suc, ◌+◌, ◌-◌, ◌==◌, String, true, false, not, ◌||◌, Option, none, some, List, [], ◌∷◌,
  map, if◌then◌else◌, str_eq, get_elem?,
}
use glanceus.Prelude.Value.{Value}
use glanceus.Coordinator.State.{
  bootstrap, polling, websocket, SourceRuntimeState, SourceUpdateCoordinator, Fetch, Poll, Summary,
  Detail, PriorityContext, runtime_of, put_runtime, reset_trailing_state, handle_error,
  poll_sources_failed, fetch_source_detail_failed,
}
use glanceus.Coordinator.Queue.{pump_queue, set_priority_context}
use glanceus.Coordinator.Submit.{SubmitOptions, submit_sources}
use glanceus.Coordinator.Snapshot.{apply_sources_snapshot, record_event_status, commit_detail}

-- The call of pollNow, up to its await.
unfoldable pub poll_now : Poll → SourceUpdateCoordinator → SourceUpdateCoordinator
poll_now poll c = record c { polls = poll ∷ c.polls }

-- The rest of pollNow: `none` is a fetch that failed.
unfoldable pub poll_answered :
    ℕ → Poll → Option (List Summary) → SourceUpdateCoordinator → SourceUpdateCoordinator
unfolding apply_sources_snapshot handle_error
poll_answered now poll answer c = elim answer [
  | none ↦ handle_error poll_sources_failed c
  | some latest ↦
      let (applied, ids) = apply_sources_snapshot latest poll.force_all c in
      submit_sources now ids
        (record {
          trigger = poll.trigger;
          force = poll.force_all;
          manual_boost = false;
          bypass_throttle = false;
        })
        applied
]

-- handleWebSocketEvent. An event without a source id, or with an empty one, is dropped.
unfoldable pub handle_web_socket_event :
    ℕ → String → Value → Option Value → SourceUpdateCoordinator → SourceUpdateCoordinator
unfolding record_event_status
handle_web_socket_event now source_id status error_code c =
    if str_eq source_id ""
    then c
    else submit_sources now (source_id ∷ [])
        (record {
          trigger = websocket;
          force = true;
          manual_boost = false;
          bypass_throttle = false;
        })
        (record_event_status source_id status error_code c)

-- How fetchSourceData ends: a detail, a null, or a rejection.
pub data Answer : Type 0 where
  found : Detail → Answer
  missing failed : Answer

-- What runTask does with the answer, before its `finally`.
unfoldable pub take_answer : Fetch → Answer → SourceUpdateCoordinator → SourceUpdateCoordinator
unfolding handle_error
take_answer fetch (found detail) c = commit_detail fetch.task.source_id detail fetch.request_id c
take_answer fetch missing c = c
take_answer fetch failed c = handle_error (fetch_source_detail_failed fetch.task.source_id) c

abbrev pub remove_at {ℓ} : {A : Type ℓ} → List A → ℕ → List A
remove_at [] i = []
remove_at (x ∷ xs) zero = xs
remove_at (x ∷ xs) (suc i) = x ∷ remove_at xs i

-- The assignments at the head of the `finally`: the runtime is released if it still waits for
-- this request, and the slot is given back. `i` is the request's place among those that wait.
unfoldable pub release_slot : ℕ → Fetch → SourceUpdateCoordinator → SourceUpdateCoordinator
release_slot i fetch c =
    let id = fetch.task.source_id in
    let runtime = runtime_of id c in
    let released =
      if runtime.active_request_id == fetch.request_id
      then record runtime { in_flight = false; active_request_id = 0 }
      else runtime in
    record (put_runtime id released c) {
      in_flight_count = c.in_flight_count - 1;
      fetches = remove_at c.fetches i;
    }

-- The rest of the `finally`: submit again if that was asked for, or else pump.
unfoldable pub resubmit : ℕ → Fetch → SourceUpdateCoordinator → SourceUpdateCoordinator
resubmit now fetch c =
    let id = fetch.task.source_id in
    let runtime = runtime_of id c in
    if runtime.needs_refetch
    then submit_sources now (id ∷ [])
        (record {
          trigger = fetch.task.trigger;
          force = true;
          manual_boost = runtime.manual_boost_pending;
          bypass_throttle = false;
        })
        (put_runtime id (record runtime { needs_refetch = false; manual_boost_pending = false }) c)
    else pump_queue c

-- The rest of runTask.
unfoldable pub fetch_answered :
    ℕ → ℕ → Fetch → Answer → SourceUpdateCoordinator → SourceUpdateCoordinator
unfolding take_answer release_slot resubmit
fetch_answered now i fetch answer c =
    resubmit now fetch (release_slot i fetch (take_answer fetch answer c))

-- The callback of the trailing timer of a source.
unfoldable pub trailing_timer_fired : ℕ → String → SourceUpdateCoordinator → SourceUpdateCoordinator
trailing_timer_fired now source_id c =
    let state = runtime_of source_id c in
    let disarmed = record state { trailing_timer = none } in
    if not c.running || not state.trailing_pending
    then put_runtime source_id disarmed c
    else submit_sources now (source_id ∷ [])
        (record {
          trigger = state.trailing_trigger;
          force = state.trailing_force;
          manual_boost = state.trailing_manual_boost;
          bypass_throttle = true;
        })
        (put_runtime source_id (reset_trailing_state false disarmed) c)

-- start.
unfoldable pub start : ℕ → SourceUpdateCoordinator → SourceUpdateCoordinator
unfolding poll_now
start now c =
    if c.running
    then c
    else record (poll_now (record { trigger = bootstrap; force_all = true }) c) {
      running = true;
      poll_timer = some (now + c.poll_interval_ms);
    }

abbrev pub reset_all : List (String × SourceRuntimeState) → List (String × SourceRuntimeState)
reset_all = map λ e. (e.0, reset_trailing_state true (e.1))

-- stop.
unfoldable pub stop : SourceUpdateCoordinator → SourceUpdateCoordinator
unfolding reset_trailing_state
stop c = record c {
  running = false;
  poll_timer = none;
  source_runtime = reset_all c.source_runtime;
  queue = [];
}

-- What the event loop may call, with the time of the call. `answered` names a fetch by its place
-- among those that wait.
pub data Event : Type 0 where
  started stopped poll_ticked : Event
  poll_answers : ℕ → Option (List Summary) → Event
  fetch_answers : ℕ → Answer → Event
  timer_fires : String → Event
  web_socket : String → Value → Option Value → Event
  submitted : List String → SubmitOptions → Event
  context_set : PriorityContext → Event

-- One turn of the event loop. An answer to no request, and a tick without a timer, do not occur.
unfoldable pub step : SourceUpdateCoordinator → ℕ × Event → SourceUpdateCoordinator
unfolding start stop poll_now
step c (now, started) = start now c
step c (now, stopped) = stop c
step c (now, poll_ticked) = elim c.poll_timer [
  | none ↦ c
  | some due ↦ poll_now (record { trigger = polling; force_all = false }) c
]
step c (now, poll_answers i answer) = elim (get_elem? c.polls i) [
  | none ↦ c
  | some poll ↦ poll_answered now poll answer (record c { polls = remove_at c.polls i })
]
step c (now, fetch_answers i answer) = elim (get_elem? c.fetches i) [
  | none ↦ c
  | some fetch ↦ fetch_answered now i fetch answer c
]
step c (now, timer_fires source_id) = elim (runtime_of source_id c).trailing_timer [
  | none ↦ c
  | some due ↦ trailing_timer_fired now source_id c
]
step c (now, web_socket source_id status error_code) =
    handle_web_socket_event now source_id status error_code c
step c (now, submitted ids options) = submit_sources now ids options c
step c (now, context_set context) = set_priority_context context c

unfoldable pub run : SourceUpdateCoordinator → List (ℕ × Event) → SourceUpdateCoordinator
unfolding step
run c [] = c
run c (e ∷ es) = run (step c e) es
