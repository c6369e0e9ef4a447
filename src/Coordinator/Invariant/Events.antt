-- ===== src/Coordinator/Invariant/Events.antt =====
-- Every turn of the event loop keeps the invariant, so every history does.
use glanceus.Prelude.{
  ℕ, ◌≡◌, refl, String, str_eq, Bool, false, not, ◌||◌, Option, none, some, List, [], ◌∷◌, arith,
  if_rule, Option-cases, inl, inr, get_elem?, includes,
}
use glanceus.Prelude.Value.{Value}
use glanceus.Prelude.Dict.{delete, delete-All_other}
use glanceus.Coordinator.State.{
  SourceUpdateCoordinator, Summary, SourcesWithData, Poll, runtime_in, runtime_of, put_runtime,
  reset_trailing_state, new,
}
use glanceus.Coordinator.Events.{
  Event, poll_answered, handle_web_socket_event, trailing_timer_fired, start, stop, poll_now,
  reset_all, step, run, started, stopped, poll_ticked, poll_answers, fetch_answers, timer_fires,
  web_socket, submitted, context_set,
}
use glanceus.Coordinator.Snapshot.{
  forget_source, forget_missing, ids_of, set_summaries, apply_sources_snapshot, record_event_status,
}
use glanceus.Coordinator.Invariant.Answers.{fetch_answered-Inv}
use glanceus.Coordinator.Invariant.Defs.{
  Inv, Runtimes, IsQueued, runtime_in-delete, put-Inv, unread-Inv,
}
use glanceus.Coordinator.Invariant.Pump.{set_priority_context-Inv}
use glanceus.Coordinator.Invariant.Submit.{submit_sources-Inv}

new-Inv :
    (limit interval throttle : Option ℕ) (snapshot : SourcesWithData)
    → Inv (new limit interval throttle snapshot)
unfolding new
new-Inv limit interval throttle snapshot = record {
  positive = omega arith;
  capacity = omega arith;
  counted = refl;
  numbered = omega arith;
  requested = tt;
  queued = tt;
  waiting = λ id h. cc;
}

forget_source-Inv : (c : SourceUpdateCoordinator) (id : String) → Inv c → Inv (forget_source c id)
unfolding forget_source
forget_source-Inv c id v = record {
  positive = v.positive;
  capacity = v.capacity;
  counted = v.counted;
  numbered = v.numbered;
  requested = v.requested;
  queued =
      delete-All_other (IsQueued c.next_enqueue_seq c.source_runtime) _ id c.queue
        (λ j t other q. (q.0, q.1, idle j (q.2))) v.queued;
  waiting = λ j h. ground (arith, runtime_in-delete id j c.source_runtime, v.waiting j);
}
  where
    idle :
        (j : String)
        → (runtime_in j c.source_runtime).in_flight ≡ false
        → (runtime_in j (delete id c.source_runtime)).in_flight ≡ false
    idle j h = ground (arith, runtime_in-delete id j c.source_runtime)

forget_missing-Inv :
    (latest : List String) (previous : List (String × Summary)) (c : SourceUpdateCoordinator)
    → Inv c
    → Inv (forget_missing latest previous c)
forget_missing-Inv latest [] c v = v
forget_missing-Inv latest ((id, p) ∷ rest) c v =
    forget_missing-Inv latest rest _
      (if_rule Inv (includes id latest) (λ _. v) (λ _. forget_source-Inv c id v))

apply_sources_snapshot-Inv :
    (latest : List Summary) (force_all : Bool) (c : SourceUpdateCoordinator)
    → Inv c
    → Inv (apply_sources_snapshot latest force_all c).0
unfolding apply_sources_snapshot
apply_sources_snapshot-Inv latest force_all c v = unread-Inv _ _ _ _ _ _ _ (
    forget_missing-Inv (ids_of latest) (set_summaries c.snapshot.sources []) _ (
      unread-Inv c c.snapshot (set_summaries latest c.summary_by_id) c.errors c.polls c.running
        c.poll_timer v))

poll_answered-Inv :
    (now : ℕ) (poll : Poll) (answer : Option (List Summary)) (c : SourceUpdateCoordinator)
    → Inv c
    → Inv (poll_answered now poll answer c)
unfolding poll_answered
poll_answered-Inv now poll none c v = unread-Inv c _ _ _ _ _ _ v
poll_answered-Inv now poll (some latest) c v =
    submit_sources-Inv now _ _ _ (apply_sources_snapshot-Inv latest poll.force_all c v)

handle_web_socket_event-Inv :
    (now : ℕ) (id : String) (status : Value) (code : Option Value) (c : SourceUpdateCoordinator)
    → Inv c
    → Inv (handle_web_socket_event now id status code c)
unfolding handle_web_socket_event record_event_status
handle_web_socket_event-Inv now id status code c v =
    if_rule Inv (str_eq id "") (λ _. v)
      λ _. submit_sources-Inv now _ _ _ (unread-Inv c _ _ _ _ _ _ v)

trailing_timer_fired-Inv :
    (now : ℕ) (id : String) (c : SourceUpdateCoordinator)
    → Inv c
    → Inv (trailing_timer_fired now id c)
unfolding trailing_timer_fired runtime_of put_runtime reset_trailing_state
trailing_timer_fired-Inv now id c v =
    if_rule Inv (not c.running || not (runtime_of id c).trailing_pending)
      (λ _. put-Inv c id _ (refl, refl) v)
      λ _. submit_sources-Inv now _ _ _ (put-Inv c id _ (refl, refl) v)

start-Inv : (now : ℕ) (c : SourceUpdateCoordinator) → Inv c → Inv (start now c)
unfolding start poll_now
start-Inv now c v = if_rule Inv c.running (λ _. v) (λ _. unread-Inv c _ _ _ _ _ _ v)

reset_all-flight :
    (id : String) (m : Runtimes)
    → ((runtime_in id (reset_all m)).in_flight ≡ (runtime_in id m).in_flight)
      × ((runtime_in id (reset_all m)).active_request_id ≡ (runtime_in id m).active_request_id)
unfolding reset_trailing_state
reset_all-flight id [] = (refl, refl)
reset_all-flight id ((j, r) ∷ m) = ground (arith, reset_all-flight id m)

stop-Inv : (c : SourceUpdateCoordinator) → Inv c → Inv (stop c)
unfolding stop
stop-Inv c v = record {
  positive = v.positive;
  capacity = v.capacity;
  counted = v.counted;
  numbered = v.numbered;
  requested = v.requested;
  queued = tt;
  waiting = λ j h. ground (arith, reset_all-flight j c.source_runtime, v.waiting j);
}

-- Every turn of the event loop keeps the invariant, if it holds before: the requests in flight are counted and stay
-- within the limit, a source with a request of its own in flight is never in the queue, and a
-- source that is marked as in flight has its request among those that wait.
pub step-Inv : (c : SourceUpdateCoordinator) (e : ℕ × Event) → Inv c → Inv (step c e)
unfolding step
step-Inv c (now, started) v = start-Inv now c v
step-Inv c (now, stopped) v = stop-Inv c v
step-Inv c (now, poll_ticked) v = elim (Option-cases c.poll_timer) [
  | inl e ↦ rw (e, step) v
  | inr (due, e) ↦ rw (e, step) (unread-Inv c _ _ _ _ _ _ v)
]
step-Inv c (now, poll_answers i answer) v = elim (Option-cases (get_elem? c.polls i)) [
  | inl e ↦ rw (e, step) v
  | inr (poll, e) ↦ rw (e, step) (poll_answered-Inv now poll answer _ (unread-Inv c _ _ _ _ _ _ v))
]
step-Inv c (now, fetch_answers i answer) v = elim (Option-cases (get_elem? c.fetches i)) [
  | inl e ↦ rw (e, step) v
  | inr (fetch, e) ↦ rw (e, step) (fetch_answered-Inv now i fetch answer c e v)
]
step-Inv c (now, timer_fires id) v = elim (Option-cases (runtime_of id c).trailing_timer) [
  | inl e ↦ rw (e, step) v
  | inr (due, e) ↦ rw (e, step) (trailing_timer_fired-Inv now id c v)
]
step-Inv c (now, web_socket id status code) v = handle_web_socket_event-Inv now id status code c v
step-Inv c (now, submitted ids options) v = submit_sources-Inv now ids options c v
step-Inv c (now, context_set context) v = set_priority_context-Inv context c v

run-Inv : (c : SourceUpdateCoordinator) (es : List (ℕ × Event)) → Inv c → Inv (run c es)
unfolding run
run-Inv c [] v = v
run-Inv c (e ∷ es) v = run-Inv (step c e) es (step-Inv c e v)

-- After any history of turns of a new coordinator, its requests in flight are counted and within
-- the limit, a source with a request of its own in flight is never in the queue, and a source that
-- is marked as in flight has its request among those that wait.
pub run-new-Inv :
    (limit interval throttle : Option ℕ) (snapshot : SourcesWithData) (es : List (ℕ × Event))
    → Inv (run (new limit interval throttle snapshot) es)
run-new-Inv limit interval throttle snapshot es =
    run-Inv _ es (new-Inv limit interval throttle snapshot)
