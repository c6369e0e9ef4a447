-- ===== src/Coordinator/Summaries.antt =====
-- The two copies of a source's summary: the snapshot's and that of `summaryById`.
pub mod Lists
pub mod Turns
pub mod Writes
use glanceus.Prelude.{
  ℕ, ◌≡◌, refl, String, str_eq, Bool, false, not, ◌&&◌, ◌||◌, Option, none, some, List, [], ◌∷◌,
  if◌then◌else◌, if_rule, Option-cases, inl, inr, dedupe, get_elem?, zero, suc, ◌==◌, length,
  IsUnique, Bool-cases, All,
}
use glanceus.Prelude.Dict.{lookup}
use glanceus.Prelude.Sort.{sort}
use glanceus.Coordinator.State.{
  Trigger, SourceUpdateCoordinator, Fetch, Summary, Poll, SourcesWithData, QueueTask, runtime_of,
  put_runtime, should_throttle, needs_fetch, handle_error, new,
}
use glanceus.Coordinator.Queue.{
  enqueue_task, start_task, pump_one, pump_loop, pump_queue, can_pump, set_priority_context, tasks,
  not_after,
}
use glanceus.Coordinator.Submit.{
  SubmitOptions, with_boost, schedule_trailing_submit, submit_one, submit_all, submit_sources,
}
use glanceus.Coordinator.Events.{
  Event, Answer, found, missing, failed, take_answer, release_slot, resubmit, fetch_answered,
  poll_answered, handle_web_socket_event, trailing_timer_fired, stop, start, poll_now, step, run,
  started, stopped, poll_ticked, poll_answers, fetch_answers, timer_fires, web_socket, submitted,
  context_set,
}
use glanceus.Coordinator.Snapshot.{
  commit_detail, is_outdated, write_detail, apply_sources_snapshot, record_event_status, ids_of,
}
use glanceus.Coordinator.Summaries.Writes.{
  AgreesIn, record_event_status-AgreesIn, write_detail-AgreesIn,
}
use glanceus.Coordinator.Summaries.Lists.{apply_sources_snapshot-AgreesIn}

-- No source has a summary but the one that the snapshot has of it; once the first poll has come in,
-- each source that the snapshot lists has it.
abbrev pub Agrees : Bool → SourceUpdateCoordinator → Type 0
Agrees polled c = AgreesIn polled c.snapshot.sources c.summary_by_id

module _ (polled : Bool) where
  enqueue_task-Agrees :
      (now : ℕ) (id : String) (trigger : Trigger) (boost : Bool) (c : SourceUpdateCoordinator)
      → Agrees polled c
      → Agrees polled (enqueue_task now id trigger boost c)
  unfolding enqueue_task put_runtime
  enqueue_task-Agrees now id trigger boost c v = elim (Option-cases (lookup id c.queue)) [
    | inl e ↦ rw (e, enqueue_task) v
    | inr (t, e) ↦ rw (e, enqueue_task) v
  ]

  submit_one-Agrees :
      (now : ℕ) (options : SubmitOptions) (c : SourceUpdateCoordinator) (id : String)
      → Agrees polled c
      → Agrees polled (submit_one now options c id)
  unfolding submit_one put_runtime schedule_trailing_submit
  submit_one-Agrees now options c id v =
      if_rule (Agrees polled) (not options.force && not (needs_fetch id c)) (λ _. v)
        λ _.
          if_rule (Agrees polled) (runtime_of id c).in_flight (λ _. v)
            λ _.
              if_rule (Agrees polled)
                (not options.bypass_throttle
                  && not options.manual_boost
                  && should_throttle now (runtime_of id c) c)
                (λ _. v) λ _. enqueue_task-Agrees now id options.trigger options.manual_boost _ v

  submit_all-Agrees :
      (now : ℕ) (options : SubmitOptions) (ids : List String) (c : SourceUpdateCoordinator)
      → Agrees polled c
      → Agrees polled (submit_all now options ids c)
  unfolding submit_all
  submit_all-Agrees now options [] c v = v
  submit_all-Agrees now options (id ∷ ids) c v =
      submit_all-Agrees now options ids (submit_one now options c id)
        (submit_one-Agrees now options c id v)

  pump_one-Agrees : (c : SourceUpdateCoordinator) → Agrees polled c → Agrees polled (pump_one c)
  unfolding pump_one start_task put_runtime
  pump_one-Agrees c v = pick (sort not_after (tasks c.queue)) refl
    where
      pick : (s : List QueueTask) → sort not_after (tasks c.queue) ≡ s → Agrees polled (pump_one c)
      pick [] e = rw (e, pump_one) v
      pick (t ∷ rest) e = rw (e, pump_one) v

  pump_loop-Agrees :
      (fuel : ℕ) (c : SourceUpdateCoordinator) → Agrees polled c → Agrees polled (pump_loop fuel c)
  unfolding pump_loop
  pump_loop-Agrees zero c v = v
  pump_loop-Agrees (suc fuel) c v = elim (Bool-cases (can_pump c)) [
    | inl more ↦ rw (more, pump_loop) (pump_loop-Agrees fuel (pump_one c) (pump_one-Agrees c v))
    | inr done ↦ rw (done, pump_loop) v
  ]

  pub pump_queue-Agrees :
      (c : SourceUpdateCoordinator) → Agrees polled c → Agrees polled (pump_queue c)
  unfolding pump_queue
  pump_queue-Agrees c v =
      if_rule (Agrees polled) c.running (λ _. pump_loop-Agrees (length c.queue) c v) (λ _. v)

  pub submit_sources-Agrees :
      (now : ℕ) (ids : List String) (options : SubmitOptions) (c : SourceUpdateCoordinator)
      → Agrees polled c
      → Agrees polled (submit_sources now ids options c)
  unfolding submit_sources
  submit_sources-Agrees now ids options c v = pick (dedupe ids)
    where
      pick :
          (unique : List String)
          → Agrees polled (elim unique [
            | [] ↦ c
            | i ∷ is ↦ pump_queue (submit_all now (with_boost options) (i ∷ is) c)
          ])
      pick [] = v
      pick (i ∷ is) =
          pump_queue-Agrees (submit_all now (with_boost options) (i ∷ is) c)
            (submit_all-Agrees now (with_boost options) (i ∷ is) c v)

  take_answer-Agrees :
      (fetch : Fetch) (answer : Answer) (c : SourceUpdateCoordinator)
      → Agrees polled c
      → Agrees polled (take_answer fetch answer c)
  unfolding take_answer commit_detail put_runtime write_detail handle_error
  take_answer-Agrees fetch (found detail) c v =
      if_rule (Agrees polled)
        (not ((runtime_of fetch.task.source_id c).active_request_id == fetch.request_id)) (λ _. v)
        λ _.
          if_rule (Agrees polled) (is_outdated detail (lookup fetch.task.source_id c.summary_by_id))
            (λ _. v) (λ _. write_detail-AgreesIn polled fetch.task.source_id detail c v)
  take_answer-Agrees fetch missing c v = v
  take_answer-Agrees fetch failed c v = v

  resubmit-Agrees :
      (now : ℕ) (fetch : Fetch) (c : SourceUpdateCoordinator)
      → Agrees polled c
      → Agrees polled (resubmit now fetch c)
  unfolding resubmit put_runtime
  resubmit-Agrees now fetch c v =
      if_rule (Agrees polled) (runtime_of fetch.task.source_id c).needs_refetch
        (λ _. submit_sources-Agrees now _ _ _ v) λ _. pump_queue-Agrees c v

  pub fetch_answered-Agrees :
      (now i : ℕ) (fetch : Fetch) (answer : Answer) (c : SourceUpdateCoordinator)
      → Agrees polled c
      → Agrees polled (fetch_answered now i fetch answer c)
  unfolding fetch_answered release_slot put_runtime
  fetch_answered-Agrees now i fetch answer c v =
      resubmit-Agrees now fetch (release_slot i fetch (take_answer fetch answer c))
        (take_answer-Agrees fetch answer c v)
