-- ===== src/Coordinator/Stopped.antt =====
-- What the calls of a stopped coordinator do.
pub mod Turns
use glanceus.Prelude.{
  ℕ, ◌==◌, ◌≡◌, ◌≢◌, ◌≤◌, zero, suc, length, All, refl, String, str_eq, Bool, false, not, ◌&&◌,
  ◌||◌, Option, none, some, List, [], ◌∷◌, arith, if◌then◌else◌, if_rule, Option-cases, inl, inr,
  sym, ◌∙◌, dedupe, get_elem?, includes,
}
use glanceus.Prelude.Dict.{lookup}
use glanceus.Coordinator.State.{
  Trigger, SourceUpdateCoordinator, Fetch, Summary, Poll, runtime_of, put_runtime, should_throttle,
  needs_fetch, handle_error,
}
use glanceus.Coordinator.Queue.{enqueue_task, pump_queue, set_priority_context}
use glanceus.Coordinator.Submit.{
  SubmitOptions, with_boost, schedule_trailing_submit, submit_one, submit_all, submit_sources,
}
use glanceus.Coordinator.Events.{
  Event, Answer, found, missing, failed, take_answer, release_slot, resubmit, fetch_answered,
  poll_answered, handle_web_socket_event, trailing_timer_fired, stop, step, run, remove_at, started,
  stopped, poll_ticked, poll_answers, fetch_answers, timer_fires, web_socket, submitted,
  context_set,
}
use glanceus.Coordinator.Snapshot.{
  commit_detail, is_outdated, write_detail, forget_source, forget_missing, apply_sources_snapshot,
  record_event_status, ids_of, set_summaries,
}

-- Nothing is started, no request is made, no poll is, and the poll timer stays as it is.
abbrev pub Quiet : SourceUpdateCoordinator → SourceUpdateCoordinator → Type 0
Quiet c d =
    (d.running ≡ c.running)
    × (d.poll_timer ≡ c.poll_timer)
    × (d.next_request_id ≡ c.next_request_id)
    × (length d.fetches ≤ length c.fetches)
    × (length d.polls ≤ length c.polls)

pub same : (c : SourceUpdateCoordinator) → Quiet c c
same c = (refl, refl, refl, omega arith, omega arith)

pub Quiet-trans : (c d e : SourceUpdateCoordinator) → Quiet c d → Quiet d e → Quiet c e
Quiet-trans c d e a b =
    (b.0 ∙ a.0, b.1 ∙ a.1, b.2 ∙ a.2, omega (arith, a.3, b.3), omega (arith, a.4, b.4))

pub length-remove_at {ℓ} : {A : Type ℓ} (xs : List A) (i : ℕ) → length (remove_at xs i) ≤ length xs
length-remove_at [] i = omega arith
length-remove_at (x ∷ xs) zero = omega arith
length-remove_at (x ∷ xs) (suc i) = omega (arith, length-remove_at xs i)

enqueue_task-Quiet :
    (now : ℕ) (id : String) (trigger : Trigger) (boost : Bool) (c : SourceUpdateCoordinator)
    → Quiet c (enqueue_task now id trigger boost c)
unfolding enqueue_task put_runtime
enqueue_task-Quiet now id trigger boost c = elim (Option-cases (lookup id c.queue)) [
  | inl e ↦ rw (e, enqueue_task) (same c)
  | inr (t, e) ↦ rw (e, enqueue_task) (same c)
]

submit_one-Quiet :
    (now : ℕ) (options : SubmitOptions) (c : SourceUpdateCoordinator) (id : String)
    → Quiet c (submit_one now options c id)
unfolding submit_one put_runtime schedule_trailing_submit
submit_one-Quiet now options c id =
    if_rule (Quiet c) (not options.force && not (needs_fetch id c)) (λ _. (same c))
      λ _.
        if_rule (Quiet c) (runtime_of id c).in_flight (λ _. (same c))
          λ _.
            if_rule (Quiet c)
              (not options.bypass_throttle
                && not options.manual_boost
                && should_throttle now (runtime_of id c) c)
              (λ _. (same c)) λ _. enqueue_task-Quiet now id options.trigger options.manual_boost _

pub submit_all-Quiet :
    (now : ℕ) (options : SubmitOptions) (ids : List String) (c : SourceUpdateCoordinator)
    → Quiet c (submit_all now options ids c)
unfolding submit_all
submit_all-Quiet now options [] c = same c
submit_all-Quiet now options (id ∷ ids) c =
    let one = submit_one now options c id in
    Quiet-trans c one (submit_all now options ids one) (submit_one-Quiet now options c id)
      (submit_all-Quiet now options ids one)

pub pump_queue-stopped : (c : SourceUpdateCoordinator) → c.running ≡ false → Quiet c (pump_queue c)
unfolding pump_queue
pump_queue-stopped c off = if_rule (Quiet c) c.running (λ on. absurd (ground arith)) (λ _. (same c))

pub submit_sources-stopped :
    (now : ℕ) (ids : List String) (options : SubmitOptions) (c : SourceUpdateCoordinator)
    → c.running ≡ false
    → Quiet c (submit_sources now ids options c)
unfolding submit_sources
submit_sources-stopped now ids options c off = pick (dedupe ids)
  where
    pick :
        (unique : List String)
        → Quiet c (elim unique [
          | [] ↦ c
          | i ∷ is ↦ pump_queue (submit_all now (with_boost options) (i ∷ is) c)
        ])
    pick [] = (same c)
    pick (i ∷ is) =
        let all = submit_all-Quiet now (with_boost options) (i ∷ is) c in
        let pumped =
          pump_queue-stopped (submit_all now (with_boost options) (i ∷ is) c) (all.0 ∙ off) in
        Quiet-trans c (submit_all now (with_boost options) (i ∷ is) c)
          (pump_queue (submit_all now (with_boost options) (i ∷ is) c)) all pumped

forget_missing-Quiet :
    (latest : List String) (previous : List (String × Summary)) (c : SourceUpdateCoordinator)
    → Quiet c (forget_missing latest previous c)
unfolding forget_source
forget_missing-Quiet latest [] c = same c
forget_missing-Quiet latest ((id, p) ∷ rest) c =
    let one = if includes id latest then c else forget_source c id in
    Quiet-trans c one (forget_missing latest rest one)
      (if_rule (Quiet c) (includes id latest) (λ _. same c) (λ _. same c))
      (forget_missing-Quiet latest rest one)

take_answer-Quiet :
    (fetch : Fetch) (answer : Answer) (c : SourceUpdateCoordinator)
    → Quiet c (take_answer fetch answer c)
unfolding take_answer commit_detail put_runtime write_detail handle_error
take_answer-Quiet fetch (found detail) c =
    if_rule (Quiet c)
      (not ((runtime_of fetch.task.source_id c).active_request_id == fetch.request_id))
      (λ _. (same c))
      λ _.
        if_rule (Quiet c) (is_outdated detail (lookup fetch.task.source_id c.summary_by_id))
          (λ _. (same c)) (λ _. (same c))
take_answer-Quiet fetch missing c = same c
take_answer-Quiet fetch failed c = same c

resubmit-stopped :
    (now : ℕ) (fetch : Fetch) (c : SourceUpdateCoordinator)
    → c.running ≡ false
    → Quiet c (resubmit now fetch c)
unfolding resubmit put_runtime
resubmit-stopped now fetch c off =
    if_rule (Quiet c) (runtime_of fetch.task.source_id c).needs_refetch
      (λ _. submit_sources-stopped now _ _ _ off) λ _. pump_queue-stopped c off

pub fetch_answered-stopped :
    (now i : ℕ) (fetch : Fetch) (answer : Answer) (c : SourceUpdateCoordinator)
    → c.running ≡ false
    → Quiet c (fetch_answered now i fetch answer c)
unfolding fetch_answered release_slot put_runtime
fetch_answered-stopped now i fetch answer c off =
    let taken = take_answer-Quiet fetch answer c in
    let t = take_answer fetch answer c in
    let d = release_slot i fetch t in
    let again = resubmit-stopped now fetch d (taken.0 ∙ off) in
    Quiet-trans c t (resubmit now fetch d) taken (
      Quiet-trans t d (resubmit now fetch d)
        (refl, refl, refl, length-remove_at t.fetches i, omega arith) again)

pub poll_answered-stopped :
    (now : ℕ) (poll : Poll) (answer : Option (List Summary)) (c : SourceUpdateCoordinator)
    → c.running ≡ false
    → Quiet c (poll_answered now poll answer c)
unfolding poll_answered apply_sources_snapshot handle_error
poll_answered-stopped now poll none c off = same c
poll_answered-stopped now poll (some latest) c off =
    let kept =
      forget_missing-Quiet (ids_of latest) (set_summaries c.snapshot.sources [])
        (record c { summary_by_id = set_summaries latest c.summary_by_id }) in
    let applied = (apply_sources_snapshot latest poll.force_all c).0 in
    let options : SubmitOptions = record {
      trigger = poll.trigger;
      force = poll.force_all;
      manual_boost = false;
      bypass_throttle = false;
    } in
    let ids = (apply_sources_snapshot latest poll.force_all c).1 in
    Quiet-trans c applied (submit_sources now ids options applied) kept
      (submit_sources-stopped now ids options applied (kept.0 ∙ off))
