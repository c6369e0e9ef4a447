-- ===== src/Coordinator/Invariant/Submit.antt =====
-- submitSources keeps the invariant.
use glanceus.Prelude.{
  ℕ, ◌≡◌, refl, String, eq_refl, Bool, true, false, not, ◌&&◌, List, [], ◌∷◌, arith, if_rule,
  dedupe,
}
use glanceus.Coordinator.State.{
  Trigger, SourceUpdateCoordinator, runtime_in, runtime_of, put_runtime, reset_trailing_state,
  needs_fetch, should_throttle,
}
use glanceus.Coordinator.Queue.{enqueue_task, pump_queue}
use glanceus.Coordinator.Submit.{
  SubmitOptions, with_boost, schedule_trailing_submit, submit_one, submit_all, submit_sources,
}
use glanceus.Coordinator.Invariant.Defs.{Inv, runtime_in-set, put-Inv}
use glanceus.Coordinator.Invariant.Pump.{enqueue_task-Inv, pump_queue-Inv}

schedule_trailing_submit-Inv :
    (now : ℕ) (id : String) (trigger : Trigger) (force boost : Bool) (c : SourceUpdateCoordinator)
    → Inv c
    → Inv (schedule_trailing_submit now id trigger force boost c)
unfolding schedule_trailing_submit runtime_of put_runtime
schedule_trailing_submit-Inv now id trigger force boost c v = put-Inv c id _ (refl, refl) v

enqueue_idle-Inv :
    (now : ℕ) (id : String) (trigger : Trigger) (boost : Bool) (c : SourceUpdateCoordinator)
    → (runtime_in id c.source_runtime).in_flight ≡ false
    → Inv c
    → Inv (
        enqueue_task now id trigger boost
          (put_runtime id (reset_trailing_state true (runtime_of id c)) c))
unfolding runtime_of put_runtime reset_trailing_state
enqueue_idle-Inv now id trigger boost c idle v =
    enqueue_task-Inv now id trigger boost _
      (ground (
        arith,
        eq_refl id,
        idle,
        runtime_in-set id id (reset_trailing_state true (runtime_of id c)) c.source_runtime,
      ))
      (put-Inv c id _ (refl, refl) v)

pub submit_one-Inv :
    (now : ℕ) (options : SubmitOptions) (c : SourceUpdateCoordinator) (id : String)
    → Inv c
    → Inv (submit_one now options c id)
unfolding submit_one runtime_of put_runtime
submit_one-Inv now options c id v =
    if_rule Inv (not options.force && not (needs_fetch id c)) (λ skipped. v)
      λ wanted.
        if_rule Inv (runtime_in id c.source_runtime).in_flight
          (λ busy. put-Inv c id _ (refl, refl) v)
          λ idle.
            if_rule Inv
              (not options.bypass_throttle
                && not options.manual_boost
                && should_throttle now (runtime_of id c) c)
              (λ late.
                schedule_trailing_submit-Inv now id options.trigger options.force
                  options.manual_boost c v)
              λ free. enqueue_idle-Inv now id options.trigger options.manual_boost c idle v

pub submit_all-Inv :
    (now : ℕ) (options : SubmitOptions) (ids : List String) (c : SourceUpdateCoordinator)
    → Inv c
    → Inv (submit_all now options ids c)
unfolding submit_all
submit_all-Inv now options [] c v = v
submit_all-Inv now options (id ∷ ids) c v =
    submit_all-Inv now options ids _ (submit_one-Inv now options c id v)

pub submit_sources-Inv :
    (now : ℕ) (ids : List String) (options : SubmitOptions) (c : SourceUpdateCoordinator)
    → Inv c
    → Inv (submit_sources now ids options c)
unfolding submit_sources
submit_sources-Inv now ids options c v = pick (dedupe ids)
  where
    pick :
        (unique : List String)
        → Inv (elim unique [
          | [] ↦ c
          | i ∷ is ↦ pump_queue (submit_all now (with_boost options) (i ∷ is) c)
        ])
    pick [] = v
    pick (i ∷ is) = pump_queue-Inv _ (submit_all-Inv now (with_boost options) (i ∷ is) c v)
