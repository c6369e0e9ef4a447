-- ===== src/Coordinator/Submit.antt =====
-- submitSources of sourceUpdateCoordinator.ts and the trailing timer of its throttle.
use glanceus.Prelude.{
  ℕ, ◌+◌, ◌-◌, String, Bool, true, false, not, ◌&&◌, ◌||◌, none, some, List, [], ◌∷◌, if◌then◌else◌,
  dedupe,
}
use glanceus.Coordinator.State.{
  Trigger, manual, SourceUpdateCoordinator, runtime_of, put_runtime, needs_fetch, should_throttle,
  reset_trailing_state,
}
use glanceus.Coordinator.Queue.{enqueue_task, pump_queue}

-- scheduleTrailingSubmit. An existing timer is kept.
unfoldable pub schedule_trailing_submit :
    ℕ → String → Trigger → Bool → Bool → SourceUpdateCoordinator → SourceUpdateCoordinator
schedule_trailing_submit now source_id trigger force manual_boost c =
    let state = runtime_of source_id c in
    let wait_ms = c.detail_throttle_ms - (now - state.last_submit_at) in
    put_runtime source_id
      (record state {
        trailing_pending = true;
        trailing_force = state.trailing_force || force;
        trailing_manual_boost = state.trailing_manual_boost || manual_boost;
        trailing_trigger = trigger;
        trailing_timer = elim state.trailing_timer [
          | some due ↦ some due
          | none ↦ some (now + wait_ms)
        ];
      })
      c

-- The trigger and the options of submitSources.
pub record SubmitOptions : Type 0 where
  pub trigger : Trigger
  pub force : Bool
  pub manual_boost : Bool
  pub bypass_throttle : Bool

abbrev pub is_manual : Trigger → Bool
is_manual manual = true
is_manual _ = false

-- `options?.manualBoost === true || trigger === "manual"`.
abbrev pub with_boost : SubmitOptions → SubmitOptions
with_boost options = record options {
  manual_boost = options.manual_boost || is_manual options.trigger;
}

-- The body of the loop in submitSources.
unfoldable pub submit_one :
    ℕ → SubmitOptions → SourceUpdateCoordinator → String → SourceUpdateCoordinator
unfolding schedule_trailing_submit enqueue_task
submit_one now options c source_id =
    let state = runtime_of source_id c in
    if not options.force && not (needs_fetch source_id c)
    then c
    else if state.in_flight
    then put_runtime source_id
        (record state {
          needs_refetch = true;
          manual_boost_pending = state.manual_boost_pending || options.manual_boost;
        })
        c
    else if not options.bypass_throttle && not options.manual_boost && should_throttle now state c
    then schedule_trailing_submit now source_id options.trigger options.force options.manual_boost c
    else enqueue_task now source_id options.trigger options.manual_boost
        (put_runtime source_id (reset_trailing_state true state) c)

unfoldable pub submit_all :
    ℕ → SubmitOptions → List String → SourceUpdateCoordinator → SourceUpdateCoordinator
unfolding submit_one
submit_all now options [] c = c
submit_all now options (source_id ∷ ids) c =
    submit_all now options ids (submit_one now options c source_id)

-- submitSources.
unfoldable pub submit_sources :
    ℕ → List String → SubmitOptions → SourceUpdateCoordinator → SourceUpdateCoordinator
unfolding submit_all
submit_sources now source_ids options c = elim (dedupe source_ids) [
  | [] ↦ c
  | id ∷ ids ↦ pump_queue (submit_all now (with_boost options) (id ∷ ids) c)
]
