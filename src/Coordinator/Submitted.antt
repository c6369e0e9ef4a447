-- ===== src/Coordinator/Submitted.antt =====
-- What becomes of a forced submit, up to its pump.
pub mod Forced
use glanceus.Prelude.{
  ℕ, ◌+◌, ◌-◌, ◌≡◌, ◌≤◌, ◌∙◌, refl, String, str_eq, List, [], ◌∷◌, Bool, true, false, Bool-cases,
  eq_iff, subst, includes, includes-dedupe, dedupe, length, zero, suc, not, ◌&&◌, Option, none,
  some, arith, if_rule, is_some, Option-cases, inl, inr, ◌⊎◌,
}
use glanceus.Prelude.Dict.{lookup, has, has-set_self, has-set, has-delete, set, delete}
use glanceus.Coordinator.State.{
  QueueTask, SourceRuntimeState, Trigger, SourceUpdateCoordinator, runtime_in, runtime_of,
  put_runtime, should_throttle, needs_fetch,
}
use glanceus.Prelude.Sort.{sort}
use glanceus.Coordinator.Queue.{
  enqueue_task, start_task, pump_one, pump_loop, pump_queue, can_pump, tasks, not_after,
}
use glanceus.Coordinator.Stopped.{submit_all-Quiet}
use glanceus.Coordinator.Submit.{
  SubmitOptions, schedule_trailing_submit, submit_one, submit_all, submit_sources, with_boost,
}
use glanceus.Coordinator.Invariant.Defs.{runtime_in-set_self, runtime_in-set}

-- The source will be fetched: after the request in flight, from the queue, or by the timer; or its
-- request in flight is one of those that were made since the number of the next one was `n`.
abbrev pub IsTracked : ℕ → String → SourceUpdateCoordinator → Type 0
IsTracked n id c =
    (((runtime_of id c).in_flight ≡ true) × ((runtime_of id c).needs_refetch ≡ true))
    ⊎ ((has id c.queue ≡ true)
        ⊎ ((((runtime_of id c).trailing_pending ≡ true)
              × (is_some (runtime_of id c).trailing_timer ≡ true))
            ⊎ (((runtime_of id c).in_flight ≡ true) × (n ≤ (runtime_of id c).active_request_id))))

-- Nothing of the source has changed but that it may have been queued.
abbrev pub IsLeft : String → SourceUpdateCoordinator → SourceUpdateCoordinator → Type 0
IsLeft id c d =
    (runtime_of id d ≡ runtime_of id c) × (has id c.queue ≡ true → has id d.queue ≡ true)

pub IsLeft-IsTracked :
    (n : ℕ) (id : String) (c d : SourceUpdateCoordinator)
    → IsLeft id c d
    → IsTracked n id c
    → IsTracked n id d
IsLeft-IsTracked n id c d l (inl (flies, again)) = inl (rw (l.0) (flies, again))
IsLeft-IsTracked n id c d l (inr (inl queued)) = inr (inl (l.1 queued))
IsLeft-IsTracked n id c d l (inr (inr (inl armed))) = inr (inr (inl (rw (l.0) armed)))
IsLeft-IsTracked n id c d l (inr (inr (inr started))) = inr (inr (inr (rw (l.0) started)))

enqueue_task-has :
    (now : ℕ) (id : String) (trigger : Trigger) (boost : Bool) (c : SourceUpdateCoordinator)
    → has id (enqueue_task now id trigger boost c).queue ≡ true
unfolding enqueue_task put_runtime
enqueue_task-has now id trigger boost c = elim (Option-cases (lookup id c.queue)) [
  | inl e ↦ rw (e, enqueue_task) (has-set_self id _ c.queue)
  | inr (t, e) ↦ rw (e, enqueue_task) (has-set_self id _ c.queue)
]

schedule-IsTracked :
    (n now : ℕ) (id : String) (trigger : Trigger) (force boost : Bool) (c : SourceUpdateCoordinator)
    → IsTracked n id (schedule_trailing_submit now id trigger force boost c)
unfolding schedule_trailing_submit put_runtime runtime_of
schedule-IsTracked n now id trigger force boost c =
    rw (runtime_in-set_self)
      (inr (inr (inl (refl, armed (runtime_in id c.source_runtime).trailing_timer))))
  where
    armed :
        (timer : Option ℕ)
        → is_some (elim timer [
          | some due ↦ some due
          | none ↦ some (
              now
              + (c.detail_throttle_ms - (now - (runtime_in id c.source_runtime).last_submit_at)))
        ])
          ≡ true
    armed none = refl
    armed (some due) = refl

submit_one-IsTracked :
    (n now : ℕ) (options : SubmitOptions) (c : SourceUpdateCoordinator) (id : String)
    → options.force ≡ true
    → IsTracked n id (submit_one now options c id)
unfolding submit_one put_runtime runtime_of
submit_one-IsTracked n now options c id f =
    if_rule (IsTracked n id) (not options.force && not (needs_fetch id c))
      (λ skipped. absurd (ground arith))
      λ wanted.
        if_rule (IsTracked n id) (runtime_in id c.source_runtime).in_flight
          (λ busy. rw runtime_in-set_self (inl (busy, refl)))
          λ idle.
            if_rule (IsTracked n id)
              (not options.bypass_throttle
                && not options.manual_boost
                && should_throttle now (runtime_of id c) c)
              (λ late.
                schedule-IsTracked n now id options.trigger options.force options.manual_boost c)
              λ free. inr (inl (enqueue_task-has now id options.trigger options.manual_boost _))

pub runtime_in-set_other :
    (j id : String) (r : SourceRuntimeState) (m : List (String × SourceRuntimeState))
    → str_eq j id ≡ false
    → runtime_in id (set j r m) ≡ runtime_in id m
runtime_in-set_other j id r m other = ground (arith, runtime_in-set j id r m, other)

has-set_kept :
    (j id : String) (t : QueueTask) (m : List (String × QueueTask))
    → has id m ≡ true
    → has id (set j t m) ≡ true
has-set_kept j id t m h = ground (arith, has-set j id t m)

pub has-delete_other :
    (j id : String) (m : List (String × QueueTask))
    → str_eq j id ≡ false
    → has id m ≡ true
    → has id (delete j m) ≡ true
has-delete_other j id m other h = ground (arith, has-delete j id m)

enqueue_task-IsLeft :
    (now : ℕ) (j id : String) (trigger : Trigger) (boost : Bool) (c d : SourceUpdateCoordinator)
    → str_eq j id ≡ false
    → IsLeft id d c
    → IsLeft id d (enqueue_task now j trigger boost c)
unfolding enqueue_task put_runtime runtime_of
enqueue_task-IsLeft now j id trigger boost c d other l = elim (Option-cases (lookup j c.queue)) [
  | inl e ↦
      rw (e, enqueue_task)
        (
          runtime_in-set_other j id _ c.source_runtime other ∙ l.0,
          λ h. has-set_kept j id _ c.queue (l.1 h),
        )
  | inr (t, e) ↦
      rw (e, enqueue_task)
        (
          runtime_in-set_other j id _ c.source_runtime other ∙ l.0,
          λ h. has-set_kept j id _ c.queue (l.1 h),
        )
]

-- A submit of another source.
submit_one-IsLeft :
    (now : ℕ) (options : SubmitOptions) (c : SourceUpdateCoordinator) (j id : String)
    → str_eq j id ≡ false
    → IsLeft id c (submit_one now options c j)
unfolding submit_one put_runtime runtime_of schedule_trailing_submit
submit_one-IsLeft now options c j id other =
    if_rule (IsLeft id c) (not options.force && not (needs_fetch j c)) (λ _. (refl, λ h. h))
      λ _.
        if_rule (IsLeft id c) (runtime_in j c.source_runtime).in_flight
          (λ _. (runtime_in-set_other j id _ c.source_runtime other, λ h. h))
          λ _.
            if_rule (IsLeft id c)
              (not options.bypass_throttle
                && not options.manual_boost
                && should_throttle now (runtime_of j c) c)
              (λ _. (runtime_in-set_other j id _ c.source_runtime other, λ h. h))
              λ _.
                enqueue_task-IsLeft now j id options.trigger options.manual_boost _ c other
                  (runtime_in-set_other j id _ c.source_runtime other, λ h. h)

submit_all-kept :
    (n now : ℕ) (options : SubmitOptions) (ids : List String) (c : SourceUpdateCoordinator)
    (id : String)
    → options.force ≡ true
    → IsTracked n id c
    → IsTracked n id (submit_all now options ids c)
unfolding submit_all
submit_all-kept n now options [] c id f h = h
submit_all-kept n now options (j ∷ ids) c id f h =
    submit_all-kept n now options ids (submit_one now options c j) id f
      (elim (Bool-cases (str_eq j id)) [
        | inl same ↦
            subst (λ i. IsTracked n i (submit_one now options c j)) ((eq_iff j id).0 same)
              (submit_one-IsTracked n now options c j f)
        | inr other ↦
            IsLeft-IsTracked n id c (submit_one now options c j)
              (submit_one-IsLeft now options c j id other) h
      ])

pub submit_all-IsTracked :
    (n now : ℕ) (options : SubmitOptions) (ids : List String) (c : SourceUpdateCoordinator)
    (id : String)
    → options.force ≡ true
    → includes id ids ≡ true
    → IsTracked n id (submit_all now options ids c)
unfolding submit_all
submit_all-IsTracked n now options [] c id f h = cc
submit_all-IsTracked n now options (j ∷ ids) c id f h = elim (Bool-cases (str_eq j id)) [
  | inl same ↦ submit_all-kept n now options ids (submit_one now options c j) id f (
      subst (λ i. IsTracked n i (submit_one now options c j)) ((eq_iff j id).0 same)
        (submit_one-IsTracked n now options c j f))
  | inr other ↦
      submit_all-IsTracked n now options ids (submit_one now options c j) id f
        (ground (arith, eq_iff j id, eq_iff id j))
]
