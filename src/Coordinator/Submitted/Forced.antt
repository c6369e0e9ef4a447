-- ===== src/Coordinator/Submitted/Forced.antt =====
-- A forced submit with its pump.
use glanceus.Prelude.{
  ℕ, ◌≡◌, ◌≤◌, refl, String, str_eq, List, [], ◌∷◌, true, Bool-cases, eq_iff, subst, includes,
  includes-dedupe, dedupe, length, zero, suc, arith, if_rule, inl, inr,
}
use glanceus.Prelude.Dict.{delete}
use glanceus.Coordinator.State.{QueueTask, SourceUpdateCoordinator, runtime_of, put_runtime}
use glanceus.Prelude.Sort.{sort}
use glanceus.Coordinator.Queue.{
  start_task, pump_one, pump_loop, pump_queue, can_pump, tasks, not_after,
}
use glanceus.Coordinator.Stopped.{submit_all-Quiet}
use glanceus.Coordinator.Submit.{SubmitOptions, submit_all, submit_sources, with_boost}
use glanceus.Coordinator.Invariant.Defs.{runtime_in-set_self}
use glanceus.Coordinator.Submitted.{
  IsTracked, IsLeft-IsTracked, runtime_in-set_other, has-delete_other, submit_all-IsTracked,
}

start_task-IsTracked :
    (n : ℕ) (id : String) (t : QueueTask) (c : SourceUpdateCoordinator)
    → n ≤ c.next_request_id
    → IsTracked n id c
    → IsTracked n id (start_task t (record c { queue = delete t.source_id c.queue }))
unfolding start_task put_runtime runtime_of
start_task-IsTracked n id t c m h = elim (Bool-cases (str_eq t.source_id id)) [
  | inl same ↦
      subst (λ i. IsTracked n i (start_task t (record c { queue = delete t.source_id c.queue })))
        ((eq_iff t.source_id id).0 same) (inr (inr (inr (rw runtime_in-set_self (refl, m)))))
  | inr other ↦
      IsLeft-IsTracked n id c (start_task t (record c { queue = delete t.source_id c.queue }))
        (
          runtime_in-set_other t.source_id id _ c.source_runtime other,
          λ q. has-delete_other t.source_id id c.queue other q,
        )
        h
]

pump_one-IsTracked :
    (n : ℕ) (id : String) (c : SourceUpdateCoordinator)
    → n ≤ c.next_request_id
    → IsTracked n id c
    → (n ≤ (pump_one c).next_request_id) × IsTracked n id (pump_one c)
unfolding pump_one start_task
pump_one-IsTracked n id c m h = pick (sort not_after (tasks c.queue)) refl
  where
    pick :
        (s : List QueueTask)
        → sort not_after (tasks c.queue) ≡ s
        → (n ≤ (pump_one c).next_request_id) × IsTracked n id (pump_one c)
    pick [] e = rw (e, pump_one) (m, h)
    pick (t ∷ rest) e = rw (e, pump_one) (omega arith, start_task-IsTracked n id t c m h)

pump_loop-IsTracked :
    (n fuel : ℕ) (id : String) (c : SourceUpdateCoordinator)
    → n ≤ c.next_request_id
    → IsTracked n id c
    → IsTracked n id (pump_loop fuel c)
unfolding pump_loop
pump_loop-IsTracked n zero id c m h = h
pump_loop-IsTracked n (suc fuel) id c m h = elim (Bool-cases (can_pump c)) [
  | inl more ↦
      let one = pump_one-IsTracked n id c m h in
      rw (more, pump_loop) (pump_loop-IsTracked n fuel id (pump_one c) (one.0) (one.1))
  | inr done ↦ rw (done, pump_loop) h
]

pump_queue-IsTracked :
    (n : ℕ) (id : String) (c : SourceUpdateCoordinator)
    → n ≤ c.next_request_id
    → IsTracked n id c
    → IsTracked n id (pump_queue c)
unfolding pump_queue
pump_queue-IsTracked n id c m h =
    if_rule (IsTracked n id) c.running (λ _. pump_loop-IsTracked n (length c.queue) id c m h)
      (λ _. h)

-- After a forced submit of a list of sources, its pump included, each source of the list is marked
-- for another fetch after the one in flight, is in the queue, is pending on an armed timer, or is
-- in flight with a request that this submit has made.
pub submit_sources-IsTracked :
    (now : ℕ) (ids : List String) (options : SubmitOptions) (c : SourceUpdateCoordinator)
    (id : String)
    → options.force ≡ true
    → includes id ids ≡ true
    → IsTracked c.next_request_id id (submit_sources now ids options c)
unfolding submit_sources
submit_sources-IsTracked now ids options c id f h =
    pick (dedupe ids) (ground (arith, includes-dedupe id ids))
  where
    pick :
        (unique : List String)
        → includes id unique ≡ true
        → IsTracked c.next_request_id id (elim unique [
          | [] ↦ c
          | i ∷ is ↦ pump_queue (submit_all now (with_boost options) (i ∷ is) c)
        ])
    pick [] k = cc
    pick (i ∷ is) k =
        pump_queue-IsTracked c.next_request_id id (submit_all now (with_boost options) (i ∷ is) c)
          (omega (arith, (submit_all-Quiet now (with_boost options) (i ∷ is) c).2))
          (submit_all-IsTracked c.next_request_id now (with_boost options) (i ∷ is) c id f k)
