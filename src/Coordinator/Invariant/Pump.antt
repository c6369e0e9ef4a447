-- ===== src/Coordinator/Invariant/Pump.antt =====
-- The queue keeps the invariant: a task comes in only while its source is idle, and the pump
-- starts it within the capacity.
use glanceus.Prelude.{
  ℕ, zero, suc, ◌+◌, ◌≤◌, ◌<◌, ◌≡◌, refl, String, eq_iff, eq_refl, Bool, true, false, some, List,
  [], ◌∷◌, arith, if◌then◌else◌, Bool-cases, Option-cases, All, All-map, length, map, inl, inr, sym,
  subst,
}
use glanceus.Prelude.Dict.{lookup, set, delete, set-All, delete-All_other, lookup-All}
use glanceus.Prelude.Sort.{sort}
use glanceus.Coordinator.State.{
  Trigger, QueueTask, SourceRuntimeState, SourceUpdateCoordinator, runtime_in, runtime_of,
  put_runtime, PriorityContext,
}
use glanceus.Coordinator.Queue.{
  tasks, not_after, enqueue_task, start_task, pump_one, pump_loop, pump_queue, can_pump,
  set_priority_context, reprioritise,
}
use glanceus.Coordinator.Invariant.Defs.{Inv, Runtimes, IsQueued, runtime_in-set, put-Inv}

-- A task of an idle source joins the queue.
queue_set-Inv :
    (c : SourceUpdateCoordinator) (id : String) (task : QueueTask) (n : ℕ)
    → c.next_enqueue_seq ≤ n
    → IsQueued n c.source_runtime (id, task)
    → Inv c
    → Inv (record c { next_enqueue_seq = n; queue = set id task c.queue })
queue_set-Inv c id task n later q v = record {
  positive = v.positive;
  capacity = v.capacity;
  counted = v.counted;
  numbered = v.numbered;
  requested = v.requested;
  queued =
      set-All (IsQueued n c.source_runtime) id task c.queue
        (All-map (IsQueued c.next_enqueue_seq c.source_runtime) (IsQueued n c.source_runtime)
          (λ (key, t) old. (old.0, omega arith, old.2)) c.queue v.queued)
        (λ j h. subst (λ k. IsQueued n c.source_runtime (k, task)) (sym ((eq_iff j id).0 h)) q) q;
  waiting = v.waiting;
}

pub enqueue_task-Inv :
    (now : ℕ) (id : String) (trigger : Trigger) (boost : Bool) (c : SourceUpdateCoordinator)
    → (runtime_in id c.source_runtime).in_flight ≡ false
    → Inv c
    → Inv (enqueue_task now id trigger boost c)
unfolding enqueue_task runtime_of put_runtime
enqueue_task-Inv now id trigger boost c idle v = elim (Option-cases (lookup id c.queue)) [
  | inl e ↦
      rw (e, enqueue_task)
        (queue_set-Inv stamped id _ (c.next_enqueue_seq + 1) (omega arith)
          (refl, omega arith, still_idle) stamped-Inv)
  | inr (t, e) ↦
      rw (e, enqueue_task)
        (queue_set-Inv stamped id _ c.next_enqueue_seq (omega arith)
          ((old t e).0, (old t e).1, still_idle) stamped-Inv)
]
  where
    stamped : SourceUpdateCoordinator
    stamped = put_runtime id (record (runtime_of id c) { last_submit_at = now }) c

    stamped-Inv : Inv stamped
    stamped-Inv = put-Inv c id _ (refl, refl) v

    still_idle : (runtime_in id stamped.source_runtime).in_flight ≡ false
    still_idle = ground (
      arith,
      eq_refl id,
      runtime_in-set id id (record (runtime_of id c) { last_submit_at = now }) c.source_runtime,
    )

    old :
        (t : QueueTask)
        → lookup id c.queue ≡ some t
        → IsQueued c.next_enqueue_seq c.source_runtime (id, t)
    old t e = lookup-All (IsQueued c.next_enqueue_seq c.source_runtime) id t c.queue v.queued e

-- A started task leaves the queue, and its request is one that waits.
start_task-Inv :
    (task : QueueTask) (c : SourceUpdateCoordinator)
    → c.in_flight_count < c.max_concurrency
    → Inv c
    → Inv (start_task task (record c { queue = delete task.source_id c.queue }))
unfolding start_task runtime_of put_runtime
start_task-Inv task c room v = record {
  positive = v.positive;
  capacity = omega arith;
  counted = omega (arith, v.counted);
  numbered = omega arith;
  requested = (
    (v.numbered, omega arith),
    All-map _ (λ f. (1 ≤ f.request_id) × (f.request_id < c.next_request_id + 1))
        (λ f old. (old.0, omega arith)) c.fetches v.requested,
  );
  queued =
      delete-All_other (IsQueued c.next_enqueue_seq c.source_runtime) _ id c.queue
        (λ j t other q. (
          q.0,
          q.1,
          ground
              (arith, runtime_in-set id j started c.source_runtime, eq_iff id j, eq_iff j id, q.2),
        ))
        v.queued;
  waiting = λ j h. ground (arith, runtime_in-set id j started c.source_runtime, v.waiting j);
}
  where
    id : String
    id = task.source_id

    started : SourceRuntimeState
    started = record (runtime_in id c.source_runtime) {
      in_flight = true;
      needs_refetch = false;
      active_request_id = c.next_request_id;
    }

pub pump_one-Inv :
    (c : SourceUpdateCoordinator) → c.in_flight_count < c.max_concurrency → Inv c → Inv (pump_one c)
unfolding pump_one
pump_one-Inv c room v = pick (sort not_after (tasks c.queue))
  where
    pick :
        (ts : List QueueTask)
        → Inv (elim ts [
          | [] ↦ c
          | task ∷ rest ↦ start_task task (record c { queue = delete task.source_id c.queue })
        ])
    pick [] = v
    pick (task ∷ rest) = start_task-Inv task c room v

pump_loop-Inv : (fuel : ℕ) (c : SourceUpdateCoordinator) → Inv c → Inv (pump_loop fuel c)
unfolding pump_loop
pump_loop-Inv zero c v = v
pump_loop-Inv (suc fuel) c v = elim (Bool-cases (can_pump c)) [
  | inl more ↦
      rw (more, pump_loop) (pump_loop-Inv fuel (pump_one c) (pump_one-Inv c (ground arith) v))
  | inr done ↦ rw (done, pump_loop) v
]

pub pump_queue-Inv : (c : SourceUpdateCoordinator) → Inv c → Inv (pump_queue c)
unfolding pump_queue
pump_queue-Inv c v = elim c.running as (λ b. Inv (if b then pump_loop (length c.queue) c else c)) [
  | true ↦ pump_loop-Inv (length c.queue) c v
  | false ↦ v
]

reprioritise-IsQueued :
    (context : PriorityContext) (n : ℕ) (m : Runtimes) (q : List (String × QueueTask))
    → All (IsQueued n m) q
    → All (IsQueued n m) (map (reprioritise context) q)
reprioritise-IsQueued context n m [] h = tt
reprioritise-IsQueued context n m ((k, t) ∷ q) h = (h.0, reprioritise-IsQueued context n m q (h.1))

pub set_priority_context-Inv :
    (context : PriorityContext) (c : SourceUpdateCoordinator)
    → Inv c
    → Inv (set_priority_context context c)
unfolding set_priority_context
set_priority_context-Inv context c v = pump_queue-Inv _ (record {
  positive = v.positive;
  capacity = v.capacity;
  counted = v.counted;
  numbered = v.numbered;
  requested = v.requested;
  queued = reprioritise-IsQueued context c.next_enqueue_seq c.source_runtime c.queue v.queued;
  waiting = v.waiting;
})
