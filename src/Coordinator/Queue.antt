-- ===== src/Coordinator/Queue.antt =====
-- The queue of sourceUpdateCoordinator.ts: the order of its tasks, and how they enter and leave.
pub mod Order
use glanceus.Prelude.{
  ℕ, zero, suc, ◌+◌, ◌==◌, ltb, ◌≡◌, refl, String, Bool, true, false, not, ◌&&◌, ◌||◌, Option, none,
  some, List, [], ◌∷◌, ◌++◌, map, if◌then◌else◌, min, length,
}
use glanceus.Prelude.Int.{ℤ, pos, negsuc, sub_ℕ}
use glanceus.Prelude.Value.{eqb_Bool}
use glanceus.Prelude.Sort.{sort}
use glanceus.Prelude.Dict.{lookup, set, delete}
use glanceus.Coordinator.State.{
  Trigger, QueueTask, SourceRuntimeState, PriorityContext, SourceUpdateCoordinator, Fetch,
  runtime_of, put_runtime, resolve_priority,
}

-- byPriority: the comparator's number.
unfoldable pub by_priority : QueueTask → QueueTask → ℤ
by_priority a b =
    if not (eqb_Bool a.manual_boost b.manual_boost)
    then (if a.manual_boost then negsuc 0 else pos 1)
    else if not (a.priority_tier == b.priority_tier)
    then sub_ℕ a.priority_tier b.priority_tier
    else if not (a.priority_order == b.priority_order)
    then sub_ℕ a.priority_order b.priority_order
    else sub_ℕ a.enqueue_seq b.enqueue_seq

abbrev pub is_positive : ℤ → Bool
is_positive (pos n) = ltb 0 n
is_positive (negsuc n) = false

-- `byPriority(a, b) <= 0`: sort leaves `a` before `b`.
unfoldable pub not_after : QueueTask → QueueTask → Bool
unfolding by_priority
not_after a b = not (is_positive (by_priority a b))

abbrev pub tasks : List (String × QueueTask) → List QueueTask
tasks = map λ e. e.1

-- enqueueTask.
unfoldable pub enqueue_task :
    ℕ → String → Trigger → Bool → SourceUpdateCoordinator → SourceUpdateCoordinator
enqueue_task now source_id trigger manual_boost c =
    let priority = resolve_priority source_id c.priority_context in
    let state = runtime_of source_id c in
    let stamped = put_runtime source_id (record state { last_submit_at = now }) c in
    elim (lookup source_id c.queue) [
      | some existing ↦ record stamped {
        queue =
            set source_id
              (record existing {
                priority_tier = min existing.priority_tier priority.0;
                priority_order = min existing.priority_order priority.1;
                manual_boost = existing.manual_boost || manual_boost;
              })
              c.queue;
      }
      | none ↦ record stamped {
        next_enqueue_seq = c.next_enqueue_seq + 1;
        queue =
            set source_id
              (record {
                source_id = source_id;
                enqueue_seq = c.next_enqueue_seq;
                priority_tier = priority.0;
                priority_order = priority.1;
                manual_boost = manual_boost;
                trigger = trigger;
              })
              c.queue;
      }
    ]

-- startTask, up to the await in the runTask that it calls.
unfoldable pub start_task : QueueTask → SourceUpdateCoordinator → SourceUpdateCoordinator
start_task task c =
    let runtime = runtime_of task.source_id c in
    record (put_runtime task.source_id
      (record runtime {
        in_flight = true;
        needs_refetch = false;
        active_request_id = c.next_request_id;
      })
      c) {
        next_request_id = c.next_request_id + 1;
        in_flight_count = c.in_flight_count + 1;
        fetches = record { task = task; request_id = c.next_request_id } ∷ c.fetches;
      }

-- One round of the loop in pumpQueue.
unfoldable pub pump_one : SourceUpdateCoordinator → SourceUpdateCoordinator
unfolding start_task
pump_one c = elim (sort not_after (tasks c.queue)) [
  | [] ↦ c
  | task ∷ rest ↦ start_task task (record c { queue = delete task.source_id c.queue })
]

abbrev pub is_empty {ℓ} : {A : Type ℓ} → List A → Bool
is_empty [] = true
is_empty (x ∷ xs) = false

abbrev pub can_pump : SourceUpdateCoordinator → Bool
can_pump c = ltb c.in_flight_count c.max_concurrency && not (is_empty c.queue)

-- The loop, on fuel.
unfoldable pub pump_loop : ℕ → SourceUpdateCoordinator → SourceUpdateCoordinator
pump_loop zero c = c
pump_loop (suc fuel) c = elim (can_pump c) [ true ↦ pump_loop fuel (pump_one c) | false ↦ c ]

-- pumpQueue: each round takes a task off the queue, so its length is fuel enough.
unfoldable pub pump_queue : SourceUpdateCoordinator → SourceUpdateCoordinator
unfolding pump_loop
pump_queue c = if c.running then pump_loop (length c.queue) c else c

abbrev pub reprioritise : PriorityContext → String × QueueTask → String × QueueTask
reprioritise context (key, task) =
    let priority = resolve_priority task.source_id context in
    (key, record task { priority_tier = priority.0; priority_order = priority.1 })

-- setPriorityContext.
unfoldable pub set_priority_context :
    PriorityContext → SourceUpdateCoordinator → SourceUpdateCoordinator
set_priority_context context c =
    pump_queue (record c { priority_context = context; queue = map (reprioritise context) c.queue })
