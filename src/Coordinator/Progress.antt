-- ===== src/Coordinator/Progress.antt =====
-- The scheduler makes progress: the pump leaves no slot idle while a task waits, and it starts the
-- task that comes first.
use glanceus.Prelude.{
  ℕ, zero, suc, ◌≤◌, ◌<◌, ◌≡◌, refl, String, true, false, not, ◌&&◌, List, [], ◌∷◌, arith,
  if◌then◌else◌, Bool-cases, All, All-map, length, inl, inr, ltb, sym, ap, subst, ◌⊎◌,
}
use glanceus.Prelude.Dict.{has, delete, all_has, length-delete-has}
use glanceus.Prelude.Sort.{sort, sort-All, length-sort}
use glanceus.Coordinator.State.{QueueTask, SourceUpdateCoordinator, runtime_of, put_runtime}
use glanceus.Coordinator.Queue.{
  tasks, not_after, start_task, pump_one, pump_loop, pump_queue, can_pump, is_empty,
}
use glanceus.Coordinator.Queue.Order.{Precedes, sort-first}
use glanceus.Coordinator.Invariant.Defs.{Inv, IsQueued, runtime_in-set_self}
use glanceus.Coordinator.Invariant.Pump.{pump_one-Inv, pump_queue-Inv}

tasks_have :
    (q m : List (String × QueueTask))
    → All (λ e. (e.1).source_id ≡ e.0) q
    → All (λ e. has (e.0) m ≡ true) q
    → All (λ t. has t.source_id m ≡ true) (tasks q)
tasks_have [] m h k = tt
tasks_have ((key, t) ∷ q) m h k = (rw (h.0) (k.0), tasks_have q m (h.1) (k.1))

-- The first task in order stands in the queue under its own source's key.
first_has :
    (c : SourceUpdateCoordinator) (t : QueueTask) (rest : List QueueTask)
    → Inv c
    → sort not_after (tasks c.queue) ≡ t ∷ rest
    → has t.source_id c.queue ≡ true
first_has c t rest v e = (subst (All (λ u. has u.source_id c.queue ≡ true)) e all_sorted).0
  where
    keyed : All (λ (e' : String × QueueTask). (e'.1).source_id ≡ e'.0) c.queue
    keyed =
        All-map (IsQueued c.next_enqueue_seq c.source_runtime) _ (λ (k, u) q. q.0) c.queue v.queued

    all_sorted : All (λ u. has u.source_id c.queue ≡ true) (sort not_after (tasks c.queue))
    all_sorted =
        sort-All not_after _ (tasks c.queue) (tasks_have c.queue c.queue keyed (all_has c.queue))

sorted_cases :
    (q : List (String × QueueTask))
    → (is_empty q ≡ false)
    → (t : QueueTask) × (rest : List QueueTask) × (sort not_after (tasks q) ≡ t ∷ rest)
sorted_cases [] h = cc
sorted_cases (e ∷ q) h =
    pick (sort not_after (tasks (e ∷ q))) (length-sort not_after (tasks (e ∷ q)))
  where
    pick :
        (s : List QueueTask)
        → length s ≡ length (tasks (e ∷ q))
        → (t : QueueTask) × (rest : List QueueTask) × (s ≡ t ∷ rest)
    pick [] n = absurd (omega arith)
    pick (t ∷ rest) n = (t, rest, refl)

pump_one-shorter :
    (c : SourceUpdateCoordinator)
    → Inv c
    → is_empty c.queue ≡ false
    → length (pump_one c).queue < length c.queue
unfolding pump_one start_task put_runtime
pump_one-shorter c v h = shorter (sorted_cases c.queue h)
  where
    shorter :
        (t : QueueTask) × (rest : List QueueTask) × (sort not_after (tasks c.queue) ≡ t ∷ rest)
        → length (pump_one c).queue < length c.queue
    shorter (t, rest, e) =
        rw (e, pump_one) (length-delete-has t.source_id c.queue (first_has c t rest v e))

pump_loop_done :
    (fuel : ℕ) (c : SourceUpdateCoordinator)
    → length c.queue ≤ fuel
    → Inv c
    → can_pump (pump_loop fuel c) ≡ false
unfolding pump_loop
pump_loop_done zero c h v = empty c.queue h
  where
    empty :
        (q : List (String × QueueTask))
        → length q ≤ 0
        → (ltb c.in_flight_count c.max_concurrency && not (is_empty q)) ≡ false
    empty [] h' = ground arith
    empty (e ∷ q) h' = absurd (omega arith)
pump_loop_done (suc fuel) c h v = elim (Bool-cases (can_pump c)) [
  | inl more ↦
      rw (more, pump_loop)
        (pump_loop_done fuel (pump_one c) (omega (arith, pump_one-shorter c v (ground arith)))
          (pump_one-Inv c (ground arith) v))
  | inr done ↦ rw (done, pump_loop) done
]

-- After a pump of a running coordinator either no task waits or every slot is taken.
pub pump_queue_busy :
    (c : SourceUpdateCoordinator)
    → Inv c
    → c.running ≡ true
    → ((pump_queue c).queue ≡ [])
      ⊎ ((pump_queue c).in_flight_count ≡ (pump_queue c).max_concurrency)
unfolding pump_queue
pump_queue_busy c v on =
    cases (pump_queue c) (pump_queue-Inv c v)
      (subst (λ d. can_pump d ≡ false) pumped (pump_loop_done (length c.queue) c (omega arith) v))
  where
    pumped : pump_loop (length c.queue) c ≡ pump_queue c
    pumped = ap (λ b. if b then pump_loop (length c.queue) c else c) (sym on)

    split :
        (q : List (String × QueueTask)) (n m : ℕ)
        → n ≤ m
        → (ltb n m && not (is_empty q)) ≡ false
        → (q ≡ []) ⊎ (n ≡ m)
    split [] n m h k = inl refl
    split (e ∷ q) n m h k = inr (ground arith)

    cases :
        (d : SourceUpdateCoordinator)
        → Inv d
        → can_pump d ≡ false
        → (d.queue ≡ []) ⊎ (d.in_flight_count ≡ d.max_concurrency)
    cases d w h = split d.queue d.in_flight_count d.max_concurrency w.capacity h

-- A queued task that precedes every other one has left the queue, and its source waits for the
-- request that was made for it.
abbrev pub StartsFirst : SourceUpdateCoordinator → Type 0
StartsFirst c =
    (t : QueueTask) × All (λ u. Precedes t u) (tasks c.queue)
    × (has t.source_id c.queue ≡ true)
    × ((pump_one c).fetches ≡ record { task = t; request_id = c.next_request_id } ∷ c.fetches)
    × ((pump_one c).queue ≡ delete t.source_id c.queue)
    × ((runtime_of t.source_id (pump_one c)).active_request_id ≡ c.next_request_id)

-- A round of the pump on a queue that is not empty starts a queued task that precedes every
-- queued one: it leaves the queue, and its source waits for the request that is made for it.
pub pump_one-StartsFirst :
    (c : SourceUpdateCoordinator) → Inv c → is_empty c.queue ≡ false → StartsFirst c
unfolding pump_one start_task put_runtime runtime_of
pump_one-StartsFirst c v h = first (sorted_cases c.queue h)
  where
    first :
        (t : QueueTask) × (rest : List QueueTask) × (sort not_after (tasks c.queue) ≡ t ∷ rest)
        → StartsFirst c
    first (t, rest, e) = (
      t,
      sort-first (tasks c.queue) t rest e,
      first_has c t rest v e,
      rw (e, pump_one),
      rw (e, pump_one),
      rw (e, pump_one) (rw runtime_in-set_self),
    )
