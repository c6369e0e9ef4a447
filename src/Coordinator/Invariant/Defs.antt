-- ===== src/Coordinator/Invariant/Defs.antt =====
-- The invariant of the coordinator, and how the writes to its parts keep it.
use glanceus.Prelude.{
  ℕ, ◌≤◌, ◌<◌, ◌==◌, ◌≡◌, String, str_eq, eq_iff, eq_refl, Bool, true, false, ◌&&◌, Option, List,
  arith, if◌then◌else◌, All, All-map, any, length,
}
use glanceus.Prelude.Dict.{set, delete, lookup-set, lookup-delete}
use glanceus.Coordinator.State.{
  QueueTask, SourceRuntimeState, SourceUpdateCoordinator, Fetch, runtime_in, SourcesWithData,
  Summary, ErrorContext, Poll,
}

abbrev pub Runtimes : Type 0
Runtimes = List (String × SourceRuntimeState)

-- A request of this source with this id waits for its answer.
abbrev pub is_waiting : String → ℕ → List Fetch → Bool
is_waiting id request_id = any (λ f. str_eq f.task.source_id id && (f.request_id == request_id))

-- A queued task stands under its own source's key, is older than the next one, and its source
-- has no request of its own in flight.
abbrev pub IsQueued : ℕ → Runtimes → String × QueueTask → Type 0
IsQueued next_enqueue_seq runtimes (key, task) =
    (task.source_id ≡ key)
    × (task.enqueue_seq < next_enqueue_seq)
    × ((runtime_in key runtimes).in_flight ≡ false)

pub record Inv (c : SourceUpdateCoordinator) : Type 0 where
  pub positive : 1 ≤ c.max_concurrency
  pub capacity : c.in_flight_count ≤ c.max_concurrency
  pub counted : c.in_flight_count ≡ length c.fetches
  pub numbered : 1 ≤ c.next_request_id
  pub requested : All (λ f. (1 ≤ f.request_id) × (f.request_id < c.next_request_id)) c.fetches
  pub queued : All (IsQueued c.next_enqueue_seq c.source_runtime) c.queue
  pub waiting :
      (id : String)
      → (runtime_in id c.source_runtime).in_flight ≡ true
      → is_waiting id (runtime_in id c.source_runtime).active_request_id c.fetches ≡ true

pub runtime_in-set :
    (k j : String) (r : SourceRuntimeState) (m : Runtimes)
    → runtime_in j (set k r m) ≡ (if str_eq k j then r else runtime_in j m)
runtime_in-set k j r m = ground (arith, lookup-set k j r m)

pub runtime_in-delete :
    (k j : String) (m : Runtimes)
    → (runtime_in j (delete k m)).in_flight ≡ true
    → (str_eq k j ≡ false) × (runtime_in j (delete k m) ≡ runtime_in j m)
runtime_in-delete k j m h = ground (arith, lookup-delete k j m)

-- A runtime is written whose flight is as before.
abbrev pub SameFlight : SourceRuntimeState → SourceRuntimeState → Type 0
SameFlight r s = (r.in_flight ≡ s.in_flight) × (r.active_request_id ≡ s.active_request_id)

pub IsQueued-set :
    (n : ℕ) (m : Runtimes) (id : String) (r : SourceRuntimeState)
    → r.in_flight ≡ (runtime_in id m).in_flight
    → (e : String × QueueTask) → IsQueued n m e
    → IsQueued n (set id r m) e
IsQueued-set n m id r h (key, task) q =
    (q.0, q.1, ground (arith, runtime_in-set id key r m, eq_iff id key))

pub put-Inv :
    (c : SourceUpdateCoordinator) (id : String) (r : SourceRuntimeState)
    → SameFlight r (runtime_in id c.source_runtime)
    → Inv c
    → Inv (record c { source_runtime = set id r c.source_runtime })
put-Inv c id r s v = record {
  positive = v.positive;
  capacity = v.capacity;
  counted = v.counted;
  numbered = v.numbered;
  requested = v.requested;
  queued =
      All-map (IsQueued c.next_enqueue_seq c.source_runtime)
        (IsQueued c.next_enqueue_seq (set id r c.source_runtime))
        (IsQueued-set c.next_enqueue_seq c.source_runtime id r (s.0)) c.queue v.queued;
  waiting = λ j h. ground (arith, runtime_in-set id j r c.source_runtime, eq_iff id j, v.waiting j);
}

-- What the invariant does not read may change.
pub unread-Inv :
    (c : SourceUpdateCoordinator) (snapshot : SourcesWithData)
    (summary_by_id : List (String × Summary)) (errors : List ErrorContext) (polls : List Poll)
    (running : Bool) (poll_timer : Option ℕ)
    → Inv c
    → Inv (record c {
      snapshot = snapshot;
      summary_by_id = summary_by_id;
      errors = errors;
      polls = polls;
      running = running;
      poll_timer = poll_timer;
    })
unread-Inv c _ _ _ _ _ _ v = record {
  positive = v.positive;
  capacity = v.capacity;
  counted = v.counted;
  numbered = v.numbered;
  requested = v.requested;
  queued = v.queued;
  waiting = v.waiting;
}

pub runtime_in-set_self :
    (k : String) (r : SourceRuntimeState) (m : Runtimes) → runtime_in k (set k r m) ≡ r
runtime_in-set_self k r m = ground (arith, runtime_in-set k k r m, eq_refl k)
