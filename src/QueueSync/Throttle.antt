-- ===== src/QueueSync/Throttle.antt =====
-- No request for a sync is lost, and no request or answer makes a call too early.
use glanceus.Prelude.{
  ℕ, ◌+◌, ◌==◌, ◌≤◌, ◌≡◌, ◌≢◌, refl, Bool, true, false, not, ◌||◌, Option, none, some, Option-cases,
  List, [], ◌∷◌, if_rule, is_some, inl, inr, ◌⊎◌, arith,
}
use glanceus.QueueSync.{
  QueueSync, ScraperQueueSnapshot, mounted, SyncTurn, sync_requested, call_answered, fired,
  sync_turn, sync_turns, arm, store_ids, when_armed, schedule_trailing_queue_snapshot_sync,
  run_queue_snapshot_sync, has_elapsed, release, request_queue_snapshot_sync, timer_fired,
  sync_queue_snapshot_from_rust, queue_snapshot_sync_throttle_ms,
}

-- A sync that is due has a call in flight, whose answer starts it, or an armed timer.
abbrev pub IsTracked : QueueSync → Type 0
IsTracked c = c.pending ≡ true → (c.in_flight ≡ true) ⊎ (is_some c.timer ≡ true)

schedule_lem :
    (c : QueueSync)
    → let d = schedule_trailing_queue_snapshot_sync c in
      (is_some d.timer ≡ true)
      × (d.pending ≡ c.pending)
      × (d.in_flight ≡ c.in_flight)
      × (d.calls ≡ c.calls)
unfolding schedule_trailing_queue_snapshot_sync
schedule_lem c = elim (Option-cases c.timer) [
  | inl e ↦ rw (e, arm) (refl, refl, refl, refl)
  | inr (due, e) ↦ rw (e, arm) (refl, refl, refl, refl)
]

-- What a run of the sync does to what is due: it starts a call, or leaves the sync to the call in
-- flight.
run_lem :
    (now : ℕ) (c : QueueSync)
    → c.scraper_enabled ≡ true
    → let d = run_queue_snapshot_sync now c in
      (d.in_flight ≡ true)
      × ((c.in_flight ≡ false → (d.calls ≡ c.calls + 1) × (d.pending ≡ c.pending))
          × (c.in_flight ≡ true → (d.calls ≡ c.calls) × (d.pending ≡ true)))
unfolding run_queue_snapshot_sync
run_lem now c on = ground (arith, on)

run-IsTracked : (now : ℕ) (c : QueueSync) → IsTracked c → IsTracked (run_queue_snapshot_sync now c)
unfolding run_queue_snapshot_sync
run-IsTracked now c v =
    if_rule IsTracked (not c.scraper_enabled) (λ off. v)
      λ on. if_rule IsTracked c.in_flight (λ busy. λ due. inl busy) λ free. λ due. inl refl

request-IsTracked :
    (now : ℕ) (c : QueueSync) → IsTracked c → IsTracked (request_queue_snapshot_sync now c)
unfolding request_queue_snapshot_sync
request-IsTracked now c v =
    if_rule IsTracked (not c.scraper_enabled) (λ off. v)
      λ on.
        if_rule IsTracked ((c.last_run_at == 0) || has_elapsed now c)
          (λ over. run-IsTracked now c v)
          λ early. λ due. inr (schedule_lem (record c { pending = true })).0

release-IsTracked : (now : ℕ) (c : QueueSync) → IsTracked (release now c)
unfolding release
release-IsTracked now c =
    if_rule IsTracked (not c.pending) (λ quiet. λ due. absurd (ground (arith, quiet, due)))
      λ wanted.
        if_rule IsTracked (has_elapsed now c)
          (λ over.
            run-IsTracked now (record c { in_flight = false; pending = false })
              λ due. absurd (ground (arith, due)))
          λ early. λ due. inr (schedule_lem (record c { in_flight = false })).0

timer-IsTracked : (now : ℕ) (c : QueueSync) → IsTracked (timer_fired now c)
unfolding timer_fired
timer-IsTracked now c =
    if_rule IsTracked (not c.pending) (λ quiet. λ due. absurd (ground (arith, quiet, due)))
      λ wanted.
        run-IsTracked now (record c { timer = none; pending = false })
          λ due. absurd (ground (arith, due))

when_armed-IsTracked :
    (timer : Option ℕ) (now : ℕ) (c : QueueSync) → IsTracked c → IsTracked (when_armed timer now c)
when_armed-IsTracked none now c v = v
when_armed-IsTracked (some due) now c v = timer-IsTracked now c

pub sync_turn-IsTracked :
    (c : QueueSync) (t : ℕ × SyncTurn) → IsTracked c → IsTracked (sync_turn c t)
unfolding sync_turn
sync_turn-IsTracked c (now, sync_requested) v = request-IsTracked now c v
sync_turn-IsTracked c (now, call_answered answer) v =
    if_rule IsTracked c.in_flight
      (λ busy. release-IsTracked now (sync_queue_snapshot_from_rust answer c)) λ free. v
sync_turn-IsTracked c (now, fired) v = when_armed-IsTracked c.timer now c v

sync_turns_keep :
    (c : QueueSync) (ts : List (ℕ × SyncTurn)) → IsTracked c → IsTracked (sync_turns c ts)
unfolding sync_turns
sync_turns_keep c [] v = v
sync_turns_keep c (t ∷ ts) v = sync_turns_keep (sync_turn c t) ts (sync_turn-IsTracked c t v)

-- After any history of turns, a sync that is still due has a call in flight or an armed timer.
pub sync_turns-IsTracked :
    (scraper_enabled : Bool) (ts : List (ℕ × SyncTurn))
    → IsTracked (sync_turns (mounted scraper_enabled) ts)
sync_turns-IsTracked scraper_enabled ts =
    sync_turns_keep (mounted scraper_enabled) ts (λ due. absurd (ground (arith, due)))

-- The first call may be made, or the throttle time since the last one is over.
abbrev pub MayCall : ℕ → QueueSync → Type 0
MayCall now c = (c.last_run_at ≡ 0) ⊎ (c.last_run_at + queue_snapshot_sync_throttle_ms ≤ now)

-- The calls after a turn are those before, or the turn may call.
abbrev CallsLate : ℕ → QueueSync → QueueSync → Type 0
CallsLate now c d = (d.calls ≡ c.calls) ⊎ MayCall now c

request-CallsLate : (now : ℕ) (c : QueueSync) → CallsLate now c (request_queue_snapshot_sync now c)
unfolding request_queue_snapshot_sync
request-CallsLate now c =
    if_rule (CallsLate now c) (not c.scraper_enabled) (λ off. inl refl)
      λ on.
        if_rule (CallsLate now c) ((c.last_run_at == 0) || has_elapsed now c)
          (λ over. inr (ground (arith, over)))
          λ early. inl (schedule_lem (record c { pending = true })).3

release-CallsLate : (now : ℕ) (c : QueueSync) → CallsLate now c (release now c)
unfolding release
release-CallsLate now c =
    if_rule (CallsLate now c) (not c.pending) (λ quiet. inl refl)
      λ wanted.
        if_rule (CallsLate now c) (has_elapsed now c) (λ over. inr (inr (ground (arith, over))))
          λ early. inl (schedule_lem (record c { in_flight = false })).3

answer_lem :
    (answer : Option ScraperQueueSnapshot) (c : QueueSync)
    → let d = sync_queue_snapshot_from_rust answer c in
      (d.calls ≡ c.calls) × (d.last_run_at ≡ c.last_run_at)
unfolding sync_queue_snapshot_from_rust
answer_lem none c = (refl, refl)
answer_lem (some snapshot) c = elim (Option-cases snapshot.queue_source_ids) [
  | inl e ↦ rw (e, store_ids) (refl, refl)
  | inr (ids, e) ↦ rw (e, store_ids) (refl, refl)
]

-- A request or an answer makes a call only if it is the first one or the throttle time since the
-- last call is over.
pub sync_turn-calls :
    (c : QueueSync) (now : ℕ) (e : SyncTurn)
    → e ≢ fired
    → ((sync_turn c (now, e)).calls ≡ c.calls) ⊎ MayCall now c
unfolding sync_turn
sync_turn-calls c now fired h = absurd (h refl)
sync_turn-calls c now sync_requested h = request-CallsLate now c
sync_turn-calls c now (call_answered answer) h =
    if_rule (CallsLate now c) c.in_flight
      (λ busy. ground (
        arith,
        release-CallsLate now (sync_queue_snapshot_from_rust answer c),
        answer_lem answer c,
      ))
      λ free. inl refl

-- A request of an enabled hook has a call in flight, or leaves the sync due on an armed timer.
pub request_lem :
    (c : QueueSync) (now : ℕ)
    → c.scraper_enabled ≡ true
    → let d = sync_turn c (now, sync_requested) in
      (d.in_flight ≡ true) ⊎ ((d.pending ≡ true) × (is_some d.timer ≡ true))
unfolding sync_turn request_queue_snapshot_sync
request_lem c now on =
    if_rule IsServed (not c.scraper_enabled) (λ off. absurd (ground (arith, on, off)))
      λ enabled.
        if_rule IsServed ((c.last_run_at == 0) || has_elapsed now c)
          (λ over. inl (run_lem now c on).0)
          λ early. let s = schedule_lem (record c { pending = true }) in inr (s.1, s.0)
  where
    IsServed : QueueSync → Type 0
    IsServed d = (d.in_flight ≡ true) ⊎ ((d.pending ≡ true) × (is_some d.timer ≡ true))

-- The timer of a sync that is due makes its call, if the hook is enabled and none is in flight.
pub timer_fired_lem :
    (c : QueueSync) (now due : ℕ)
    → c.scraper_enabled ≡ true
    → c.timer ≡ some due
    → c.pending ≡ true
    → c.in_flight ≡ false
    → let d = sync_turn c (now, fired) in
      (d.calls ≡ c.calls + 1) × (d.in_flight ≡ true) × (d.pending ≡ false)
unfolding sync_turn timer_fired
timer_fired_lem c now due on armed wanted free =
    rw (armed, when_armed)
      (let ran = run_lem now (record c { timer = none; pending = false }) on in
        rw wanted (((ran.1).0 free).0, ran.0, ((ran.1).0 free).1))
