-- ===== src/Backend.antt =====
-- ui-react/src/api/client.ts, ensureBackendReady: how the requests of the client wait for the
-- server to be up. One startup probes the server until it answers or the time is over, and callers
-- that come in the meantime share it. A turn carries the time that Date.now gives in it.
pub mod Waiting
mod Tests
use glanceus.Prelude.{
  ℕ, ◌+◌, ◌*◌, ◌/◌, ◌==◌, ltb, min, Bool, true, false, not, Option, none, some, List, [], ◌∷◌, map,
  filter, if◌then◌else◌,
}

-- WaitForBackendOptions, with the defaults of what is not given.
pub record WaitForBackendOptions : Type 0 where
  pub force : Option Bool
  pub timeout_ms : Option ℕ
  pub interval_ms : Option ℕ

-- A startup waits for the answer of a probe, or sleeps.
pub data Phase : Type 0 where
  probing : Phase
  sleeping : (due : ℕ) → Phase

-- The async function behind backendReadyPromise. `id` tells its promise from others.
pub record Startup : Type 0 where
  pub id : ℕ
  pub deadline : ℕ
  pub current_interval : ℕ
  pub phase : Phase

pub record Waiter : Type 0 where
  pub caller : ℕ
  pub startup : ℕ

-- The variables of the module, the startups that run, the callers that wait for one, and those that
-- are done, with whether they were told that the server is up.
pub record Backend : Type 0 where
  pub backend_ready : Bool
  pub backend_ready_promise : Option ℕ
  pub startups : List Startup
  pub next_id : ℕ
  pub waiting : List Waiter
  pub settled : List (ℕ × Bool)

abbrev pub unprobed : Backend
unprobed = record {
  backend_ready = false;
  backend_ready_promise = none;
  startups = [];
  next_id = 0;
  waiting = [];
  settled = [];
}

abbrev pub or_default : Option ℕ → ℕ → ℕ
or_default none d = d
or_default (some n) d = n

abbrev pub is_forced : Option Bool → Bool
is_forced none = false
is_forced (some b) = b

abbrev pub waiters_of : ℕ → List Waiter → List Waiter
waiters_of id = filter λ w. w.startup == id

abbrev pub settle_all : Bool → List Waiter → List (ℕ × Bool) → List (ℕ × Bool)
settle_all up [] settled = settled
settle_all up (w ∷ ws) settled = settle_all up ws ((w.caller, up) ∷ settled)

-- The end of a startup, and the finally clause of the caller that made it: a promise of a backend
-- that is not ready is dropped.
abbrev pub drop_promise : Backend → Backend
drop_promise b = if b.backend_ready then b else record b { backend_ready_promise = none }

unfoldable pub end_startup : ℕ → Bool → Backend → Backend
end_startup id up b = drop_promise (record b {
  startups = filter (λ s. not (s.id == id)) b.startups;
  waiting = filter (λ w. not (w.startup == id)) b.waiting;
  settled = settle_all up (waiters_of id b.waiting) b.settled;
})

abbrev pub update_startup : ℕ → (Startup → Startup) → List Startup → List Startup
update_startup id f = map λ s. if s.id == id then record (f s) { id = s.id } else s

-- The test of the loop: it probes again, or the startup has timed out.
unfoldable pub next_round : ℕ → Startup → Backend → Backend
unfolding end_startup
next_round now startup b =
    if ltb now startup.deadline
    then record b {
      startups = update_startup startup.id (λ s. record s { phase = probing }) b.startups;
    }
    else end_startup startup.id false b

abbrev pub find_startup : ℕ → List Startup → Option Startup
find_startup id [] = none
find_startup id (s ∷ ss) = if s.id == id then some s else find_startup id ss

abbrev pub new_startup : ℕ → WaitForBackendOptions → ℕ → Startup
new_startup now options id = record {
  id = id;
  deadline = now + or_default options.timeout_ms 20_000;
  current_interval = or_default options.interval_ms 250;
  phase = probing;
}

abbrev pub add_startup : Startup → ℕ → Backend → Backend
add_startup startup caller b = record b {
  backend_ready_promise = some startup.id;
  startups = startup ∷ b.startups;
  next_id = b.next_id + 1;
  waiting = record { caller = caller; startup = startup.id } ∷ b.waiting;
}

abbrev pub share_startup : ℕ → WaitForBackendOptions → ℕ → Option ℕ → Backend → Backend
share_startup now options caller (some id) b = record b {
  waiting = record { caller = caller; startup = id } ∷ b.waiting;
}
share_startup now options caller none b =
    next_round now (new_startup now options b.next_id)
      (add_startup (new_startup now options b.next_id) caller b)

abbrev pub forget_backend : Bool → Backend → Backend
forget_backend true b = record b { backend_ready = false; backend_ready_promise = none }
forget_backend false b = b

abbrev pub wait_unless_ready : ℕ → WaitForBackendOptions → ℕ → Backend → Backend
wait_unless_ready now options caller b =
    if b.backend_ready
    then record b { settled = (caller, true) ∷ b.settled }
    else share_startup now options caller b.backend_ready_promise b

-- ensureBackendReady, as a caller calls it.
unfoldable pub ensure_backend_ready : ℕ → WaitForBackendOptions → ℕ → Backend → Backend
unfolding next_round
ensure_backend_ready now options caller b =
    wait_unless_ready now options caller (forget_backend (is_forced options.force) b)

-- After the await of a probe.
unfoldable pub probe_answered : ℕ → Bool → Startup → Backend → Backend
unfolding end_startup
probe_answered now true startup b = end_startup startup.id true (record b { backend_ready = true })
probe_answered now false startup b = record b {
  startups =
      update_startup startup.id
        (λ s. record s { phase = sleeping (now + startup.current_interval) }) b.startups;
}

-- After the await of sleep: the interval grows by 1.35, to a second at most.
abbrev pub longer_interval : ℕ → ℕ
longer_interval interval = min (interval * 135 / 100) 1000

unfoldable pub slept : ℕ → Startup → Backend → Backend
unfolding next_round
slept now startup b = next_round now startup (record b {
  startups =
      update_startup startup.id
        (λ s. record s { current_interval = longer_interval s.current_interval }) b.startups;
})

pub data BackendTurn : Type 0 where
  calls : WaitForBackendOptions → (caller : ℕ) → BackendTurn
  probed : (startup : ℕ) → Bool → BackendTurn
  wakes : (startup : ℕ) → BackendTurn

-- A probe answers a startup that waits for it, and the sleep of one that sleeps ends.
abbrev pub when_probing : ℕ → Bool → Phase → Startup → Backend → Backend
when_probing now up probing startup b = probe_answered now up startup b
when_probing now up (sleeping due) startup b = b

abbrev pub when_sleeping : ℕ → Phase → Startup → Backend → Backend
when_sleeping now probing startup b = b
when_sleeping now (sleeping due) startup b = slept now startup b

abbrev pub on_probe : ℕ → Bool → Option Startup → Backend → Backend
on_probe now up none b = b
on_probe now up (some startup) b = when_probing now up startup.phase startup b

abbrev pub on_wake : ℕ → Option Startup → Backend → Backend
on_wake now none b = b
on_wake now (some startup) b = when_sleeping now startup.phase startup b

unfoldable pub backend_turn : ℕ → BackendTurn → Backend → Backend
unfolding ensure_backend_ready probe_answered slept
backend_turn now (calls options caller) b = ensure_backend_ready now options caller b
backend_turn now (probed id up) b = on_probe now up (find_startup id b.startups) b
backend_turn now (wakes id) b = on_wake now (find_startup id b.startups) b

unfoldable pub backend_turns : Backend → List (ℕ × BackendTurn) → Backend
unfolding backend_turn
backend_turns b [] = b
backend_turns b ((now, t) ∷ ts) = backend_turns (backend_turn now t b) ts
