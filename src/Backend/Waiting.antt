-- ===== src/Backend/Waiting.antt =====
-- Nobody waits for a startup that is over.
use glanceus.Prelude.{
  ℕ, ◌+◌, ◌==◌, ltb, ◌≡◌, refl, sym, subst, Bool, true, false, not, ◌||◌, Option, none, some, List,
  [], ◌∷◌, filter, any, All, All-map, if_rule, arith,
}
use glanceus.Backend.{
  WaitForBackendOptions, Phase, probing, sleeping, Startup, Waiter, Backend, unprobed, is_forced,
  settle_all, waiters_of, drop_promise, end_startup, update_startup, next_round, find_startup,
  new_startup, add_startup, share_startup, forget_backend, wait_unless_ready, ensure_backend_ready,
  probe_answered, slept, BackendTurn, calls, probed, wakes, when_probing, when_sleeping, on_probe,
  on_wake, backend_turn, backend_turns, longer_interval,
}

abbrev pub is_running : ℕ → List Startup → Bool
is_running id = any λ s. s.id == id

-- The startups of those who wait run, and so does that of the promise of a backend that is not
-- ready.
abbrev pub PromiseRuns : Option ℕ → Bool → List Startup → Type 0
PromiseRuns none ready startups = Unit
PromiseRuns (some id) true startups = Unit
PromiseRuns (some id) false startups = is_running id startups ≡ true

abbrev pub WaitersRun : List Startup → List Waiter → Type 0
WaitersRun startups = All (λ w. is_running w.startup startups ≡ true)

abbrev pub IsAwaited : Backend → Type 0
IsAwaited b =
    WaitersRun b.startups b.waiting × PromiseRuns b.backend_ready_promise b.backend_ready b.startups

is_running-update :
    (id j : ℕ) (f : Startup → Startup) (ss : List Startup)
    → is_running j (update_startup id f ss) ≡ is_running j ss
is_running-update id j f [] = refl
is_running-update id j f (s ∷ ss) =
    if_rule
      (λ (t : Startup).
        ((t.id == j) || is_running j (update_startup id f ss)) ≡ ((s.id == j) || is_running j ss))
      (s.id == id) (λ same. ground (arith, is_running-update id j f ss))
      λ other. ground (arith, is_running-update id j f ss)

is_running-without :
    (id j : ℕ) (ss : List Startup)
    → (j == id) ≡ false
    → is_running j ss ≡ true
    → is_running j (filter (λ s. not (s.id == id)) ss) ≡ true
is_running-without id j [] d h = h
is_running-without id j (s ∷ ss) d h = ground (arith, d, h, is_running-without id j ss d)

WaitersRun-without :
    (id : ℕ) (ss : List Startup) (ws : List Waiter)
    → WaitersRun ss ws
    → WaitersRun (filter (λ s. not (s.id == id)) ss) (filter (λ w. not (w.startup == id)) ws)
WaitersRun-without id ss [] h = tt
WaitersRun-without id ss (w ∷ ws) h =
    if_rule (WaitersRun (filter (λ s. not (s.id == id)) ss)) (not (w.startup == id))
      (λ other. (
        is_running-without id w.startup ss (ground (arith, other)) (h.0),
        WaitersRun-without id ss ws (h.1),
      ))
      λ own. WaitersRun-without id ss ws (h.1)

PromiseRuns-mono :
    (p : Option ℕ) (ready : Bool) (ss ts : List Startup)
    → ((j : ℕ) → is_running j ss ≡ true → is_running j ts ≡ true)
    → PromiseRuns p ready ss
    → PromiseRuns p ready ts
PromiseRuns-mono none ready ss ts f h = tt
PromiseRuns-mono (some id) true ss ts f h = tt
PromiseRuns-mono (some id) false ss ts f h = f id h

PromiseRuns-ready : (p : Option ℕ) (ss : List Startup) → PromiseRuns p true ss
PromiseRuns-ready none ss = tt
PromiseRuns-ready (some id) ss = tt

-- More startups, or the same ones changed, leave all as it is.
IsAwaited-mono :
    (b : Backend) (ts : List Startup)
    → ((j : ℕ) → is_running j b.startups ≡ true → is_running j ts ≡ true)
    → IsAwaited b
    → IsAwaited (record b { startups = ts })
IsAwaited-mono b ts f h = (
  All-map (λ (w : Waiter). is_running w.startup b.startups ≡ true)
      (λ (w : Waiter). is_running w.startup ts ≡ true) (λ w k. f w.startup k) b.waiting (h.0),
  PromiseRuns-mono b.backend_ready_promise b.backend_ready b.startups ts f (h.1),
)

update-IsAwaited :
    (id : ℕ) (f : Startup → Startup) (b : Backend)
    → IsAwaited b
    → IsAwaited (record b { startups = update_startup id f b.startups })
update-IsAwaited id f b h =
    IsAwaited-mono b (update_startup id f b.startups)
      (λ j k. ground (arith, k, is_running-update id j f b.startups)) h

drop_promise-IsAwaited :
    (b : Backend) → WaitersRun b.startups b.waiting → IsAwaited (drop_promise b)
drop_promise-IsAwaited b h =
    if_rule IsAwaited b.backend_ready
      (λ ready. (
        h,
        subst (λ r. PromiseRuns b.backend_ready_promise r b.startups) (sym ready)
            (PromiseRuns-ready b.backend_ready_promise b.startups),
      ))
      λ down. (h, tt)

end-IsAwaited :
    (id : ℕ) (up : Bool) (b : Backend)
    → WaitersRun b.startups b.waiting
    → IsAwaited (end_startup id up b)
unfolding end_startup
end-IsAwaited id up b h =
    drop_promise-IsAwaited
      (record b {
        startups = filter (λ s. not (s.id == id)) b.startups;
        waiting = filter (λ w. not (w.startup == id)) b.waiting;
        settled = settle_all up (waiters_of id b.waiting) b.settled;
      })
      (WaitersRun-without id b.startups b.waiting h)

next_round-IsAwaited :
    (now : ℕ) (s : Startup) (b : Backend) → IsAwaited b → IsAwaited (next_round now s b)
unfolding next_round
next_round-IsAwaited now s b h =
    if_rule IsAwaited (ltb now s.deadline)
      (λ early. update-IsAwaited s.id (λ t. record t { phase = probing }) b h)
      λ late. end-IsAwaited s.id false b (h.0)

add-IsAwaited :
    (s : Startup) (caller : ℕ) (b : Backend)
    → b.backend_ready ≡ false
    → IsAwaited b
    → IsAwaited (add_startup s caller b)
add-IsAwaited s caller b down h = (
  (
    ground arith,
    All-map (λ (w : Waiter). is_running w.startup b.startups ≡ true)
        (λ (w : Waiter). is_running w.startup (s ∷ b.startups) ≡ true) (λ w k. ground (arith, k))
        b.waiting (h.0),
  ),
  subst (λ r. PromiseRuns (some s.id) r (s ∷ b.startups)) (sym down) (ground arith),
)

share-IsAwaited :
    (now : ℕ) (options : WaitForBackendOptions) (caller : ℕ) (p : Option ℕ) (b : Backend)
    → b.backend_ready ≡ false
    → PromiseRuns p b.backend_ready b.startups
    → IsAwaited b
    → IsAwaited (share_startup now options caller p b)
share-IsAwaited now options caller none b down runs h =
    next_round-IsAwaited now (new_startup now options b.next_id)
      (add_startup (new_startup now options b.next_id) caller b)
      (add-IsAwaited (new_startup now options b.next_id) caller b down h)
share-IsAwaited now options caller (some id) b down runs h =
    ((subst (λ r. PromiseRuns (some id) r b.startups) down runs, h.0), h.1)

forget-IsAwaited : (force : Bool) (b : Backend) → IsAwaited b → IsAwaited (forget_backend force b)
forget-IsAwaited true b h = (h.0, tt)
forget-IsAwaited false b h = h

unless_ready-IsAwaited :
    (now : ℕ) (options : WaitForBackendOptions) (caller : ℕ) (b : Backend)
    → IsAwaited b
    → IsAwaited (wait_unless_ready now options caller b)
unless_ready-IsAwaited now options caller b h =
    if_rule IsAwaited b.backend_ready (λ ready. h)
      λ down. share-IsAwaited now options caller b.backend_ready_promise b down (h.1) h

probe_answered-IsAwaited :
    (now : ℕ) (up : Bool) (s : Startup) (b : Backend)
    → IsAwaited b
    → IsAwaited (probe_answered now up s b)
unfolding probe_answered
probe_answered-IsAwaited now true s b h =
    end-IsAwaited s.id true (record b { backend_ready = true }) (h.0)
probe_answered-IsAwaited now false s b h =
    update-IsAwaited s.id (λ t. record t { phase = sleeping (now + s.current_interval) }) b h

slept-IsAwaited : (now : ℕ) (s : Startup) (b : Backend) → IsAwaited b → IsAwaited (slept now s b)
unfolding slept
slept-IsAwaited now s b h =
    next_round-IsAwaited now s
      (record b {
        startups =
            update_startup s.id
              (λ t. record t { current_interval = longer_interval t.current_interval }) b.startups;
      })
      (update-IsAwaited s.id
        (λ t. record t { current_interval = longer_interval t.current_interval }) b h)

on_probe-IsAwaited :
    (now : ℕ) (up : Bool) (s : Option Startup) (b : Backend)
    → IsAwaited b
    → IsAwaited (on_probe now up s b)
on_probe-IsAwaited now up none b h = h
on_probe-IsAwaited now up (some s) b h = answered s.phase
  where
    answered : (phase : Phase) → IsAwaited (when_probing now up phase s b)
    answered probing = probe_answered-IsAwaited now up s b h
    answered (sleeping due) = h

on_wake-IsAwaited :
    (now : ℕ) (s : Option Startup) (b : Backend) → IsAwaited b → IsAwaited (on_wake now s b)
on_wake-IsAwaited now none b h = h
on_wake-IsAwaited now (some s) b h = awake s.phase
  where
    awake : (phase : Phase) → IsAwaited (when_sleeping now phase s b)
    awake probing = h
    awake (sleeping due) = slept-IsAwaited now s b h

backend_turn-IsAwaited :
    (now : ℕ) (t : BackendTurn) (b : Backend) → IsAwaited b → IsAwaited (backend_turn now t b)
unfolding backend_turn ensure_backend_ready
backend_turn-IsAwaited now (calls options caller) b h =
    unless_ready-IsAwaited now options caller (forget_backend (is_forced options.force) b)
      (forget-IsAwaited (is_forced options.force) b h)
backend_turn-IsAwaited now (probed id up) b h =
    on_probe-IsAwaited now up (find_startup id b.startups) b h
backend_turn-IsAwaited now (wakes id) b h = on_wake-IsAwaited now (find_startup id b.startups) b h

turns_keep :
    (b : Backend) (ts : List (ℕ × BackendTurn)) → IsAwaited b → IsAwaited (backend_turns b ts)
unfolding backend_turns
turns_keep b [] h = h
turns_keep b ((now, t) ∷ ts) h =
    turns_keep (backend_turn now t b) ts (backend_turn-IsAwaited now t b h)

-- After any history of turns, forced calls included: every caller that waits does so for a startup
-- that runs, and while the server is not known to be up, the promise that the next caller would
-- share is none or that of a startup that runs.
pub backend_turns-IsAwaited : (ts : List (ℕ × BackendTurn)) → IsAwaited (backend_turns unprobed ts)
backend_turns-IsAwaited ts = turns_keep unprobed ts (tt, tt)
