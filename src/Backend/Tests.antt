-- ===== src/Backend/Tests.antt =====
-- The startup of the backend at concrete turns.
use glanceus.Prelude.{ℕ, ◌≡◌, refl, true, false, none, some, List, [], ◌∷◌}
use glanceus.Backend.{
  WaitForBackendOptions, unprobed, BackendTurn, calls, probed, wakes, backend_turns,
}
use glanceus.Backend.Waiting.{IsAwaited, backend_turns-IsAwaited}

abbrev as_usual : WaitForBackendOptions
as_usual = record { force = none; timeout_ms = some 600; interval_ms = none }

-- Two callers share a startup, which finds the server at its second probe.
abbrev shared : List (ℕ × BackendTurn)
shared =
    (0, calls as_usual 1)
    ∷ (10, calls as_usual 2)
    ∷ (20, probed 0 false)
    ∷ (270, wakes 0)
    ∷ (290, probed 0 true)
    ∷ (300, calls as_usual 3)
    ∷ []

all_told : (backend_turns unprobed shared).settled ≡ (3, true) ∷ (1, true) ∷ (2, true) ∷ []
unfolding backend_turns
all_told = refl

-- Out of time, the caller is told so, and the next one starts again.
abbrev late : List (ℕ × BackendTurn)
late = (0, calls as_usual 1) ∷ (20, probed 0 false) ∷ (700, wakes 0) ∷ (800, calls as_usual 2) ∷ []

timed_out : (backend_turns unprobed late).settled ≡ (1, false) ∷ []
unfolding backend_turns
timed_out = refl

started_again : (backend_turns unprobed late).backend_ready_promise ≡ some 1
unfolding backend_turns
started_again = refl

backend_turns-IsAwaited_example : IsAwaited (backend_turns unprobed shared)
backend_turns-IsAwaited_example = backend_turns-IsAwaited shared
