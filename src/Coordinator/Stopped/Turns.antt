-- ===== src/Coordinator/Stopped/Turns.antt =====
-- The turns of a stopped coordinator.
use glanceus.Prelude.{ℕ, ◌≡◌, ◌≢◌, All, false, none, List}
use glanceus.Coordinator.State.{SourceUpdateCoordinator}
use glanceus.Coordinator.Events.{Event, started}

-- The turns that come after a stop.
abbrev pub NoStart : List (ℕ × Event) → Type 0
NoStart = All (λ e. (e.1) ≢ started)

-- The class does not run, and its poll timer is not armed.
abbrev pub IsStopped : SourceUpdateCoordinator → Type 0
IsStopped c = (c.running ≡ false) × (c.poll_timer ≡ none)
