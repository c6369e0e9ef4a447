-- ===== src/Coordinator/Summaries/Turns.antt =====
-- The turns of the event loop keep the two copies of a source's summary in agreement.
use glanceus.Prelude.{some, IsUnique}
use glanceus.Coordinator.Events.{Event, poll_answers}
use glanceus.Coordinator.Snapshot.{ids_of}

-- The lists of sources that polls are answered with name each source once.
abbrev pub NamesOnce : Event → Type 0
NamesOnce (poll_answers i (some latest)) = IsUnique (ids_of latest)
NamesOnce _ = Unit
