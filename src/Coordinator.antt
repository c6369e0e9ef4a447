-- ===== src/Coordinator.antt =====
-- ui-react/src/pages/sourceUpdateCoordinator.ts: the scheduler that keeps the dashboard's sources
-- fresh. `State` is the class with its options, `Merge` what a fetched detail does to a summary,
-- `Queue` and `Submit` the methods on the queue, `Snapshot` the writes to the shared snapshot,
-- `Events` the handlers that the event loop calls. The others prove what these guarantee.
pub mod State
pub mod Merge
pub mod Queue
pub mod Submit
pub mod Snapshot
pub mod Events
pub mod Invariant
pub mod Progress
pub mod Submitted
pub mod Stopped
pub mod Summaries
pub mod Forget
mod Tests
