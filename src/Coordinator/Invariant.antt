-- ===== src/Coordinator/Invariant.antt =====
-- What every turn of the event loop keeps of the coordinator, in modules of their own for the
-- parts of a turn.
pub mod Defs
pub mod Pump
pub mod Submit
pub mod Answers
pub mod Events
