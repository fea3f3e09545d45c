-- ===== src/ObservationJournal.antt =====
-- The journal of one observation attempt: durable_observation_journal.py.
pub mod Types
pub mod Validate
pub mod History
pub mod Phases
pub mod Requested
pub mod State
pub mod Store
pub mod Select
pub mod Service
pub mod Calls
pub mod Reads
pub mod Appended
pub mod Moves
pub mod Operations
pub mod Performed
pub mod Projection
pub mod Inspect
pub mod Final
mod Tests
