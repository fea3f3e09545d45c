-- ===== src/Scheduler.antt =====
-- The scheduler of the engagement collector: src/flop_agent/engagement_scheduler.py.
pub mod Types
pub mod Validate
pub mod Evaluate
pub mod Run
pub mod Validity
pub mod Transitions
pub mod Writes
pub mod Tracking
pub mod Allowed
pub mod Increasing
pub mod Completion
pub mod Settling
pub mod Runs
mod Tests
pub mod History
