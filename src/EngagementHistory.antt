-- ===== src/EngagementHistory.antt =====
-- The file of engagement samples: src/flop_agent/engagement_history.py.
pub mod Load
pub mod Append
pub mod Appended
pub mod Recorded
pub mod Durable
pub mod Acknowledged
mod Tests
