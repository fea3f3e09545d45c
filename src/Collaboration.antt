-- ===== src/Collaboration.antt =====
-- The collaboration reducer: src/flop_agent/collaboration.py.
pub mod Types
pub mod Reduce
pub mod Accepts
pub mod Replay
pub mod Evidence
mod Tests
