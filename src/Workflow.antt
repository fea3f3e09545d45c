-- ===== src/Workflow.antt =====
-- The human-gated signal workflow: src/flop_agent/workflow.py.
pub mod Signal
pub mod Gate
mod Tests
