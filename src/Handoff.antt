-- ===== src/Handoff.antt =====
-- The durable one-shot registration: src/flop_agent/sonnet_registration_handoff.py.
pub mod Types
pub mod Decode
pub mod Journal
pub mod Approval
pub mod Service
pub mod Append
pub mod OneShot
pub mod Signing
pub mod Execute
pub mod History
pub mod Blocked
mod Tests
