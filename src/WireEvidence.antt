-- ===== src/WireEvidence.antt =====
-- Evidence of wire events: src/flop_agent/wire_evidence.py.
pub mod Types
pub mod Stages
pub mod Routes
pub mod Nonce
pub mod Signing
pub mod Binding
pub mod Scan
pub mod Export
pub mod Transcript
pub mod Assessed
pub mod Bundle
pub mod Public
pub mod Agreement
mod Offered
pub mod Agreed
mod Tests
mod AgreementTests
