-- ===== src/EvidenceTransport.antt =====
-- Evidence transport and retention: src/flop_agent/evidence_transport.py.
pub mod Types
pub mod Parse
pub mod Store
pub mod Contiguous
pub mod Acquire
pub mod Service
pub mod Justified
pub mod Kept
pub mod Preserved
pub mod Reached
pub mod Projection
pub mod Projected
pub mod Reconcile
pub mod Agrees
mod Tests
