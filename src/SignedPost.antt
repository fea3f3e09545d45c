-- ===== src/SignedPost.antt =====
-- Signed posts behind the write fence: src/flop_agent/write_effect.py and the client's `post` in
-- src/flop_agent/technocore.py.
pub mod Fence
pub mod Post
pub mod Once
pub mod Confirmed
mod Tests
