-- ===== src/Yellowpaper.antt =====
-- The draft wire format of the yellow paper: yellowpaper_wire.py.
pub mod Arguments
pub mod Settlement
pub mod Payable
pub mod Transcript
pub mod Turns
pub mod Policy
pub mod Taken
pub mod Encoded
mod Tests
