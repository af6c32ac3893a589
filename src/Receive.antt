-- ===== src/Receive.antt =====
-- The receiving side of a session: packets out of the bytes that arrive.
pub mod Defs
pub mod Step
pub mod Loop
pub mod Stream
pub mod Straddle
mod Tests
