-- ===== src/Send.antt =====
-- The sending side of a session: what is put into a buffer, and the tasks that pass buffers to
-- WSASend.
pub mod Packet
pub mod Sealed
pub mod System
pub mod Order
pub mod Unsent
pub mod Queued
pub mod Refine
pub mod Composed
mod Tests
