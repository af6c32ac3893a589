-- ===== src/Jobs.antt =====
-- The job system: JobQueue and JobDispatcher of ServerCore/Network.
pub mod System
pub mod Invariant
pub mod Order
pub mod Serial
mod Tests
