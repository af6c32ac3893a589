-- ===== src/LockFree.antt =====
-- The lock-free structures of ServerCore/Memory.
pub mod Top
pub mod Safety
pub mod FreeList
pub mod Ownership
pub mod Preallocate
pub mod Destroy
pub mod Stack
pub mod Data
pub mod Count
pub mod Balance
mod Tests
mod StackTests
