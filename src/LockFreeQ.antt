-- ===== src/LockFreeQ.antt =====
-- LockFreeQ of ServerCore/Memory/LockFreeQ.h: the linked queue with two ends that the send queue of
-- a session is.
pub mod Defs
pub mod System
pub mod Shape
pub mod Local
pub mod Writes
pub mod Nodes
pub mod Moves
pub mod Places
pub mod Current
pub mod Order
pub mod Fifo
pub mod Quiet
pub mod Atomic
mod Tests
