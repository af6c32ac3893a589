-- ===== src/Ring.antt =====
-- ServerCore/Memory/RingBuffer.h and RingBuffer.cpp: the receive buffer of a session.
pub mod State
pub mod Transfer
pub mod Segments
pub mod Sizes
mod Copies
pub mod Fifo
pub mod Enqueue
pub mod Dequeue
pub mod Direct
mod Tests
