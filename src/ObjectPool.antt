-- ===== src/ObjectPool.antt =====
-- ObjectPool and ChunkPage of ServerCore/Memory/ObjectPool.h and Chunk.h: slots of one type, in pages
-- that threads take from.
pub mod Defs
pub mod Places
pub mod Pages
pub mod Ownership
pub mod SlotCount
pub mod Reach
pub mod Abandoned
mod Tests
