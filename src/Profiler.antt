-- ===== src/Profiler.antt =====
-- Profiler of Profiler.h and Profiler.cpp: the times between ProfileBegin and ProfileEnd, for each
-- thread and tag.
pub mod Table
pub mod Lookup
pub mod Register
pub mod Calls
pub mod Samples
pub mod Measure
pub mod Average
pub mod Extremes
pub mod Trimmed
mod Tests
