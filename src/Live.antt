-- ===== src/Live.antt =====
-- src/x64_gen/livevar.c: the intervals in which the virtual registers of a procedure are live.
pub mod Instrs
pub mod Intervals
mod Covers
pub mod Touches
mod Spans
mod Shared
mod Tests
