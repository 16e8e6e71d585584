-- ===== src/RegAlloc.antt =====
-- src/x64_gen/reg_alloc.c: the linear scan register allocator, and the aliasing of virtual registers
-- from src/x64_gen/ir_to_xir.c that it asks for its intervals.
pub mod Aliases
pub mod State
pub mod Order
pub mod Scan
pub mod CallSites
pub mod Invariant
pub mod Effects
pub mod Conflict
pub mod Collect
pub mod Facts
pub mod Handled
pub mod Saves
pub mod Runs
pub mod Safety
mod Tests
