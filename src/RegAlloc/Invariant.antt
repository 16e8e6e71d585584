-- ===== src/RegAlloc/Invariant.antt =====
-- The invariant of the main loop of src/x64_gen/reg_alloc.c: who holds which register.
mod Defs
mod Steps
pub use Defs.*
pub use Steps.*
