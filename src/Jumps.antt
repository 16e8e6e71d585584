-- ===== src/Jumps.antt =====
-- The relaxation of jumps in X64_elf_gen_instrs of src/x64_gen/machine_code.c.
pub mod Relax
pub mod Offsets
pub mod Steps
pub mod Passes
pub mod Bounds
pub mod Loop
pub mod Lands
pub mod Settles
mod Tests
