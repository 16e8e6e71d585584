-- ===== src/Intern.antt =====
-- The tables of string literals and identifiers of src/nibble.c.
pub mod Pool
mod Compare
mod Chains
mod Unique
mod Tests
