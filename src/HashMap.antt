-- ===== src/HashMap.antt =====
-- src/hash_map.c: the hash table from numbers to numbers that interns names and memoises types.
pub mod Hash
pub mod Table
pub mod Index
pub mod Probe
pub mod Represents
pub mod Store
mod Rehash
pub mod Refine
mod Tests
