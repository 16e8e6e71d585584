-- ===== src/Switch.antt =====
-- Switch statements: the comparisons of src/const_eval.c, the checking and sorting of cases of
-- src/resolver/stmts.c, and the choice of a case of src/bytecode/procs.c.
pub mod Values
pub mod Cases
mod Swaps
mod Partition
mod Sort
mod Disjoint
mod Search
mod Choose
mod Tests
