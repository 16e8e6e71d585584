-- ===== src/Arith.antt =====
-- Integer literals and the operands of arithmetic: src/resolver/exprs.c.
pub mod Operands
pub mod Literals
mod Common
mod Lossless
mod Tests
