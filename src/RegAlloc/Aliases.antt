-- ===== src/RegAlloc/Aliases.antt =====
-- XIR_find_alias_reg and XIR_alias_regs of src/x64_gen/ir_to_xir.c: virtual registers that are
-- merged into one are the sets of a union-find forest with path halving and union by size.
pub mod Forest
pub mod Find
pub mod Union
