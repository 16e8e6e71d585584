-- ===== src/Types.antt =====
-- The types of src/ast/module.c and the tables of integer kinds of src/nibble.c: sizes, layout,
-- conversions.
pub mod Kinds
pub mod Layout
mod Powers
mod Fields
mod Apart
mod Overlay
mod Tests
