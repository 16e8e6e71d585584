-- ===== src/Encode.antt =====
-- src/x64_gen/machine_code.c: how an instruction is written as bytes.
pub mod Addr
pub mod Text
pub mod Writers
pub mod Instrs
pub mod Decode
pub mod Bytes
pub mod Operands
pub mod Addresses
pub mod Fronts
pub mod Meaning
pub mod Opcodes
pub mod Prefixes
pub mod Forms
pub mod Sizes
pub mod BinaryForms
pub mod UnaryForms
pub mod Reads
pub mod Patches
mod Tests
