-- ===== src/Encode/Patches.antt =====
-- The relocations of src/x64_gen/machine_code.c for operands in memory without an immediate behind them.
use nibble.Prelude.{ℕ, ◌+◌, ◌≡◌, true, false, [], ◌∷◌, ◌++◌, length, Option, none, some}
use nibble.Encode.Addr.{
  ConstAddr, const_sym, const_str_lit, const_float_lit, SibdAddr, global_addr, local_addr,
  str_lit_addr, float_lit_addr, AddrBytes,
}
use nibble.Encode.Text.{InternalReloc, TextGenState, is_linked}
use nibble.Encode.Instrs.{
  BinaryOp, UnaryOp, ShiftOp, X64Instr, binary_rm, binary_mr, unary_m, shift_mr,
}

-- What an address refers to that is not known before the program is linked
unfoldable pub entity_of : SibdAddr → Option ConstAddr
entity_of (global_addr symbol) = some (const_sym symbol)
entity_of (local_addr base_reg index_reg scale disp) = none
entity_of (str_lit_addr lit) = some (const_str_lit lit)
entity_of (float_lit_addr lit) = some (const_float_lit lit)

-- A relocation whose count of bytes leads to the end of what is written, where the next instruction is
pub record NextIp (gs after : TextGenState) (entity : ConstAddr) (r : InternalReloc) : Type 0 where
  pub ref : r.ref_addr ≡ entity
  pub bblock : r.bblock_index ≡ gs.index
  pub next : r.bblock_offset + r.bytes_to_next_ip ≡ length after.buffer

-- The relocations that are added: none, one for the linker, or one for the compiler
pub data Patches (gs after : TextGenState) : Option ConstAddr → Type 0 where
  nothing :
      after.relocs ≡ gs.relocs
      → after.proc_off_patches ≡ gs.proc_off_patches
      → Patches gs after none
  for_linker :
      {entity : ConstAddr} (r : InternalReloc)
      → is_linked entity ≡ true
      → after.relocs ≡ gs.relocs ++ r ∷ []
      → after.proc_off_patches ≡ gs.proc_off_patches
      → NextIp gs after entity r
      → Patches gs after (some entity)
  for_compiler :
      {entity : ConstAddr} (r : InternalReloc)
      → is_linked entity ≡ false
      → after.relocs ≡ gs.relocs
      → after.proc_off_patches ≡ gs.proc_off_patches ++ r ∷ []
      → NextIp gs after entity r
      → Patches gs after (some entity)

-- No relocation is asked for.
record IsUnpatched (o : Option AddrBytes) : Type 0 where
  no_entity : (a : AddrBytes) → o ≡ some a → a.patch_entity ≡ none

-- The instructions with an operand in memory and no immediate
pub data Addresses : X64Instr → SibdAddr → Type 0 where
  by_rm :
      (op : BinaryOp) (size dst : ℕ) (src : SibdAddr) → Addresses (binary_rm op size dst src) src
  by_mr :
      (op : BinaryOp) (size : ℕ) (dst : SibdAddr) (src : ℕ)
      → Addresses (binary_mr op size dst src) dst
  by_unary_m : (op : UnaryOp) (size : ℕ) (addr : SibdAddr) → Addresses (unary_m op size addr) addr
  by_shift_mr : (op : ShiftOp) (size : ℕ) (dst : SibdAddr) → Addresses (shift_mr op size dst) dst
