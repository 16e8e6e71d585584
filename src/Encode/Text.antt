-- ===== src/Encode/Text.antt =====
-- The text of a basic block in src/x64_gen/machine_code.c: immediates, displacements, relocations, and operands.
use nibble.Prelude.{
  ℕ, ◌/◌, ◌%◌, ◌^◌, Bool, true, not, ◌&&◌, List, [], ◌∷◌, ◌++◌, Option, none, some, ◌==◌,
  if◌then◌else◌, length,
}
use nibble.Encode.Addr.{
  ConstAddr, const_sym, const_str_lit, const_float_lit, symbol_var, symbol_proc, AddrBytes,
  mod_indirect, mod_indirect_disp_u8, mod_direct, modrm_byte,
}

-- X64_InternalReloc
pub record InternalReloc : Type 0 where
  pub bblock_index : ℕ
  pub bblock_offset : ℕ
  pub bytes_to_next_ip : ℕ
  pub ref_addr : ConstAddr

-- X64_TextGenState, with the index and the buffer of its basic block
pub record TextGenState : Type 0 where
  pub index : ℕ
  pub buffer : List ℕ
  pub proc_off_patches : List InternalReloc
  pub relocs : List InternalReloc

-- One or more array_push on the buffer
unfoldable pub push_bytes : TextGenState → List ℕ → TextGenState
push_bytes gs bytes = record gs { buffer = gs.buffer ++ bytes }

unfoldable pub imm16_bytes : ℕ → List ℕ
imm16_bytes val = val % 256 ∷ val / 2 ^ 8 % 256 ∷ []

unfoldable pub imm32_bytes : ℕ → List ℕ
imm32_bytes val = val % 256 ∷ val / 2 ^ 8 % 256 ∷ val / 2 ^ 16 % 256 ∷ val / 2 ^ 24 % 256 ∷ []

-- X64_write_imm_bytes for a u32, by 1, 2 or 4 bytes
unfoldable pub imm_bytes : ℕ → ℕ → List ℕ
unfolding imm16_bytes imm32_bytes
imm_bytes val num_bytes =
    if num_bytes == 1
    then val % 256 ∷ []
    else if num_bytes == 2
    then imm16_bytes val
    else imm32_bytes val

unfoldable pub is_linked : ConstAddr → Bool
is_linked (const_str_lit lit) = true
is_linked (const_float_lit lit) = true
is_linked (const_sym sym) = elim sym.kind [
  | symbol_var ↦ true
  | symbol_proc is_foreign ↦ is_foreign
]

-- X64_record_global_entity_offset_usage
unfoldable pub record_global_entity_offset_usage : TextGenState → ConstAddr → TextGenState
unfolding is_linked
record_global_entity_offset_usage gs entity =
    let reloc : InternalReloc = record {
      bblock_index = gs.index;
      bblock_offset = length gs.buffer;
      bytes_to_next_ip = 4;
      ref_addr = entity;
    } in
    if is_linked entity
    then record gs { relocs = gs.relocs ++ reloc ∷ [] }
    else record gs { proc_off_patches = gs.proc_off_patches ++ reloc ∷ [] }

unfoldable pub patched : TextGenState → Option ConstAddr → TextGenState
unfolding record_global_entity_offset_usage
patched gs none = gs
patched gs (some entity) = record_global_entity_offset_usage gs entity

-- X64_write_addr_disp
unfoldable pub write_addr_disp : TextGenState → AddrBytes → TextGenState
unfolding push_bytes imm32_bytes patched
write_addr_disp gs addr =
    if not addr.has_disp
    then gs
    else if addr.mod_bits == mod_indirect && addr.rm == 5
    then push_bytes (patched gs addr.patch_entity) (imm32_bytes 0)
    else if addr.mod_bits == mod_indirect_disp_u8
    then push_bytes gs (addr.disp % 256 ∷ [])
    else push_bytes gs (imm32_bytes addr.disp)

unfoldable pub sib_of : AddrBytes → List ℕ
sib_of addr = if addr.has_sib_byte then addr.sib_byte ∷ [] else []

-- What each writer for an address appends: the bytes in front of it, its ModRM byte, SIB byte and displacement.
unfoldable pub write_mem : TextGenState → List ℕ → ℕ → AddrBytes → TextGenState
unfolding push_bytes modrm_byte sib_of write_addr_disp
write_mem gs front reg addr =
    write_addr_disp (push_bytes gs (front ++ modrm_byte addr.mod_bits reg addr.rm ∷ sib_of addr))
      addr

-- The same for a register
unfoldable pub write_direct : TextGenState → List ℕ → ℕ → ℕ → TextGenState
unfolding push_bytes modrm_byte
write_direct gs front reg rm = push_bytes gs (front ++ modrm_byte mod_direct reg rm ∷ [])
