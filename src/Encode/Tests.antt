-- ===== src/Encode/Tests.antt =====
-- Runs of the instruction encoder, and an application of its theorem.
use nibble.Prelude.{ℕ, ◌≡◌, refl, List, [], ◌∷◌, some, arith}
use nibble.Regs.{rax, rsi, r12, r13}
use nibble.Encode.Addr.{SibdAddr, local_addr, global_addr, Symbol, symbol_var, const_sym}
use nibble.Encode.Text.{TextGenState}
use nibble.Encode.Instrs.{
  op_add, op_cmp, op_sar, X64Instr, binary_mr, binary_ri, binary_rm, shift_mi, elf_gen_instr,
}
use nibble.Encode.Operands.{base_indexed}
use nibble.Encode.Meaning.{eight_bytes, asm_of, is_mr}
use nibble.Encode.Forms.{Encodes}
use nibble.Encode.Reads.{elf_gen_instr-Encodes}
use nibble.Encode.Patches.{Patches}

abbrev empty_text : TextGenState
empty_text = record { index = 0; buffer = []; proc_off_patches = []; relocs = [] }

abbrev after_code : List ℕ → TextGenState
after_code code = record { index = 0; buffer = code; proc_off_patches = []; relocs = [] }

-- [r13 + r12 * 4 - 8]
abbrev element : SibdAddr
element = local_addr r13 r12 4 0xFFFFFFF8

-- add qword [r13 + r12 * 4 - 8], rax
abbrev add_element : X64Instr
add_element = binary_mr op_add 8 element rax

add_element_bytes :
    elf_gen_instr empty_text add_element ≡ some (after_code (0x4B ∷ 0x01 ∷ 0x44 ∷ 0xA5 ∷ 0xF8 ∷ []))
unfolding elf_gen_instr
add_element_bytes = refl

-- cmp sil, 200, which must not compare DH
cmp_sil_bytes :
    elf_gen_instr empty_text (binary_ri op_cmp 1 rsi 200)
    ≡ some (after_code (0x40 ∷ 0x80 ∷ 0xFE ∷ 0xC8 ∷ []))
unfolding elf_gen_instr
cmp_sil_bytes = refl

-- sar word [r13], 3, which needs a displacement
sar_memory_bytes :
    elf_gen_instr empty_text (shift_mi op_sar 2 (local_addr r13 255 0 0) 3)
    ≡ some (after_code (0x66 ∷ 0x41 ∷ 0xC1 ∷ 0x7D ∷ 0x00 ∷ 0x03 ∷ []))
unfolding elf_gen_instr
sar_memory_bytes = refl

elf_gen_instr-Encodes_example :
    Encodes empty_text (asm_of add_element) (elf_gen_instr empty_text add_element)
elf_gen_instr-Encodes_example = elf_gen_instr-Encodes empty_text (binary_mr op_add 8 element rax) (
    is_mr op_add eight_bytes
      (base_indexed 2 (omega arith) (omega arith) (omega arith) (omega arith) (omega arith) refl)
      (omega arith))

abbrev counter : Symbol
counter = record { id = 1; kind = symbol_var }

-- add rax, [rip + counter]
abbrev add_counter : X64Instr
add_counter = binary_rm op_add 8 rax (global_addr counter)

abbrev after_counter : TextGenState
after_counter = record {
  index = 0;
  buffer = 0x48 ∷ 0x03 ∷ 0x05 ∷ 0 ∷ 0 ∷ 0 ∷ 0 ∷ [];
  proc_off_patches = [];
  relocs =
      record {
        bblock_index = 0;
        bblock_offset = 3;
        bytes_to_next_ip = 4;
        ref_addr = const_sym counter;
      }
      ∷ [];
}
