-- ===== src/Encode/Reads.antt =====
-- X64_elf_gen_instr of src/x64_gen/machine_code.c appends bytes that the processor reads as the instruction.
use nibble.Encode.Writers.{shift_opcode, shift_imm_bytes, write_elf_shift_ri, write_elf_shift_mi}
use nibble.Encode.Text.{TextGenState}
use nibble.Encode.Instrs.{
  X64Instr, binary_rr, binary_rm, binary_mr, binary_ri, binary_mi, unary_r, unary_m, shift_rr,
  shift_mr, shift_ri, shift_mi, elf_gen_instr,
}
use nibble.Encode.Decode.{by_imm}
use nibble.Encode.Meaning.{
  asm_of, IsInstr, is_rr, is_rm, is_mr, is_ri, is_mi, is_unary_r, is_unary_m, is_shift_rr,
  is_shift_mr, is_shift_ri, is_shift_mi, shift_count-shift_imm_bytes,
}
use nibble.Encode.Opcodes.{shift_opcode-IsSized}
use nibble.Encode.Forms.{Encodes}
use nibble.Encode.BinaryForms.{
  binary_rr-Encodes, binary_rm-Encodes, binary_mr-Encodes, binary_ri-Encodes, binary_mi-Encodes,
}
use nibble.Encode.UnaryForms.{
  gen_unary_r-Encodes, gen_unary_m-Encodes, shift_r-Encodes, shift_m-Encodes, shift_rr-Encodes,
  shift_mr-Encodes,
}

-- On ADD, SUB, AND, OR, XOR and CMP in the forms RR, RM, MR, RI and MI, on IMUL, MUL, DIV, IDIV, NEG and NOT of one
-- register or address, and on SHL and SAR of a register or an address by CL or by an immediate: X64_elf_gen_instr, where
-- the size, the registers, the addresses and the immediate are in their ranges, ends without an error. What it appends is read as this instruction, by the format of the processor's manual, whatever
-- bytes follow: with the operation, the size and the operands, of which no byte register is taken for AH, CH, DH or
-- BH, and with the sign-extended immediate.
pub elf_gen_instr-Encodes :
    (gs : TextGenState) (instr : X64Instr)
    → IsInstr instr
    → Encodes gs (asm_of instr) (elf_gen_instr gs instr)
unfolding elf_gen_instr asm_of write_elf_shift_ri write_elf_shift_mi
elf_gen_instr-Encodes gs (binary_rr op size dst src) (is_rr _ s hd hs) =
    binary_rr-Encodes gs op size dst src s hd hs
elf_gen_instr-Encodes gs (binary_rm op size dst src) (is_rm _ s hd valid) =
    binary_rm-Encodes gs op size dst src s hd valid
elf_gen_instr-Encodes gs (binary_mr op size dst src) (is_mr _ s valid hs) =
    binary_mr-Encodes gs op size src dst s hs valid
elf_gen_instr-Encodes gs (binary_ri op size dst imm) (is_ri _ s hd fits) =
    binary_ri-Encodes gs op size dst imm s hd fits
elf_gen_instr-Encodes gs (binary_mi op size dst imm) (is_mi _ s valid fits) =
    binary_mi-Encodes gs op size imm dst s valid fits
elf_gen_instr-Encodes gs (unary_r op size reg) (is_unary_r _ s h) =
    gen_unary_r-Encodes gs op size reg s h
elf_gen_instr-Encodes gs (unary_m op size addr) (is_unary_m _ s valid) =
    gen_unary_m-Encodes gs op size addr s valid
elf_gen_instr-Encodes gs (shift_rr op size dst) (is_shift_rr _ s h) =
    shift_rr-Encodes gs op size dst s h
elf_gen_instr-Encodes gs (shift_mr op size dst) (is_shift_mr _ s valid) =
    shift_mr-Encodes gs op size dst s valid
elf_gen_instr-Encodes gs (shift_ri op size dst imm) (is_shift_ri _ s h byte) =
    shift_r-Encodes gs op size dst (shift_opcode size imm) (shift_imm_bytes imm) (by_imm imm) s h
      (shift_opcode-IsSized size imm) (shift_count-shift_imm_bytes s imm)
elf_gen_instr-Encodes gs (shift_mi op size dst imm) (is_shift_mi _ s valid byte) =
    shift_m-Encodes gs op size (shift_opcode size imm) dst (shift_imm_bytes imm) (by_imm imm) s
      valid (shift_opcode-IsSized size imm) (shift_count-shift_imm_bytes s imm)
