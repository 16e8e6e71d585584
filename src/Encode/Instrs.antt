-- ===== src/Encode/Instrs.antt =====
-- Some of the integer instructions of X64_elf_gen_instr in src/x64_gen/machine_code.c, with the opcodes that it gives to
-- the writers: ADD, SUB, AND, OR, XOR and CMP; IMUL, MUL, DIV, IDIV, NEG and NOT with one operand; SHL and SAR.
--
-- The source has a kind of instruction for each operation and form; here a constructor stands for a form.
use nibble.Prelude.{ℕ, ◌+◌, Option, some}
use nibble.Encode.Addr.{SibdAddr}
use nibble.Encode.Writers.{
  write_elf_binary_instr_rr, write_elf_binary_instr_rm, write_elf_binary_instr_mr,
  write_elf_binary_instr_ri, write_elf_binary_instr_mi, write_elf_binary_rax_instr_r,
  write_elf_binary_rax_instr_m, write_elf_unary_neg_r, write_elf_unary_neg_m, write_elf_shift_r,
  write_elf_shift_m, write_elf_shift_ri, write_elf_shift_mi,
}
use nibble.Encode.Text.{TextGenState}

pub data BinaryOp : Type 0 where
  op_add : BinaryOp
  op_sub : BinaryOp
  op_and : BinaryOp
  op_or : BinaryOp
  op_xor : BinaryOp
  op_cmp : BinaryOp

-- The operations on one operand: with RAX, or in place
pub data UnaryOp : Type 0 where
  op_imul : UnaryOp
  op_mul : UnaryOp
  op_div : UnaryOp
  op_idiv : UnaryOp
  op_neg : UnaryOp
  op_not : UnaryOp

pub data ShiftOp : Type 0 where
  op_shl : ShiftOp
  op_sar : ShiftOp

pub data X64Instr : Type 0 where
  binary_rr : (op : BinaryOp) (size dst src : ℕ) → X64Instr
  binary_rm : (op : BinaryOp) (size dst : ℕ) (src : SibdAddr) → X64Instr
  binary_mr : (op : BinaryOp) (size : ℕ) (dst : SibdAddr) (src : ℕ) → X64Instr
  binary_ri : (op : BinaryOp) (size dst imm : ℕ) → X64Instr
  binary_mi : (op : BinaryOp) (size : ℕ) (dst : SibdAddr) (imm : ℕ) → X64Instr
  unary_r : (op : UnaryOp) (size reg : ℕ) → X64Instr
  unary_m : (op : UnaryOp) (size : ℕ) (addr : SibdAddr) → X64Instr
  shift_rr : (op : ShiftOp) (size dst : ℕ) → X64Instr
  shift_mr : (op : ShiftOp) (size : ℕ) (dst : SibdAddr) → X64Instr
  shift_ri : (op : ShiftOp) (size dst imm : ℕ) → X64Instr
  shift_mi : (op : ShiftOp) (size : ℕ) (dst : SibdAddr) (imm : ℕ) → X64Instr

-- The opcodes of the form with a register as the source; the next one is that for larger operands, and the two
-- behind these are those of the form RM.
unfoldable pub binary_opcode : BinaryOp → ℕ
binary_opcode op_add = 0x00
binary_opcode op_sub = 0x28
binary_opcode op_and = 0x20
binary_opcode op_or = 0x08
binary_opcode op_xor = 0x30
binary_opcode op_cmp = 0x38

unfoldable pub binary_ext : BinaryOp → ℕ
binary_ext op_add = 0
binary_ext op_sub = 5
binary_ext op_and = 4
binary_ext op_or = 1
binary_ext op_xor = 6
binary_ext op_cmp = 7

unfoldable pub shift_ext : ShiftOp → ℕ
shift_ext op_shl = 4
shift_ext op_sar = 7

unfoldable pub gen_unary_r : TextGenState → UnaryOp → ℕ → ℕ → TextGenState
unfolding write_elf_binary_rax_instr_r write_elf_unary_neg_r
gen_unary_r gs op_imul size reg = write_elf_binary_rax_instr_r gs 0xF6 0xF7 5 size reg
gen_unary_r gs op_mul size reg = write_elf_binary_rax_instr_r gs 0xF6 0xF7 4 size reg
gen_unary_r gs op_div size reg = write_elf_binary_rax_instr_r gs 0xF6 0xF7 6 size reg
gen_unary_r gs op_idiv size reg = write_elf_binary_rax_instr_r gs 0xF6 0xF7 7 size reg
gen_unary_r gs op_neg size reg = write_elf_unary_neg_r gs 3 size reg
gen_unary_r gs op_not size reg = write_elf_unary_neg_r gs 2 size reg

unfoldable pub gen_unary_m : TextGenState → UnaryOp → ℕ → SibdAddr → Option TextGenState
unfolding write_elf_binary_rax_instr_m write_elf_unary_neg_m
gen_unary_m gs op_imul size addr = write_elf_binary_rax_instr_m gs 0xF6 0xF7 5 size addr
gen_unary_m gs op_mul size addr = write_elf_binary_rax_instr_m gs 0xF6 0xF7 4 size addr
gen_unary_m gs op_div size addr = write_elf_binary_rax_instr_m gs 0xF6 0xF7 6 size addr
gen_unary_m gs op_idiv size addr = write_elf_binary_rax_instr_m gs 0xF6 0xF7 7 size addr
gen_unary_m gs op_neg size addr = write_elf_unary_neg_m gs 3 size addr
gen_unary_m gs op_not size addr = write_elf_unary_neg_m gs 2 size addr

-- X64_elf_gen_instr
unfoldable pub elf_gen_instr : TextGenState → X64Instr → Option TextGenState
unfolding binary_opcode binary_ext shift_ext gen_unary_r gen_unary_m write_elf_binary_instr_rr
    write_elf_binary_instr_rm write_elf_binary_instr_mr write_elf_binary_instr_ri
    write_elf_binary_instr_mi write_elf_shift_r write_elf_shift_m write_elf_shift_ri
    write_elf_shift_mi
elf_gen_instr gs (binary_rr op size dst src) =
    some (write_elf_binary_instr_rr gs (binary_opcode op) (binary_opcode op + 1) size dst src)
elf_gen_instr gs (binary_rm op size dst src) =
    write_elf_binary_instr_rm gs (binary_opcode op + 2) (binary_opcode op + 3) size dst src
elf_gen_instr gs (binary_mr op size dst src) =
    write_elf_binary_instr_mr gs (binary_opcode op) (binary_opcode op + 1) size dst src
elf_gen_instr gs (binary_ri op size dst imm) =
    some (write_elf_binary_instr_ri gs 0x80 0x83 0x81 (binary_ext op) size dst imm)
elf_gen_instr gs (binary_mi op size dst imm) =
    write_elf_binary_instr_mi gs 0x80 0x83 0x81 (binary_ext op) size dst imm
elf_gen_instr gs (unary_r op size reg) = some (gen_unary_r gs op size reg)
elf_gen_instr gs (unary_m op size addr) = gen_unary_m gs op size addr
elf_gen_instr gs (shift_rr op size dst) = some (write_elf_shift_r gs (shift_ext op) size dst)
elf_gen_instr gs (shift_mr op size dst) = write_elf_shift_m gs (shift_ext op) size dst
elf_gen_instr gs (shift_ri op size dst imm) =
    some (write_elf_shift_ri gs (shift_ext op) size dst imm)
elf_gen_instr gs (shift_mi op size dst imm) = write_elf_shift_mi gs (shift_ext op) size dst imm
