-- ===== src/Encode/Meaning.antt =====
-- What the instructions of src/x64_gen/machine_code.c mean to the processor, and which it has.
use nibble.Prelude.{
  ℕ, ◌+◌, ◌*◌, ◌/◌, ◌%◌, ◌^◌, ◌<◌, ◌≡◌, refl, Bool, true, ◌&&◌, List, ◌++◌, some, leb, ◌==◌,
  if◌then◌else◌, arith, inl, inr, Bool-cases,
}
use nibble.Encode.Addr.{
  SibdAddr, global_addr, local_addr, str_lit_addr, float_lit_addr, bit, has_index,
}
use nibble.Encode.Writers.{
  sized, imm_is_byte, imm_opcode, short_imm_bytes, shift_opcode, shift_imm_bytes,
}
use nibble.Encode.Text.{imm_bytes, imm16_bytes}
use nibble.Encode.Instrs.{
  BinaryOp, UnaryOp, ShiftOp, X64Instr, binary_rr, binary_rm, binary_mr, binary_ri, binary_mi,
  unary_r, unary_m, shift_rr, shift_mr, shift_ri, shift_mi,
}
use nibble.Encode.Decode.{
  general_reg, in_memory, by_cl, by_imm, Asm, binary, binary_imm, unary, shift, map_read,
  sign_extend, read_u8, read_u16, reg_operand, rm_operand, operand_size, read_imm, shift_count,
}
use nibble.Encode.Operands.{rm_of, IsAddr}
use nibble.Encode.Fronts.{head_of}

pub data IsSize : ℕ → Type 0 where
  one_byte : IsSize 1
  two_bytes : IsSize 2
  four_bytes : IsSize 4
  eight_bytes : IsSize 8

-- An immediate is an s32, as its two's complement, that is cut or extended to the size of the operands.
unfoldable pub imm_value : ℕ → ℕ → ℕ
imm_value size imm = sign_extend 32 64 imm % 2 ^ (size * 8)

-- The meaning of an instruction
unfoldable pub asm_of : X64Instr → Asm
unfolding rm_of imm_value
asm_of (binary_rr op size dst src) = binary op size (general_reg dst) (general_reg src)
asm_of (binary_rm op size dst src) = binary op size (general_reg dst) (in_memory (rm_of src))
asm_of (binary_mr op size dst src) = binary op size (in_memory (rm_of dst)) (general_reg src)
asm_of (binary_ri op size dst imm) = binary_imm op size (general_reg dst) (imm_value size imm)
asm_of (binary_mi op size dst imm) = binary_imm op size (in_memory (rm_of dst)) (imm_value size imm)
asm_of (unary_r op size reg) = unary op size (general_reg reg)
asm_of (unary_m op size addr) = unary op size (in_memory (rm_of addr))
asm_of (shift_rr op size dst) = shift op size (general_reg dst) by_cl
asm_of (shift_mr op size dst) = shift op size (in_memory (rm_of dst)) by_cl
asm_of (shift_ri op size dst imm) = shift op size (general_reg dst) (by_imm imm)
asm_of (shift_mi op size dst imm) = shift op size (in_memory (rm_of dst)) (by_imm imm)

-- Sizes of 1, 2, 4 and 8 bytes, integer registers, addresses that the processor has, and immediates in their range
pub data IsInstr : X64Instr → Type 0 where
  is_rr :
      (op : BinaryOp) {size dst src : ℕ}
      → IsSize size
      → dst < 16
      → src < 16
      → IsInstr (binary_rr op size dst src)
  is_rm :
      (op : BinaryOp) {size dst : ℕ} {src : SibdAddr}
      → IsSize size
      → dst < 16
      → IsAddr src
      → IsInstr (binary_rm op size dst src)
  is_mr :
      (op : BinaryOp) {size src : ℕ} {dst : SibdAddr}
      → IsSize size
      → IsAddr dst
      → src < 16
      → IsInstr (binary_mr op size dst src)
  is_ri :
      (op : BinaryOp) {size dst imm : ℕ}
      → IsSize size
      → dst < 16
      → imm < 2 ^ 32
      → IsInstr (binary_ri op size dst imm)
  is_mi :
      (op : BinaryOp) {size imm : ℕ} {dst : SibdAddr}
      → IsSize size
      → IsAddr dst
      → imm < 2 ^ 32
      → IsInstr (binary_mi op size dst imm)
  is_unary_r :
      (op : UnaryOp) {size reg : ℕ} → IsSize size → reg < 16 → IsInstr (unary_r op size reg)
  is_unary_m :
      (op : UnaryOp) {size : ℕ} {addr : SibdAddr}
      → IsSize size
      → IsAddr addr
      → IsInstr (unary_m op size addr)
  is_shift_rr :
      (op : ShiftOp) {size dst : ℕ} → IsSize size → dst < 16 → IsInstr (shift_rr op size dst)
  is_shift_mr :
      (op : ShiftOp) {size : ℕ} {dst : SibdAddr}
      → IsSize size
      → IsAddr dst
      → IsInstr (shift_mr op size dst)
  is_shift_ri :
      (op : ShiftOp) {size dst imm : ℕ}
      → IsSize size
      → dst < 16
      → imm < 256
      → IsInstr (shift_ri op size dst imm)
  is_shift_mi :
      (op : ShiftOp) {size imm : ℕ} {dst : SibdAddr}
      → IsSize size
      → IsAddr dst
      → imm < 256
      → IsInstr (shift_mi op size dst imm)

-- The operands

pub rm_operand-rm_of :
    (has_rex : Bool) (size : ℕ) (addr : SibdAddr)
    → rm_operand has_rex size (rm_of addr) ≡ in_memory (rm_of addr)
unfolding rm_operand rm_of
rm_operand-rm_of has_rex size (global_addr symbol) = refl
rm_operand-rm_of has_rex size (str_lit_addr lit) = refl
rm_operand-rm_of has_rex size (float_lit_addr lit) = refl
rm_operand-rm_of has_rex size (local_addr base_reg index_reg scale disp) =
    elim (Bool-cases (has_index index_reg scale)) [ inl e ↦ rw e refl | inr e ↦ rw e refl ]

-- A register is no high byte where each register that could be one has a REX prefix.
pub reg_operand-general :
    (has_rex : Bool) (size r : ℕ)
    → (size ≡ 1 → (leb 4 r && leb r 7) ≡ true → has_rex ≡ true)
    → reg_operand has_rex size r ≡ general_reg r
unfolding reg_operand
reg_operand-general has_rex size r covered = elim (Bool-cases (size == 1)) [
  | inr e ↦ rw e refl
  | inl e ↦ elim (Bool-cases (leb 4 r && leb r 7)) [
    | inl f ↦ rw (e, covered (ground (arith, e)) f) refl
    | inr f ↦ elim (Bool-cases has_rex) [ inl g ↦ rw (e, g) refl | inr g ↦ rw (e, g) (rw f refl) ]
  ]
]

-- The opcode of bytes is even, the other is odd.
pub operand_size-head :
    {size : ℕ}
    → IsSize size
    → (needed no_high : Bool) (v op : ℕ) → op % 2 ≡ (if size == 1 then 0 else 1)
    → v / 8 ≡ bit (size == 8)
    → operand_size (head_of size needed no_high v op) ≡ size
unfolding operand_size head_of
operand_size-head one_byte needed no_high v op parity wide = rw parity refl
operand_size-head two_bytes needed no_high v op parity wide = rw (parity, wide) refl
operand_size-head four_bytes needed no_high v op parity wide = rw (parity, wide) refl
operand_size-head eight_bytes needed no_high v op parity wide = rw (parity, wide) refl

-- The immediates

one_value : (imm : ℕ) → imm < 2 ^ 32 → imm % 256 ≡ imm_value 1 imm
unfolding imm_value sign_extend
one_value imm h = ground arith

two_value : (imm : ℕ) → imm < 2 ^ 32 → imm % 256 + imm / 2 ^ 8 % 256 * 2 ^ 8 ≡ imm_value 2 imm
unfolding imm_value sign_extend
two_value imm h = ground arith

four_value : (imm : ℕ) → imm < 2 ^ 32 → sign_extend 32 32 imm ≡ imm_value 4 imm
unfolding imm_value sign_extend
four_value imm h = ground arith

eight_value : (imm : ℕ) → imm < 2 ^ 32 → sign_extend 32 64 imm ≡ imm_value 8 imm
unfolding imm_value sign_extend
eight_value imm h = ground arith

whole :
    (imm : ℕ)
    → imm < 2 ^ 32
    → imm % 256
        + imm / 2 ^ 8 % 256 * 2 ^ 8
        + imm / 2 ^ 16 % 256 * 2 ^ 16
        + imm / 2 ^ 24 % 256 * 2 ^ 24
      ≡ imm
whole imm h = omega arith

byte_value :
    {size : ℕ}
    → IsSize size
    → (imm : ℕ) → imm_is_byte imm ≡ true
    → imm < 2 ^ 32
    → (if size == 1 then imm % 256 else sign_extend 8 (size * 8) (imm % 256)) ≡ imm_value size imm
unfolding imm_is_byte imm_value sign_extend
byte_value one_byte imm e h = ground arith
byte_value two_bytes imm e h = ground arith
byte_value four_bytes imm e h = ground arith
byte_value eight_bytes imm e h = ground arith

-- An immediate is read back from the opcode and the bytes that are chosen for it.
pub read_imm-short_imm_bytes :
    {size : ℕ}
    → IsSize size
    → (imm : ℕ) (rest : List ℕ) → imm < 2 ^ 32
    → read_imm (imm_opcode 0x80 0x83 0x81 size imm) size (short_imm_bytes size imm ++ rest)
      ≡ some (record { value = imm_value size imm; rest = rest })
unfolding read_imm imm_opcode short_imm_bytes imm_bytes imm16_bytes read_u8 read_u16 map_read
read_imm-short_imm_bytes one_byte imm rest h = elim (Bool-cases (imm_is_byte imm)) [
  | inl e ↦ rw (e, byte_value one_byte imm e h) refl
  | inr e ↦ rw e (rw (one_value imm h) refl)
]
read_imm-short_imm_bytes two_bytes imm rest h = elim (Bool-cases (imm_is_byte imm)) [
  | inl e ↦ rw (e, byte_value two_bytes imm e h) refl
  | inr e ↦ rw e (rw (two_value imm h) refl)
]
read_imm-short_imm_bytes four_bytes imm rest h = elim (Bool-cases (imm_is_byte imm)) [
  | inl e ↦ rw (e, byte_value four_bytes imm e h) refl
  | inr e ↦ rw e (rw (whole imm h) (rw (four_value imm h) refl))
]
read_imm-short_imm_bytes eight_bytes imm rest h = elim (Bool-cases (imm_is_byte imm)) [
  | inl e ↦ rw (e, byte_value eight_bytes imm e h) refl
  | inr e ↦ rw e (rw (whole imm h) (rw (eight_value imm h) refl))
]

-- A count of 1 has opcodes of its own.
pub shift_count-shift_imm_bytes :
    {size : ℕ}
    → IsSize size
    → (imm : ℕ) (rest : List ℕ)
    → shift_count (shift_opcode size imm) (shift_imm_bytes imm ++ rest)
      ≡ some (record { value = by_imm imm; rest = rest })
unfolding shift_count shift_opcode sized shift_imm_bytes read_u8 map_read
shift_count-shift_imm_bytes {size = size} size_is imm rest = elim (Bool-cases (imm == 1)) [
  | inl e ↦
      let one : 1 ≡ imm = ground (arith, e) in
      elim (Bool-cases (size == 1)) [
        | inl f ↦ rw (e, f) (rw one refl)
        | inr f ↦ rw (e, f) (rw one refl)
      ]
  | inr e ↦ elim (Bool-cases (size == 1)) [ inl f ↦ rw (e, f) refl | inr f ↦ rw (e, f) refl ]
]
