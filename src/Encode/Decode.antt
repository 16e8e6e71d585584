-- ===== src/Encode/Decode.antt =====
-- How the processor reads an instruction, by the tables of the Intel manual (volume 2, chapter 2 and appendix A): a
-- legacy prefix, a REX prefix, an opcode, a ModRM byte, a SIB byte, a displacement, and an immediate. No code of the
-- repository is modelled here.
use nibble.Prelude.{
  ℕ, ◌+◌, ◌*◌, ◌-◌, ◌/◌, ◌%◌, ◌^◌, Bool, true, false, not, ◌&&◌, ◌||◌, List, [], ◌∷◌, Option, none,
  some, ltb, leb, ◌==◌, if◌then◌else◌,
}
use nibble.Encode.Instrs.{
  BinaryOp, op_add, op_sub, op_and, op_or, op_xor, op_cmp, UnaryOp, op_imul, op_mul, op_div,
  op_idiv, op_neg, op_not, ShiftOp, op_shl, op_sar,
}

-- What a ModRM byte addresses. Displacements are two's complements below 2 ^ 32.
pub data Rm : Type 0 where
  direct : ℕ → Rm
  based : (base disp : ℕ) → Rm
  indexed : (base index scale disp : ℕ) → Rm
  rip_relative : (disp : ℕ) → Rm

pub data Operand : Type 0 where
  general_reg : ℕ → Operand
  high_byte_reg : ℕ → Operand
  in_memory : Rm → Operand

pub data Count : Type 0 where
  by_cl : Count
  by_imm : ℕ → Count

pub data Asm : Type 0 where
  binary : (op : BinaryOp) (size : ℕ) (dst src : Operand) → Asm
  binary_imm : (op : BinaryOp) (size : ℕ) (dst : Operand) (imm : ℕ) → Asm
  unary : (op : UnaryOp) (size : ℕ) (operand : Operand) → Asm
  shift : (op : ShiftOp) (size : ℕ) (dst : Operand) (count : Count) → Asm

pub record Read (A : Type 0) : Type 0 where
  pub value : A
  pub rest : List ℕ

-- Little-endian numbers
unfoldable pub read_u8 : List ℕ → Option (Read ℕ)
read_u8 [] = none
read_u8 (a ∷ bytes) = some (record { value = a; rest = bytes })

unfoldable pub read_u16 : List ℕ → Option (Read ℕ)
read_u16 (a ∷ b ∷ bytes) = some (record { value = a + b * 2 ^ 8; rest = bytes })
read_u16 bytes = none

unfoldable pub read_u32 : List ℕ → Option (Read ℕ)
read_u32 (a ∷ b ∷ c ∷ d ∷ bytes) =
    some (record { value = a + b * 2 ^ 8 + c * 2 ^ 16 + d * 2 ^ 24; rest = bytes })
read_u32 bytes = none

-- The two's complement of `bits` bits, from one of `from` bits
unfoldable pub sign_extend : ℕ → ℕ → ℕ → ℕ
sign_extend from bits x = if ltb x (2 ^ from / 2) then x else x + (2 ^ bits - 2 ^ from)

unfoldable pub map_read : {A B : Type 0} → (A → B) → Option (Read A) → Option (Read B)
map_read f none = none
map_read f (some r) = some (record { value = f r.value; rest = r.rest })

unfoldable pub read_disp : ℕ → (ℕ → Rm) → List ℕ → Option (Read Rm)
unfolding read_u8 read_u32 sign_extend map_read
read_disp mode rm bytes =
    if mode == 0
    then some (record { value = rm 0; rest = bytes })
    else if mode == 1
    then map_read (λ disp. rm (sign_extend 8 32 disp)) (read_u8 bytes)
    else map_read rm (read_u32 bytes)

unfoldable pub read_sib : ℕ → ℕ → ℕ → List ℕ → Option (Read Rm)
unfolding read_disp
read_sib x b mode [] = none
read_sib x b mode (sib ∷ bytes) =
    let index = sib / 8 % 8 + x * 8 in
    if sib % 8 == 5 && mode == 0
    then none
    else if index == 4
    then read_disp mode (based (sib % 8 + b * 8)) bytes
    else read_disp mode (indexed (sib % 8 + b * 8) index (2 ^ (sib / 64))) bytes

-- The operand r/m of a ModRM byte, with the bits X and B. An address without a base is not read.
unfoldable pub read_rm : ℕ → ℕ → ℕ → ℕ → List ℕ → Option (Read Rm)
unfolding read_sib read_disp read_u32 map_read
read_rm x b mode rm bytes =
    if mode == 3
    then some (record { value = direct (rm + b * 8); rest = bytes })
    else if rm == 4
    then read_sib x b mode bytes
    else if rm == 5 && mode == 0
    then map_read rip_relative (read_u32 bytes)
    else read_disp mode (based (rm + b * 8)) bytes

-- The prefixes and the opcode; `prefix` is 0 where there is none, and so is `rex`, the low half of the REX prefix.
pub record Head : Type 0 where
  pub prefix : ℕ
  pub has_rex : Bool
  pub rex : ℕ
  pub opcode : ℕ

-- What is read up to the displacement
pub record Fields : Type 0 where
  pub head : Head
  pub reg : ℕ
  pub rm : Rm

unfoldable pub read_fields : Head → List ℕ → Option (Read Fields)
unfolding read_rm map_read
read_fields h [] = none
read_fields h (m ∷ bytes) =
    map_read (λ rm. record { head = h; reg = m / 8 % 8 + h.rex / 4 % 2 * 8; rm = rm })
      (read_rm (h.rex / 2 % 2) (h.rex % 2) (m / 64) (m % 8) bytes)

-- A register operand. Without a REX prefix, the bytes 4 to 7 are AH, CH, DH and BH.
unfoldable pub reg_operand : Bool → ℕ → ℕ → Operand
reg_operand has_rex size r =
    if size == 1 && not has_rex && leb 4 r && leb r 7 then high_byte_reg (r - 4) else general_reg r

unfoldable pub rm_operand : Bool → ℕ → Rm → Operand
unfolding reg_operand
rm_operand has_rex size (direct r) = reg_operand has_rex size r
rm_operand has_rex size rm = in_memory rm

-- Even opcodes are those of bytes.
unfoldable pub operand_size : Head → ℕ
operand_size h =
    if h.opcode % 2 == 0 then 1 else if h.rex / 8 == 1 then 8 else if h.prefix == 0x66 then 2 else 4

unfoldable pub binary_at : ℕ → Option BinaryOp
binary_at n =
    if n == 0
    then some op_add
    else if n == 1
    then some op_or
    else if n == 4
    then some op_and
    else if n == 5
    then some op_sub
    else if n == 6
    then some op_xor
    else if n == 7
    then some op_cmp
    else none

unfoldable pub unary_at : ℕ → Option UnaryOp
unary_at n =
    if n == 2
    then some op_not
    else if n == 3
    then some op_neg
    else if n == 4
    then some op_mul
    else if n == 5
    then some op_imul
    else if n == 6
    then some op_div
    else if n == 7
    then some op_idiv
    else none

unfoldable pub shift_at : ℕ → Option ShiftOp
shift_at n = if n == 4 then some op_shl else if n == 7 then some op_sar else none

unfoldable pub with_op : {A : Type 0} → (A → Option (Read Asm)) → Option A → Option (Read Asm)
with_op f none = none
with_op f (some op) = f op

-- An immediate of an operation on `size` bytes: a byte, which is sign-extended, or up to four bytes
unfoldable pub read_imm : ℕ → ℕ → List ℕ → Option (Read ℕ)
unfolding read_u8 read_u16 read_u32 sign_extend map_read
read_imm opcode size bytes =
    if opcode == 0x83
    then map_read (sign_extend 8 (size * 8)) (read_u8 bytes)
    else if size == 1
    then read_u8 bytes
    else if size == 2
    then read_u16 bytes
    else map_read (sign_extend 32 (if size == 8 then 64 else 32)) (read_u32 bytes)

unfoldable pub shift_count : ℕ → List ℕ → Option (Read Count)
unfolding read_u8 map_read
shift_count opcode bytes =
    if leb opcode 0xC1
    then map_read by_imm (read_u8 bytes)
    else if leb opcode 0xD1
    then some (record { value = by_imm 1; rest = bytes })
    else some (record { value = by_cl; rest = bytes })

-- The opcodes with a ModRM byte of these operations
unfoldable pub read_asm : Read Fields → Option (Read Asm)
unfolding with_op binary_at unary_at shift_at operand_size reg_operand rm_operand read_imm
    shift_count map_read
read_asm fields =
    let f = fields.value in
    let op = f.head.opcode in
    let size = operand_size f.head in
    let rm = rm_operand f.head.has_rex size f.rm in
    let reg = reg_operand f.head.has_rex size f.reg in
    if ltb op 0x40 && ltb (op % 8) 2
    then with_op (λ b. some (record { value = binary b size rm reg; rest = fields.rest }))
        (binary_at (op / 8))
    else if ltb op 0x40 && ltb (op % 8) 4
    then with_op (λ b. some (record { value = binary b size reg rm; rest = fields.rest }))
        (binary_at (op / 8))
    else if op == 0x80 || op == 0x81 || op == 0x83
    then with_op (λ b. map_read (binary_imm b size rm) (read_imm op size fields.rest))
        (binary_at (f.reg % 8))
    else if op == 0xF6 || op == 0xF7
    then with_op (λ u. some (record { value = unary u size rm; rest = fields.rest }))
        (unary_at (f.reg % 8))
    else if (leb 0xC0 op && leb op 0xC1) || (leb 0xD0 op && leb op 0xD3)
    then with_op (λ s. map_read (shift s size rm) (shift_count op fields.rest))
        (shift_at (f.reg % 8))
    else none

unfoldable pub read_opcode : ℕ → Bool → ℕ → List ℕ → Option (Read Fields)
unfolding read_fields
read_opcode prefix has_rex rex [] = none
read_opcode prefix has_rex rex (op ∷ bytes) =
    read_fields (record { prefix = prefix; has_rex = has_rex; rex = rex; opcode = op }) bytes

unfoldable pub read_rex : ℕ → List ℕ → Option (Read Fields)
unfolding read_opcode
read_rex prefix [] = none
read_rex prefix (b ∷ bytes) =
    if b / 16 == 4
    then read_opcode prefix true (b % 16) bytes
    else read_opcode prefix false 0 (b ∷ bytes)

-- 0x66 is the only legacy prefix of these operations.
unfoldable pub read_head : List ℕ → Option (Read Fields)
unfolding read_rex
read_head [] = none
read_head (b ∷ bytes) = if b == 0x66 then read_rex b bytes else read_rex 0 (b ∷ bytes)

unfoldable pub then_asm : Option (Read Fields) → Option (Read Asm)
unfolding read_asm
then_asm none = none
then_asm (some fields) = read_asm fields

-- The instruction at the start of some bytes, and the bytes behind it
unfoldable pub disassemble : List ℕ → Option (Read Asm)
unfolding read_head then_asm
disassemble bytes = then_asm (read_head bytes)
