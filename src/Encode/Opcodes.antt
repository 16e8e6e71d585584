-- ===== src/Encode/Opcodes.antt =====
-- The opcodes of X64_elf_gen_instr in src/x64_gen/machine_code.c among those of the processor.
use nibble.Prelude.{
  ℕ, ◌+◌, ◌/◌, ◌%◌, ◌≡◌, refl, Bool, true, false, not, ◌&&◌, ◌||◌, List, Option, some, ltb, leb,
  ◌==◌, if◌then◌else◌, arith, inl, inr, Bool-cases,
}
use nibble.Encode.Writers.{sized, imm_is_byte, imm_opcode, shift_opcode}
use nibble.Encode.Instrs.{
  BinaryOp, op_add, op_sub, op_and, op_or, op_xor, op_cmp, UnaryOp, ShiftOp, op_shl, op_sar,
  binary_opcode, binary_ext, shift_ext,
}
use nibble.Encode.Decode.{
  Operand, Count, by_cl, binary, binary_imm, unary, shift, Read, Fields, map_read, reg_operand,
  rm_operand, operand_size, binary_at, unary_at, shift_at, with_op, read_imm, shift_count, read_asm,
}
use nibble.Encode.Fronts.{is_opcode}

-- An opcode that is no prefix, is even for bytes only, and stands for one operation in a class of opcodes
pub record IsOpcode {A : Type 0} (class_of : ℕ → Bool) (op_of : ℕ → Option A) (is_byte : Bool)
    (op : A) (opcode : ℕ) : Type 0 where
  pub class : class_of opcode ≡ true
  pub op_is : op_of opcode ≡ some op
  pub fresh : is_opcode opcode ≡ true
  pub parity : opcode % 2 ≡ (if is_byte then 0 else 1)

abbrev pub is_store : ℕ → Bool
is_store op = ltb op 0x40 && ltb (op % 8) 2

abbrev pub is_load : ℕ → Bool
is_load op = not (ltb op 0x40 && ltb (op % 8) 2) && (ltb op 0x40 && ltb (op % 8) 4)

abbrev pub op_of : ℕ → Option BinaryOp
op_of op = binary_at (op / 8)

abbrev pub is_imm : ℕ → Bool
is_imm op = op == 0x80 || op == 0x81 || op == 0x83

abbrev pub is_unary : ℕ → Bool
is_unary op = op == 0xF6 || op == 0xF7

abbrev pub is_shift : ℕ → Bool
is_shift op = (leb 0xC0 op && leb op 0xC1) || (leb 0xD0 op && leb op 0xD3)

pub store-IsOpcode :
    (op : BinaryOp) (t : Bool)
    → IsOpcode is_store op_of t op (if t then binary_opcode op else binary_opcode op + 1)
unfolding binary_opcode binary_at is_opcode
store-IsOpcode op_add true = record { class = refl; op_is = refl; fresh = refl; parity = refl }
store-IsOpcode op_add false = record { class = refl; op_is = refl; fresh = refl; parity = refl }
store-IsOpcode op_sub true = record { class = refl; op_is = refl; fresh = refl; parity = refl }
store-IsOpcode op_sub false = record { class = refl; op_is = refl; fresh = refl; parity = refl }
store-IsOpcode op_and true = record { class = refl; op_is = refl; fresh = refl; parity = refl }
store-IsOpcode op_and false = record { class = refl; op_is = refl; fresh = refl; parity = refl }
store-IsOpcode op_or true = record { class = refl; op_is = refl; fresh = refl; parity = refl }
store-IsOpcode op_or false = record { class = refl; op_is = refl; fresh = refl; parity = refl }
store-IsOpcode op_xor true = record { class = refl; op_is = refl; fresh = refl; parity = refl }
store-IsOpcode op_xor false = record { class = refl; op_is = refl; fresh = refl; parity = refl }
store-IsOpcode op_cmp true = record { class = refl; op_is = refl; fresh = refl; parity = refl }
store-IsOpcode op_cmp false = record { class = refl; op_is = refl; fresh = refl; parity = refl }

pub load-IsOpcode :
    (op : BinaryOp) (t : Bool)
    → IsOpcode is_load op_of t op (if t then binary_opcode op + 2 else binary_opcode op + 3)
unfolding binary_opcode binary_at is_opcode
load-IsOpcode op_add true = record { class = refl; op_is = refl; fresh = refl; parity = refl }
load-IsOpcode op_add false = record { class = refl; op_is = refl; fresh = refl; parity = refl }
load-IsOpcode op_sub true = record { class = refl; op_is = refl; fresh = refl; parity = refl }
load-IsOpcode op_sub false = record { class = refl; op_is = refl; fresh = refl; parity = refl }
load-IsOpcode op_and true = record { class = refl; op_is = refl; fresh = refl; parity = refl }
load-IsOpcode op_and false = record { class = refl; op_is = refl; fresh = refl; parity = refl }
load-IsOpcode op_or true = record { class = refl; op_is = refl; fresh = refl; parity = refl }
load-IsOpcode op_or false = record { class = refl; op_is = refl; fresh = refl; parity = refl }
load-IsOpcode op_xor true = record { class = refl; op_is = refl; fresh = refl; parity = refl }
load-IsOpcode op_xor false = record { class = refl; op_is = refl; fresh = refl; parity = refl }
load-IsOpcode op_cmp true = record { class = refl; op_is = refl; fresh = refl; parity = refl }
load-IsOpcode op_cmp false = record { class = refl; op_is = refl; fresh = refl; parity = refl }

-- The operations that an extension of an opcode stands for

pub binary_at-ext : (op : BinaryOp) → binary_at (binary_ext op) ≡ some op
unfolding binary_at binary_ext
binary_at-ext op_add = refl
binary_at-ext op_sub = refl
binary_at-ext op_and = refl
binary_at-ext op_or = refl
binary_at-ext op_xor = refl
binary_at-ext op_cmp = refl

pub binary_ext-below : (op : BinaryOp) → ltb (binary_ext op) 8 ≡ true
unfolding binary_ext
binary_ext-below op_add = refl
binary_ext-below op_sub = refl
binary_ext-below op_and = refl
binary_ext-below op_or = refl
binary_ext-below op_xor = refl
binary_ext-below op_cmp = refl

pub shift_at-ext : (op : ShiftOp) → shift_at (shift_ext op) ≡ some op
unfolding shift_at shift_ext
shift_at-ext op_shl = refl
shift_at-ext op_sar = refl

pub shift_ext-below : (op : ShiftOp) → ltb (shift_ext op) 8 ≡ true
unfolding shift_ext
shift_ext-below op_shl = refl
shift_ext-below op_sar = refl

-- What the processor does with each class

module _ (f : Read Fields) (size : ℕ) (size_is : operand_size f.value.head ≡ size) where
  pub read_asm-store :
      (op : BinaryOp) (is_byte : Bool) (dst src : Operand)
      → IsOpcode is_store op_of is_byte op f.value.head.opcode
      → rm_operand f.value.head.has_rex size f.value.rm ≡ dst
      → reg_operand f.value.head.has_rex size f.value.reg ≡ src
      → read_asm f ≡ some (record { value = binary op size dst src; rest = f.rest })
  unfolding read_asm with_op
  read_asm-store op is_byte dst src o rm_is reg_is =
      rw (o.class, o.op_is, size_is, rm_is, reg_is) refl

  pub read_asm-load :
      (op : BinaryOp) (is_byte : Bool) (dst src : Operand)
      → IsOpcode is_load op_of is_byte op f.value.head.opcode
      → reg_operand f.value.head.has_rex size f.value.reg ≡ dst
      → rm_operand f.value.head.has_rex size f.value.rm ≡ src
      → read_asm f ≡ some (record { value = binary op size dst src; rest = f.rest })
  unfolding read_asm with_op
  read_asm-load op is_byte dst src o reg_is rm_is =
      let no_store : (ltb f.value.head.opcode 0x40 && ltb (f.value.head.opcode % 8) 2) ≡ false =
        ground (arith, o.class) in
      let load : (ltb f.value.head.opcode 0x40 && ltb (f.value.head.opcode % 8) 4) ≡ true =
        ground (arith, o.class) in
      rw (no_store, load, o.op_is, size_is, rm_is, reg_is) refl

  pub read_asm-imm :
      (op : BinaryOp) (dst : Operand) (imm : ℕ) (rest : List ℕ)
      → is_imm f.value.head.opcode ≡ true
      → binary_at (f.value.reg % 8) ≡ some op
      → rm_operand f.value.head.has_rex size f.value.rm ≡ dst
      → read_imm f.value.head.opcode size f.rest ≡ some (record { value = imm; rest = rest })
      → read_asm f ≡ some (record { value = binary_imm op size dst imm; rest = rest })
  unfolding read_asm with_op map_read
  read_asm-imm op dst imm rest class op_is rm_is imm_is =
      let low : ltb f.value.head.opcode 0x40 ≡ false = ground (arith, class) in
      rw (low, class, size_is, op_is, rm_is, imm_is) refl

  pub read_asm-unary :
      (op : UnaryOp) (operand : Operand)
      → is_unary f.value.head.opcode ≡ true
      → unary_at (f.value.reg % 8) ≡ some op
      → rm_operand f.value.head.has_rex size f.value.rm ≡ operand
      → read_asm f ≡ some (record { value = unary op size operand; rest = f.rest })
  unfolding read_asm with_op
  read_asm-unary op operand class op_is rm_is =
      let low : ltb f.value.head.opcode 0x40 ≡ false = ground (arith, class) in
      let no_imm : is_imm f.value.head.opcode ≡ false = ground (arith, class) in
      rw (low, no_imm, class, size_is, op_is, rm_is) refl

  pub read_asm-shift :
      (op : ShiftOp) (dst : Operand) (count : Count) (rest : List ℕ)
      → is_shift f.value.head.opcode ≡ true
      → shift_at (f.value.reg % 8) ≡ some op
      → rm_operand f.value.head.has_rex size f.value.rm ≡ dst
      → shift_count f.value.head.opcode f.rest ≡ some (record { value = count; rest = rest })
      → read_asm f ≡ some (record { value = shift op size dst count; rest = rest })
  unfolding read_asm with_op map_read
  read_asm-shift op dst count rest class op_is rm_is count_is =
      let low : ltb f.value.head.opcode 0x40 ≡ false = ground (arith, class) in
      let no_imm : is_imm f.value.head.opcode ≡ false = ground (arith, class) in
      let no_unary : is_unary f.value.head.opcode ≡ false = ground (arith, class) in
      rw (low, no_imm, no_unary, class, size_is, op_is, rm_is, count_is) refl

-- An opcode of these classes, for operands of some size
pub record IsSized (class_of : ℕ → Bool) (size opcode : ℕ) : Type 0 where
  pub class : class_of opcode ≡ true
  pub fresh : is_opcode opcode ≡ true
  pub parity : opcode % 2 ≡ (if size == 1 then 0 else 1)

pub imm_opcode-IsSized : (size imm : ℕ) → IsSized is_imm size (imm_opcode 0x80 0x83 0x81 size imm)
unfolding imm_opcode is_opcode
imm_opcode-IsSized size imm = elim (Bool-cases (size == 1)) [
  | inl e ↦ record { class = rw e refl; fresh = rw e refl; parity = rw e refl }
  | inr e ↦ elim (Bool-cases (imm_is_byte imm)) [
    | inl f ↦ record { class = rw (e, f) refl; fresh = rw (e, f) refl; parity = rw (e, f) refl }
    | inr f ↦ record { class = rw (e, f) refl; fresh = rw (e, f) refl; parity = rw (e, f) refl }
  ]
]

pub unary_opcode-IsSized : (size : ℕ) → IsSized is_unary size (sized size 0xF6 0xF7)
unfolding sized is_opcode
unary_opcode-IsSized size = elim (Bool-cases (size == 1)) [
  | inl e ↦ record { class = rw e refl; fresh = rw e refl; parity = rw e refl }
  | inr e ↦ record { class = rw e refl; fresh = rw e refl; parity = rw e refl }
]

pub cl_opcode-IsSized : (size : ℕ) → IsSized is_shift size (sized size 0xD2 0xD3)
unfolding sized is_opcode
cl_opcode-IsSized size = elim (Bool-cases (size == 1)) [
  | inl e ↦ record { class = rw e refl; fresh = rw e refl; parity = rw e refl }
  | inr e ↦ record { class = rw e refl; fresh = rw e refl; parity = rw e refl }
]

pub shift_opcode-IsSized : (size imm : ℕ) → IsSized is_shift size (shift_opcode size imm)
unfolding shift_opcode sized is_opcode
shift_opcode-IsSized size imm = elim (Bool-cases (imm == 1)) [
  | inl f ↦ elim (Bool-cases (size == 1)) [
    | inl e ↦ record { class = rw (e, f) refl; fresh = rw (e, f) refl; parity = rw (e, f) refl }
    | inr e ↦ record { class = rw (e, f) refl; fresh = rw (e, f) refl; parity = rw (e, f) refl }
  ]
  | inr f ↦ elim (Bool-cases (size == 1)) [
    | inl e ↦ record { class = rw (e, f) refl; fresh = rw (e, f) refl; parity = rw (e, f) refl }
    | inr e ↦ record { class = rw (e, f) refl; fresh = rw (e, f) refl; parity = rw (e, f) refl }
  ]
]

pub cl_count :
    (size : ℕ) (rest : List ℕ)
    → shift_count (sized size 0xD2 0xD3) rest ≡ some (record { value = by_cl; rest = rest })
unfolding shift_count sized
cl_count size rest = elim (Bool-cases (size == 1)) [ inl e ↦ rw e refl | inr e ↦ rw e refl ]
