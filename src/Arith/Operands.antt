-- ===== src/Arith/Operands.antt =====
-- The casts of constant operands and the usual arithmetic conversions, src/resolver/exprs.c.
use nibble.Prelude.{
  ℕ, ◌+◌, ◌-◌, ◌*◌, ◌%◌, ◌^◌, Bool, not, ◌&&◌, ◌||◌, Option, none, some, ltb, leb, ◌==◌,
  if◌then◌else◌,
}
use nibble.Types.Kinds.{IntegerKind, bool, s32, int_kind_sizes, int_kind_signed, type_integer_ranks}

-- The types of arithmetic operands; an enum is its number and the kind of its base.
pub data ArithType : Type 0 where
  f64 f32 : ArithType
  integer : IntegerKind → ArithType
  enum : ℕ → IntegerKind → ArithType

abbrev pub width : IntegerKind → ℕ
width kind = 8 * int_kind_sizes kind

-- What the field of the union for a kind holds, as 64 bits: imm.as_int
abbrev pub read_int : IntegerKind → ℕ → ℕ
read_int kind imm =
    let v = imm % 2 ^ width kind in
    if (int_kind_signed kind && leb (2 ^ (width kind - 1)) v)
    then v + 2 ^ 64 - 2 ^ width kind
    else v

-- A write to the field for a kind, which leaves the bytes behind it as they are
abbrev pub write_int : IntegerKind → ℕ → ℕ → ℕ
write_int kind imm v = imm - imm % 2 ^ width kind + v % 2 ^ width kind

-- CASE_INT_CAST
abbrev pub cast_int : IntegerKind → IntegerKind → ℕ → ℕ
cast_int src bool imm = write_int bool imm (if read_int src imm == 0 then 0 else 1)
cast_int src dst imm = write_int dst imm (read_int src imm)

-- ExprOperand, as far as the conversions go; an operand that is no constant has no imm.
pub record ExprOperand : Type 0 where
  pub type : ArithType
  pub imm : Option ℕ

-- The kind that stands for a type in an integer cast
abbrev pub int_kind : ArithType → Option IntegerKind
int_kind (integer k) = some k
int_kind (enum id k) = some k
int_kind f64 = none
int_kind f32 = none

abbrev pub cast_between : (ℕ → ℕ) → ℕ → Option IntegerKind → Option IntegerKind → ℕ
cast_between as_float imm (some src) (some dst) = cast_int src dst imm
cast_between as_float imm none dst = as_float imm
cast_between as_float imm (some src) none = as_float imm

abbrev pub cast_constant : (ℕ → ℕ) → ArithType → ArithType → Option ℕ → Option ℕ
cast_constant as_float src dst none = none
cast_constant as_float src dst (some imm) =
    some (cast_between as_float imm (int_kind src) (int_kind dst))

abbrev pub is_small : IntegerKind → Bool
is_small k = ltb (int_kind_sizes k) (int_kind_sizes s32)

-- What convert_arith_eops makes of its two operands, or that it reaches its failing assertion
pub data Converted : Type 0 where
  converted : ExprOperand → ExprOperand → Converted
  assert_failed : Converted

-- The integer types are one object for each kind.
abbrev pub same_kind : IntegerKind → IntegerKind → Bool
same_kind a b =
    (type_integer_ranks a == type_integer_ranks b)
    && ((int_kind_signed a && int_kind_signed b)
        || (not (int_kind_signed a) && not (int_kind_signed b)))

-- An enum collapses to its base.
abbrev pub collapse_as : Option ℕ → ArithType → ExprOperand
collapse_as imm (enum id k) = record { type = integer k; imm = imm }
collapse_as imm t = record { type = t; imm = imm }

abbrev pub collapse : ExprOperand → ExprOperand
collapse eop = collapse_as eop.imm eop.type

-- A float that is cast to its own type stays as it is.
abbrev pub float_cast : (ArithType → ArithType → ℕ → ℕ) → ArithType → ArithType → ℕ → ℕ
float_cast floats f64 f64 imm = imm
float_cast floats f32 f32 imm = imm
float_cast floats src dst imm = floats src dst imm

-- `floats src dst`: how the machine converts a constant where one of the types is a float and the other is another type.
module _ (floats : ArithType → ArithType → ℕ → ℕ) where
  -- cast_eop, between arithmetic types, which it always accepts
  abbrev pub cast_eop : ExprOperand → ArithType → ExprOperand
  cast_eop eop dst = record {
    type = dst;
    imm = cast_constant (float_cast floats eop.type dst) eop.type dst eop.imm;
  }

  abbrev pub promote_as : ExprOperand → ArithType → ExprOperand
  promote_as eop (integer k) = if is_small k then cast_eop eop (integer s32) else eop
  promote_as eop (enum id k) = if is_small k then cast_eop eop (integer s32) else eop
  promote_as eop f64 = eop
  promote_as eop f32 = eop

  abbrev pub promote_int_eops : ExprOperand → ExprOperand
  promote_int_eops eop = promote_as eop eop.type

  -- The branches on two different integer types
  abbrev pub convert_ints : IntegerKind → IntegerKind → ExprOperand → ExprOperand → Converted
  convert_ints l r left right =
      let left_signed = int_kind_signed l in
      let right_signed = int_kind_signed r in
      let left_rank = type_integer_ranks l in
      let right_rank = type_integer_ranks r in
      let left_size = int_kind_sizes l in
      let right_size = int_kind_sizes r in
      let to_right = converted (cast_eop left (integer r)) right in
      let to_left = converted left (cast_eop right (integer l)) in
      if ((left_signed && right_signed) || (not left_signed && not right_signed))
      then (if leb left_rank right_rank then to_right else to_left)
      else if (left_signed && leb left_rank right_rank)
      then to_right
      else if (right_signed && leb right_rank left_rank)
      then to_left
      else if (left_signed && ltb right_size left_size)
      then to_left
      else if (right_signed && ltb left_size right_size)
      then to_right
      else assert_failed

  abbrev pub convert_kinds : ExprOperand → ExprOperand → ArithType → ArithType → Converted
  convert_kinds left right (integer l) (integer r) =
      if same_kind l r then converted left right else convert_ints l r left right
  convert_kinds left right l r = assert_failed

  abbrev pub convert_integers : ExprOperand → ExprOperand → Converted
  convert_integers left right = convert_kinds left right left.type right.type

  abbrev pub convert_by : ExprOperand → ExprOperand → ArithType → ArithType → Converted
  convert_by left right f64 r = converted left (cast_eop right f64)
  convert_by left right l f64 = converted (cast_eop left f64) right
  convert_by left right f32 r = converted left (cast_eop right f32)
  convert_by left right l f32 = converted (cast_eop left f32) right
  convert_by left right l r =
      convert_integers (collapse (promote_int_eops left)) (collapse (promote_int_eops right))

  unfoldable pub convert_arith_eops : ExprOperand → ExprOperand → Converted
  convert_arith_eops left right = convert_by left right left.type right.type
