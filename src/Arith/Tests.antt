-- ===== src/Arith/Tests.antt =====
-- Concrete operands and literals, and witnesses of the theorems about them.
use nibble.Prelude.{ℕ, ◌-◌, ◌^◌, ◌≡◌, refl, true, Option, none, some, arith}
use nibble.Types.Kinds.{s8, s16, u32, s32, s64}
use nibble.Lexer.Numbers.{dec, hex, no_suffix, TokenInt}
use nibble.Arith.Operands.{
  ArithType, integer, enum, ExprOperand, read_int, cast_int, Converted, converted,
  convert_arith_eops,
}
use nibble.Arith.Literals.{get_int_lit_type, resolve_expr_int, Smallest, resolve_expr_int-Smallest}
use nibble.Arith.Common.{AgreeOn, convert_arith_eops-AgreeOn}
use nibble.Arith.Lossless.{cast_int-lossless}

abbrev unchanged : ArithType → ArithType → ℕ → ℕ
unchanged src dst imm = imm

abbrev minus_one : ExprOperand
minus_one = record { type = integer s8; imm = some 255 }

abbrev of_enum : ExprOperand
of_enum = record { type = enum 7 u32; imm = some 5 }

abbrev right_imm : Converted → Option ℕ
right_imm (converted l r) = r.imm
right_imm Converted.assert_failed = none

-- An s8 of -1 becomes the u32 2 ^ 32 - 1.
minus_one_as_u32 : right_imm (convert_arith_eops unchanged of_enum minus_one) ≡ some (2 ^ 32 - 1)
unfolding convert_arith_eops
minus_one_as_u32 = refl

convert_arith_eops-AgreeOn_example :
    AgreeOn (integer u32) (convert_arith_eops unchanged of_enum minus_one)
    × AgreeOn (integer u32) (convert_arith_eops unchanged minus_one of_enum)
convert_arith_eops-AgreeOn_example = convert_arith_eops-AgreeOn unchanged of_enum minus_one

cast_int-lossless_example : read_int s32 (cast_int s16 s32 0xFFFE) ≡ read_int s16 0xFFFE
cast_int-lossless_example = cast_int-lossless s16 0xFFFE refl

abbrev large_hex : TokenInt
large_hex = record { value = 0x80000000; rep = hex; suffix = no_suffix }

abbrev large_dec : TokenInt
large_dec = record { value = 0x80000000; rep = dec; suffix = no_suffix }

hex_is_u32 : resolve_expr_int large_hex ≡ some u32
unfolding resolve_expr_int get_int_lit_type
hex_is_u32 = refl

dec_is_s64 : resolve_expr_int large_dec ≡ some s64
unfolding resolve_expr_int get_int_lit_type
dec_is_s64 = refl

resolve_expr_int-Smallest_example : Smallest true 0x80000000 (resolve_expr_int large_dec)
resolve_expr_int-Smallest_example = resolve_expr_int-Smallest large_dec (omega arith) (λ e. cc)
