-- ===== src/Arith/Lossless.antt =====
-- Promotion in src/resolver/exprs.c keeps the value of a constant.
use nibble.Prelude.{ℕ, ◌≡◌, true, arith}
use nibble.Types.Kinds.{IntegerKind, bool, u8, s8, u16, s16, u32, s32, u64, s64}
use nibble.Arith.Operands.{is_small, read_int, cast_int}

-- A kind that is smaller than s32, read as an s32 after its cast to one, has the value it had.
pub cast_int-lossless :
    (k : IntegerKind) (imm : ℕ)
    → is_small k ≡ true
    → read_int s32 (cast_int k s32 imm) ≡ read_int k imm
cast_int-lossless bool imm h = ground arith
cast_int-lossless u8 imm h = ground arith
cast_int-lossless u16 imm h = ground arith
cast_int-lossless s8 imm h = ground arith
cast_int-lossless s16 imm h = ground arith
cast_int-lossless u32 imm h = ground arith
cast_int-lossless s32 imm h = ground arith
cast_int-lossless u64 imm h = ground arith
cast_int-lossless s64 imm h = ground arith
