-- ===== src/Types/Kinds.antt =====
-- The tables of integer kinds, src/nibble.h, src/nibble.c and src/ast/module.c.
use nibble.Prelude.{ℕ, Bool, true, false}

-- IntegerKind
pub data IntegerKind : Type 0 where
  bool u8 s8 u16 s16 u32 s32 u64 s64 : IntegerKind

-- int_kind_sizes
abbrev pub int_kind_sizes : IntegerKind → ℕ
int_kind_sizes bool = 1
int_kind_sizes u8 = 1
int_kind_sizes s8 = 1
int_kind_sizes u16 = 2
int_kind_sizes s16 = 2
int_kind_sizes u32 = 4
int_kind_sizes s32 = 4
int_kind_sizes u64 = 8
int_kind_sizes s64 = 8

-- int_kind_signed
abbrev pub int_kind_signed : IntegerKind → Bool
int_kind_signed bool = false
int_kind_signed u8 = false
int_kind_signed s8 = true
int_kind_signed u16 = false
int_kind_signed s16 = true
int_kind_signed u32 = false
int_kind_signed s32 = true
int_kind_signed u64 = false
int_kind_signed s64 = true

-- int_kind_max
abbrev pub int_kind_max : IntegerKind → ℕ
int_kind_max bool = 0x1
int_kind_max u8 = 0xFF
int_kind_max s8 = 0x7F
int_kind_max u16 = 0xFFFF
int_kind_max s16 = 0x7FFF
int_kind_max u32 = 0xFFFFFFFF
int_kind_max s32 = 0x7FFFFFFF
int_kind_max u64 = 0xFFFFFFFFFFFFFFFF
int_kind_max s64 = 0x7FFFFFFFFFFFFFFF

-- int_kind_min
abbrev pub int_kind_min : IntegerKind → ℕ
int_kind_min bool = 0x0
int_kind_min u8 = 0x00
int_kind_min s8 = 0xFFFFFFFFFFFFFF80
int_kind_min u16 = 0x0000
int_kind_min s16 = 0xFFFFFFFFFFFF8000
int_kind_min u32 = 0x00000000
int_kind_min s32 = 0xFFFFFFFF80000000
int_kind_min u64 = 0x0000000000000000
int_kind_min s64 = 0x8000000000000000

-- type_integer_ranks; the table has no entry for `bool`, which is 0 then.
abbrev pub type_integer_ranks : IntegerKind → ℕ
type_integer_ranks bool = 0
type_integer_ranks u8 = 1
type_integer_ranks s8 = 1
type_integer_ranks u16 = 2
type_integer_ranks s16 = 2
type_integer_ranks u32 = 3
type_integer_ranks s32 = 3
type_integer_ranks u64 = 4
type_integer_ranks s64 = 4
