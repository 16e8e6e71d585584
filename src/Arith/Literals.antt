-- ===== src/Arith/Literals.antt =====
-- The type of an integer literal: resolve_expr_int of src/resolver/exprs.c, on Linux.
use nibble.Prelude.{
  ℕ, ◌^◌, ◌≤◌, ◌<◌, ◌≡◌, ◌≢◌, inl, inr, refl, Bool, true, false, List, [], ◌∷◌, Option, none, some,
  ltb, if◌then◌else◌, arith, Bool-cases,
}
use nibble.Types.Kinds.{
  IntegerKind, bool, u8, s8, u16, s16, u32, s32, u64, s64, int_kind_sizes, int_kind_signed,
  int_kind_max,
}
use nibble.Lexer.Numbers.{
  TokenIntRep, bin, oct, dec, hex, char_rep, TokenIntSuffix, no_suffix, suffix_u, suffix_s,
  TokenInt,
}

-- get_int_lit_type, from the candidate `type` on
unfoldable pub get_int_lit_type : ℕ → IntegerKind → List IntegerKind → Option IntegerKind
get_int_lit_type value type [] = if ltb (int_kind_max type) value then none else some type
get_int_lit_type value type (t ∷ types) =
    let rest = get_int_lit_type value t types in
    if ltb (int_kind_max type) value then rest else some type

-- int, long and llong, and the same unsigned
abbrev pub s_type_of : ℕ → Option IntegerKind
s_type_of value = get_int_lit_type value s32 (s64 ∷ s64 ∷ [])

abbrev pub u_type_of : ℕ → Option IntegerKind
u_type_of value = get_int_lit_type value u32 (u64 ∷ u64 ∷ [])

abbrev pub suffix_type : ℕ → TokenIntRep → TokenIntSuffix → Option IntegerKind
suffix_type value dec no_suffix = s_type_of value
suffix_type value rep no_suffix = u_type_of value
suffix_type value rep suffix_s = s_type_of value
suffix_type value rep suffix_u = u_type_of value

-- The type that resolve_expr_int gives, none where it reports that the value is too large; char is s8.
unfoldable pub resolve_expr_int : TokenInt → Option IntegerKind
unfolding get_int_lit_type
resolve_expr_int token = elim token.rep [
  | char_rep ↦ some s8
  | _ ↦ suffix_type token.value token.rep token.suffix
]

-- The smallest kind from four bytes on that has the value, among those of its sign
pub data Smallest (signed : Bool) (value : ℕ) : Option IntegerKind → Type 0 where
  holds :
      (k : IntegerKind)
      → int_kind_signed k ≡ signed
      → value ≤ int_kind_max k
      → ((j : IntegerKind)
          → int_kind_signed j ≡ signed
          → 4 ≤ int_kind_sizes j
          → value ≤ int_kind_max j
          → int_kind_sizes k ≤ int_kind_sizes j)
      → Smallest signed value (some k)
  too_large :
      ((j : IntegerKind) → int_kind_signed j ≡ signed → int_kind_max j < value)
      → Smallest signed value none

above_s64 :
    (value : ℕ)
    → int_kind_max s64 < value
    → (j : IntegerKind) → int_kind_signed j ≡ true
    → int_kind_max j < value
above_s64 value h bool e = ground arith
above_s64 value h u8 e = ground arith
above_s64 value h s8 e = omega arith
above_s64 value h u16 e = ground arith
above_s64 value h s16 e = omega arith
above_s64 value h u32 e = ground arith
above_s64 value h s32 e = omega arith
above_s64 value h u64 e = ground arith
above_s64 value h s64 e = omega arith

-- A kind of eight bytes where four are not enough
wide :
    (k j : IntegerKind) (value : ℕ)
    → int_kind_max s32 < value
    → int_kind_sizes k ≡ 8
    → int_kind_signed j ≡ true
    → 4 ≤ int_kind_sizes j
    → value ≤ int_kind_max j
    → int_kind_sizes k ≤ int_kind_sizes j
wide k bool value above size e h inside = ground arith
wide k u8 value above size e h inside = ground arith
wide k s8 value above size e h inside = ground arith
wide k u16 value above size e h inside = ground arith
wide k s16 value above size e h inside = ground arith
wide k u32 value above size e h inside = ground arith
wide k s32 value above size e h inside = absurd (omega arith)
wide k u64 value above size e h inside = ground arith
wide k s64 value above size e h inside = omega arith

s_type_of-Smallest : (value : ℕ) → Smallest true value (s_type_of value)
unfolding get_int_lit_type
s_type_of-Smallest value = elim (Bool-cases (ltb (int_kind_max s32) value)) [
  | inr fits ↦ rw fits (holds s32 refl (ground arith) (λ j e h inside. h))
  | inl beyond ↦ elim (Bool-cases (ltb (int_kind_max s64) value)) [
    | inr fits ↦
        rw (beyond, fits)
          (holds s64 refl (ground arith)
            (λ j e h inside. wide s64 j value (ground arith) refl e h inside))
    | inl too ↦ rw (beyond, too) (too_large (above_s64 value (ground arith)))
  ]
]

wide_unsigned :
    (j : IntegerKind) (value : ℕ)
    → int_kind_max u32 < value
    → int_kind_signed j ≡ false
    → 4 ≤ int_kind_sizes j
    → value ≤ int_kind_max j
    → 8 ≤ int_kind_sizes j
wide_unsigned bool value above e h inside = absurd (omega arith)
wide_unsigned u8 value above e h inside = absurd (omega arith)
wide_unsigned s8 value above e h inside = absurd (omega arith)
wide_unsigned u16 value above e h inside = absurd (omega arith)
wide_unsigned s16 value above e h inside = absurd (omega arith)
wide_unsigned u32 value above e h inside = absurd (omega arith)
wide_unsigned s32 value above e h inside = absurd (omega arith)
wide_unsigned u64 value above e h inside = omega arith
wide_unsigned s64 value above e h inside = omega arith

u_type_of-Smallest : (value : ℕ) → value < 2 ^ 64 → Smallest false value (u_type_of value)
unfolding get_int_lit_type
u_type_of-Smallest value small = elim (Bool-cases (ltb (int_kind_max u32) value)) [
  | inr fits ↦ rw fits (holds u32 refl (ground arith) (λ j e h inside. h))
  | inl beyond ↦
      let fits : ltb (int_kind_max u64) value ≡ false = ground arith in
      rw (beyond, fits)
        (holds u64 refl (ground arith)
          (λ j e h inside. wide_unsigned j value (ground arith) e h inside))
]

-- Whether a literal is to have a signed type
abbrev pub signed_lit : TokenIntRep → TokenIntSuffix → Bool
signed_lit dec no_suffix = true
signed_lit rep no_suffix = false
signed_lit rep suffix_s = true
signed_lit rep suffix_u = false

suffix_type-Smallest :
    (value : ℕ)
    → value < 2 ^ 64
    → (rep : TokenIntRep) (suffix : TokenIntSuffix)
    → Smallest (signed_lit rep suffix) value (suffix_type value rep suffix)
suffix_type-Smallest value small dec no_suffix = s_type_of-Smallest value
suffix_type-Smallest value small bin no_suffix = u_type_of-Smallest value small
suffix_type-Smallest value small oct no_suffix = u_type_of-Smallest value small
suffix_type-Smallest value small hex no_suffix = u_type_of-Smallest value small
suffix_type-Smallest value small char_rep no_suffix = u_type_of-Smallest value small
suffix_type-Smallest value small rep suffix_s = s_type_of-Smallest value
suffix_type-Smallest value small rep suffix_u = u_type_of-Smallest value small

resolve_by_rep :
    (value : ℕ)
    → value < 2 ^ 64
    → (rep : TokenIntRep) (suffix : TokenIntSuffix) → rep ≢ char_rep
    → Smallest
        (signed_lit rep suffix)
        value
        (resolve_expr_int (record { value = value; rep = rep; suffix = suffix }))
unfolding resolve_expr_int
resolve_by_rep value small bin suffix h = suffix_type-Smallest value small bin suffix
resolve_by_rep value small oct suffix h = suffix_type-Smallest value small oct suffix
resolve_by_rep value small dec suffix h = suffix_type-Smallest value small dec suffix
resolve_by_rep value small hex suffix h = suffix_type-Smallest value small hex suffix
resolve_by_rep value small char_rep suffix h = absurd (h refl)

-- An integer literal below 2 ^ 64 that is no char gets the smallest kind, from four bytes on, of its sign that has
-- its value; it is refused only if no kind of its sign has the value. Decimal literals without a suffix and
-- those with the suffix `s` are signed, the others unsigned.
pub resolve_expr_int-Smallest :
    (token : TokenInt)
    → token.value < 2 ^ 64
    → token.rep ≢ char_rep
    → Smallest (signed_lit token.rep token.suffix) token.value (resolve_expr_int token)
resolve_expr_int-Smallest token small h = resolve_by_rep token.value small token.rep token.suffix h
