-- ===== src/Arith/Common.antt =====
-- The usual arithmetic conversions of src/resolver/exprs.c end at a common type.
use nibble.Prelude.{ℕ, ◌+◌, ◌*◌, ◌≡◌, refl, Option, ltb, inl, inr, subst, if◌then◌else◌, Bool-cases}
use nibble.Types.Kinds.{
  IntegerKind, bool, u8, s8, u16, s16, u32, s32, u64, s64, int_kind_signed, type_integer_ranks,
}
use nibble.Arith.Operands.{
  ArithType, f64, f32, integer, enum, ExprOperand, is_small, promote_int_eops, Converted, converted,
  collapse, convert_kinds, convert_integers, convert_arith_eops,
}

-- The kind that an integer operand is promoted to
abbrev pub promoted : IntegerKind → IntegerKind
promoted k = if is_small k then s32 else k

-- At the same rank the unsigned kind is the stronger one.
abbrev pub strength : IntegerKind → ℕ
strength k = 2 * type_integer_ranks k + (if int_kind_signed k then 0 else 1)

abbrev pub stronger : IntegerKind → IntegerKind → IntegerKind
stronger a b = if ltb (strength a) (strength b) then b else a

-- The common type of two operands
abbrev pub base_kind : ArithType → IntegerKind
base_kind (integer k) = k
base_kind (enum id k) = k
base_kind f64 = s32
base_kind f32 = s32

abbrev pub common : ArithType → ArithType → ArithType
common f64 r = f64
common l f64 = f64
common f32 r = f32
common l f32 = f32
common l r = integer (stronger (promoted (base_kind l)) (promoted (base_kind r)))

-- Both operands are of the type.
pub data AgreeOn (t : ArithType) : Converted → Type 0 where
  agree :
      (left right : ExprOperand) → left.type ≡ t → right.type ≡ t → AgreeOn t (converted left right)

data IsPromoted : IntegerKind → Type 0 where
  is_s32 : IsPromoted s32
  is_u32 : IsPromoted u32
  is_s64 : IsPromoted s64
  is_u64 : IsPromoted u64

promoted-IsPromoted : (k : IntegerKind) → IsPromoted (promoted k)
promoted-IsPromoted bool = is_s32
promoted-IsPromoted u8 = is_s32
promoted-IsPromoted s8 = is_s32
promoted-IsPromoted u16 = is_s32
promoted-IsPromoted s16 = is_s32
promoted-IsPromoted u32 = is_u32
promoted-IsPromoted s32 = is_s32
promoted-IsPromoted u64 = is_u64
promoted-IsPromoted s64 = is_s64

abbrev operand : ArithType → Option ℕ → ExprOperand
operand t imm = record { type = t; imm = imm }

module _ (floats : ArithType → ArithType → ℕ → ℕ) (i j : Option ℕ) where
  convert_kinds-AgreeOn :
      (a b : IntegerKind)
      → IsPromoted a
      → IsPromoted b
      → AgreeOn (integer (stronger a b)) (
          convert_kinds floats
            (operand (integer a) i)
            (operand (integer b) j)
            (integer a)
            (integer b))
  convert_kinds-AgreeOn a b is_s32 is_s32 = agree _ _ refl refl
  convert_kinds-AgreeOn a b is_s32 is_u32 = agree _ _ refl refl
  convert_kinds-AgreeOn a b is_s32 is_s64 = agree _ _ refl refl
  convert_kinds-AgreeOn a b is_s32 is_u64 = agree _ _ refl refl
  convert_kinds-AgreeOn a b is_u32 is_s32 = agree _ _ refl refl
  convert_kinds-AgreeOn a b is_u32 is_u32 = agree _ _ refl refl
  convert_kinds-AgreeOn a b is_u32 is_s64 = agree _ _ refl refl
  convert_kinds-AgreeOn a b is_u32 is_u64 = agree _ _ refl refl
  convert_kinds-AgreeOn a b is_s64 is_s32 = agree _ _ refl refl
  convert_kinds-AgreeOn a b is_s64 is_u32 = agree _ _ refl refl
  convert_kinds-AgreeOn a b is_s64 is_s64 = agree _ _ refl refl
  convert_kinds-AgreeOn a b is_s64 is_u64 = agree _ _ refl refl
  convert_kinds-AgreeOn a b is_u64 is_s32 = agree _ _ refl refl
  convert_kinds-AgreeOn a b is_u64 is_u32 = agree _ _ refl refl
  convert_kinds-AgreeOn a b is_u64 is_s64 = agree _ _ refl refl
  convert_kinds-AgreeOn a b is_u64 is_u64 = agree _ _ refl refl

stronger_comm : (a b : IntegerKind) → IsPromoted a → IsPromoted b → stronger a b ≡ stronger b a
stronger_comm a b is_s32 is_s32 = refl
stronger_comm a b is_s32 is_u32 = refl
stronger_comm a b is_s32 is_s64 = refl
stronger_comm a b is_s32 is_u64 = refl
stronger_comm a b is_u32 is_s32 = refl
stronger_comm a b is_u32 is_u32 = refl
stronger_comm a b is_u32 is_s64 = refl
stronger_comm a b is_u32 is_u64 = refl
stronger_comm a b is_s64 is_s32 = refl
stronger_comm a b is_s64 is_u32 = refl
stronger_comm a b is_s64 is_s64 = refl
stronger_comm a b is_s64 is_u64 = refl
stronger_comm a b is_u64 is_s32 = refl
stronger_comm a b is_u64 is_u32 = refl
stronger_comm a b is_u64 is_s64 = refl
stronger_comm a b is_u64 is_u64 = refl

-- An operand after promotion, without its enum
data Settled (k : IntegerKind) : ExprOperand → Type 0 where
  settled :
      (m : IntegerKind) (imm : Option ℕ) → promoted k ≡ m → Settled k (operand (integer m) imm)

module _ (floats : ArithType → ArithType → ℕ → ℕ) where
  promote-Settled :
      (k : IntegerKind) (imm : Option ℕ)
      → Settled k (collapse (promote_int_eops floats (operand (integer k) imm)))
  promote-Settled k imm = elim (Bool-cases (is_small k)) [
    | inl small ↦ rw small (settled s32 _ (rw small refl))
    | inr large ↦ rw large (settled k imm (rw large refl))
  ]

  promote_enum-Settled :
      (id : ℕ) (k : IntegerKind) (imm : Option ℕ)
      → Settled k (collapse (promote_int_eops floats (operand (enum id k) imm)))
  promote_enum-Settled id k imm = elim (Bool-cases (is_small k)) [
    | inl small ↦ rw small (settled s32 _ (rw small refl))
    | inr large ↦ rw large (settled k imm (rw large refl))
  ]

  convert_integers-AgreeOn :
      {k m : IntegerKind} {l r : ExprOperand}
      → Settled k l
      → Settled m r
      → AgreeOn (integer (stronger (promoted k) (promoted m))) (convert_integers floats l r)
  convert_integers-AgreeOn {k} {m} (settled a i a_is) (settled b j b_is) =
      let a_promoted = subst IsPromoted a_is (promoted-IsPromoted k) in
      let b_promoted = subst IsPromoted b_is (promoted-IsPromoted m) in
      rw (a_is, b_is) (convert_kinds-AgreeOn floats i j a b a_promoted b_promoted)

  convert-AgreeOn :
      (l r : ArithType) (i j : Option ℕ)
      → AgreeOn (common l r) (convert_arith_eops floats (operand l i) (operand r j))
  unfolding convert_arith_eops
  convert-AgreeOn f64 r i j = agree _ _ refl refl
  convert-AgreeOn f32 f64 i j = agree _ _ refl refl
  convert-AgreeOn f32 f32 i j = agree _ _ refl refl
  convert-AgreeOn f32 (integer m) i j = agree _ _ refl refl
  convert-AgreeOn f32 (enum e m) i j = agree _ _ refl refl
  convert-AgreeOn (integer k) f64 i j = agree _ _ refl refl
  convert-AgreeOn (integer k) f32 i j = agree _ _ refl refl
  convert-AgreeOn (integer k) (integer m) i j =
      convert_integers-AgreeOn (promote-Settled k i) (promote-Settled m j)
  convert-AgreeOn (integer k) (enum e m) i j =
      convert_integers-AgreeOn (promote-Settled k i) (promote_enum-Settled e m j)
  convert-AgreeOn (enum d k) f64 i j = agree _ _ refl refl
  convert-AgreeOn (enum d k) f32 i j = agree _ _ refl refl
  convert-AgreeOn (enum d k) (integer m) i j =
      convert_integers-AgreeOn (promote_enum-Settled d k i) (promote-Settled m j)
  convert-AgreeOn (enum d k) (enum e m) i j =
      convert_integers-AgreeOn (promote_enum-Settled d k i) (promote_enum-Settled e m j)

common_comm_ints :
    (k m : IntegerKind)
    → integer (stronger (promoted k) (promoted m)) ≡ integer (stronger (promoted m) (promoted k))
common_comm_ints k m =
    rw (stronger_comm (promoted k) (promoted m) (promoted-IsPromoted k) (promoted-IsPromoted m))
      refl

common_comm : (l r : ArithType) → common l r ≡ common r l
common_comm f64 f64 = refl
common_comm f64 f32 = refl
common_comm f64 (integer m) = refl
common_comm f64 (enum e m) = refl
common_comm f32 f64 = refl
common_comm f32 f32 = refl
common_comm f32 (integer m) = refl
common_comm f32 (enum e m) = refl
common_comm (integer k) f64 = refl
common_comm (integer k) f32 = refl
common_comm (integer k) (integer m) = common_comm_ints k m
common_comm (integer k) (enum e m) = common_comm_ints k m
common_comm (enum d k) f64 = refl
common_comm (enum d k) f32 = refl
common_comm (enum d k) (integer m) = common_comm_ints k m
common_comm (enum d k) (enum e m) = common_comm_ints k m

-- convert_arith_eops never reaches its failing assertion, and gives both operands one type, which does not
-- depend on their order: f64 where one is an f64, else f32 where one is an f32, else the stronger of the two
-- promoted kinds, which is the one of higher rank and at the same rank the unsigned one.
pub convert_arith_eops-AgreeOn :
    (floats : ArithType → ArithType → ℕ → ℕ) (left right : ExprOperand)
    → AgreeOn (common left.type right.type) (convert_arith_eops floats left right)
      × AgreeOn (common left.type right.type) (convert_arith_eops floats right left)
convert_arith_eops-AgreeOn floats left right = (
  convert-AgreeOn floats left.type right.type left.imm right.imm,
  rw (common_comm left.type right.type)
      (convert-AgreeOn floats right.type left.type right.imm left.imm),
)
