-- ===== src/RegAlloc/State.antt =====
-- The data of src/x64_gen/reg_alloc.c and of its part of src/x64_gen/xir.h.
--
-- An interval is named by its index in builder->lreg_ranges, as the source's pointers name it; its
-- field `lreg` is that index. The list nodes that the source embeds in an interval become lists of
-- such indices. What the allocator writes into an interval, its `loc`, is a map of the state.
--
-- The source's positions are longs from -1 on, and the allocator only compares them. A position
-- here is the source's plus one, so that the -1 of a range that was never touched is 0.
use nibble.Prelude.{
  ◌%◌, ◌^◌, ℕ, ◌+◌, ◌-◌, ◌≡◌, refl, Bool, true, false, List, [], ◌∷◌, ◌++◌, ltb, leb, ◌==◌,
  if◌then◌else◌, not,
}
use nibble.Regs.{RegClass, int_class, float_class}

-- XIR_RegAllocControlKind with the member of the union ra_ctrl that each kind reads
pub data RegAllocControl : Type 0 where
  none : RegAllocControl
  force_reg : ℕ → RegAllocControl
  force_any_reg : ℕ → RegAllocControl
  force_reg_or_spill : ℕ → RegAllocControl
  hint_lir_reg : ℕ → RegAllocControl
  hint_phys_reg : ℕ → RegAllocControl

-- XIR_RegRange, without `loc` and `lnode`
pub record RegRange : Type 0 where
  pub start : ℕ
  pub end : ℕ
  pub reg_class : RegClass
  pub ra_ctrl : RegAllocControl

-- `-n` for a u32
abbrev pub neg_u32 : ℕ → ℕ
neg_u32 n = (2 ^ 32 - n) % 2 ^ 32

-- XIR_RegLoc; the offset of `in_stack`, an s32, is its two's complement.
pub data RegLoc : Type 0 where
  unassigned : RegLoc
  in_reg : ℕ → RegLoc
  in_stack : ℕ → RegLoc

-- The part of XIR_Builder that the allocator reads. A call site is its instruction's position.
pub record Builder : Type 0 where
  pub num_lreg_ranges : ℕ
  pub lreg_ranges : ℕ → RegRange
  pub lreg_aliases : ℕ → ℕ
  pub num_regs : ℕ
  pub call_sites : List ℕ

-- X64_IntervalList
pub record IntervalList : Type 0 where
  pub list : List ℕ
  pub count : ℕ
  pub class_counts : RegClass → ℕ

-- (u32)-1, an unoccupied register in `rmap`
abbrev pub unoccupied : ℕ
unoccupied = 0xFFFFFFFF

-- XIR_RegAllocState. The list `unhandled` is the argument of the loop in `Scan`.
pub record State : Type 0 where
  pub active : IntervalList
  pub handled : IntervalList
  pub rmap : ℕ → ℕ
  pub locs : ℕ → RegLoc
  pub stack_offset : ℕ
  pub used_callee_regs : ℕ

-- A run returns a value, returns with `success` false, or stops at an assertion.
pub data Outcome {ℓ} (A : Type ℓ) : Type ℓ where
  ok : A → Outcome A
  failed : Outcome A
  aborted : Outcome A

infixl 5 ◌>>=◌ ◌>>◌
abbrev pub ◌>>=◌ {ℓ κ} : {A : Type ℓ} {B : Type κ} → Outcome A → (A → Outcome B) → Outcome B
ok a >>= f = f a
failed >>= f = failed
aborted >>= f = aborted

abbrev pub ◌>>◌ {ℓ} : {B : Type ℓ} → Outcome (Unit {0}) → Outcome B → Outcome B
m >> k = m >>= λ _. k

abbrev pub assert : Bool → Outcome (Unit {0})
assert true = ok tt
assert false = aborted

-- A chain that returns has a first part that returns.
module _ {ℓ κ} {A : Type ℓ} {B : Type κ} where
  pub >>=-eq-ok :
      (first : Outcome A) (then_do : A → Outcome B) {end : B}
      → (first >>= then_do) ≡ ok end
      → (mid : A) × (first ≡ ok mid) × (then_do mid ≡ ok end)
  >>=-eq-ok failed then_do returns = cc
  >>=-eq-ok aborted then_do returns = cc
  >>=-eq-ok (ok mid) then_do returns = (mid, refl, returns)

abbrev pub class_eq : RegClass → RegClass → Bool
class_eq int_class int_class = true
class_eq float_class float_class = true
class_eq _ _ = false

abbrev pub update_class : (RegClass → ℕ) → RegClass → ℕ → RegClass → ℕ
update_class f i n j = if class_eq i j then n else f j

-- list_empty
abbrev pub list_empty : List ℕ → Bool
list_empty [] = true
list_empty (x ∷ xs) = false

-- list_rm: a node stands in a list once.
unfoldable pub list_rm : ℕ → List ℕ → List ℕ
list_rm node [] = []
list_rm node (x ∷ xs) = if node == x then list_rm node xs else x ∷ list_rm node xs

-- The test and the place of X64_lreg_interval_list_add_by_L, `key` reading the field L.
unfoldable pub belongs_at_end : (ℕ → ℕ) → ℕ → List ℕ → Bool
belongs_at_end key interval [] = false
belongs_at_end key interval (x ∷ []) = leb (key x) (key interval)
belongs_at_end key interval (x ∷ y ∷ xs) = belongs_at_end key interval (y ∷ xs)

unfoldable pub add_before_later : (ℕ → ℕ) → ℕ → List ℕ → List ℕ
add_before_later key interval [] = interval ∷ []
add_before_later key interval (x ∷ xs) =
    if ltb (key interval) (key x) then interval ∷ x ∷ xs else x ∷ add_before_later key interval xs

unfoldable pub list_add_by : (ℕ → ℕ) → ℕ → List ℕ → List ℕ
list_add_by key interval xs =
    if belongs_at_end key interval xs
    then xs ++ (interval ∷ [])
    else add_before_later key interval xs

module _ (b : Builder) where
  abbrev pub start_of : ℕ → ℕ
  start_of i = (b.lreg_ranges i).start

  abbrev pub end_of : ℕ → ℕ
  end_of i = (b.lreg_ranges i).end

  abbrev pub class_of : ℕ → RegClass
  class_of i = (b.lreg_ranges i).reg_class

  abbrev pub ctrl_of : ℕ → RegAllocControl
  ctrl_of i = (b.lreg_ranges i).ra_ctrl

  -- X64_lreg_interval_list_rm
  unfoldable pub interval_list_rm : IntervalList → ℕ → Outcome IntervalList
  interval_list_rm l i = do
    assert (not (list_empty l.list))
    assert (ltb 0 l.count)
    ok (record l {
      list = list_rm i l.list;
      count = l.count - 1;
      class_counts = update_class l.class_counts (class_of i) (l.class_counts (class_of i) - 1);
    })

  -- X64_lreg_interval_list_add_by_start and X64_lreg_interval_list_add_by_end
  unfoldable pub interval_list_add_by : (ℕ → ℕ) → IntervalList → ℕ → IntervalList
  interval_list_add_by key l i = record l {
    list = list_add_by key i l.list;
    count = l.count + 1;
    class_counts = update_class l.class_counts (class_of i) (l.class_counts (class_of i) + 1);
  }
