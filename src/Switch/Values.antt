-- ===== src/Switch/Values.antt =====
-- The comparisons of 64-bit constants of src/const_eval.c. A value is its 64 bits, read as a number; the
-- s64 with the same bits is compared through its distance from the smallest s64.
use nibble.Prelude.{
  ℕ, ◌+◌, ◌%◌, ◌^◌, ◌≡◌, refl, Bool, true, false, not, ◌&&◌, ◌||◌, ltb, leb, ◌==◌, if◌then◌else◌,
}

-- The operators of eval_binary_logical_op_s64 and eval_binary_logical_op_u64, which end the program on
-- any other token
pub data LogicalOp : Type 0 where
  logic_and logic_or eq noteq gt gteq lt lteq : LogicalOp

abbrev pub eval_binary_logical_op_u64 : LogicalOp → ℕ → ℕ → Bool
eval_binary_logical_op_u64 logic_and left right = not (left == 0) && not (right == 0)
eval_binary_logical_op_u64 logic_or left right = not (left == 0) || not (right == 0)
eval_binary_logical_op_u64 eq left right = left == right
eval_binary_logical_op_u64 noteq left right = not (left == right)
eval_binary_logical_op_u64 gt left right = ltb right left
eval_binary_logical_op_u64 gteq left right = leb right left
eval_binary_logical_op_u64 lt left right = ltb left right
eval_binary_logical_op_u64 lteq left right = leb left right

-- How far the s64 with these bits is above the smallest s64
abbrev pub from_min_s64 : ℕ → ℕ
from_min_s64 bits = (bits + 2 ^ 63) % 2 ^ 64

abbrev pub eval_binary_logical_op_s64 : LogicalOp → ℕ → ℕ → Bool
eval_binary_logical_op_s64 logic_and left right = not (left == 0) && not (right == 0)
eval_binary_logical_op_s64 logic_or left right = not (left == 0) || not (right == 0)
eval_binary_logical_op_s64 eq left right = left == right
eval_binary_logical_op_s64 noteq left right = not (left == right)
eval_binary_logical_op_s64 gt left right = ltb (from_min_s64 right) (from_min_s64 left)
eval_binary_logical_op_s64 gteq left right = leb (from_min_s64 right) (from_min_s64 left)
eval_binary_logical_op_s64 lt left right = ltb (from_min_s64 left) (from_min_s64 right)
eval_binary_logical_op_s64 lteq left right = leb (from_min_s64 left) (from_min_s64 right)

unfoldable pub eval_binary_logical_op_64bit : LogicalOp → Bool → ℕ → ℕ → Bool
eval_binary_logical_op_64bit op is_signed left right =
    if is_signed
    then eval_binary_logical_op_s64 op left right
    else eval_binary_logical_op_u64 op left right

-- Where a value stands in the order of its type
unfoldable pub rank : Bool → ℕ → ℕ
rank is_signed bits = if is_signed then from_min_s64 bits else bits

module _ (left right : ℕ) where
  pub eval-lteq :
      (s : Bool) → eval_binary_logical_op_64bit lteq s left right ≡ leb (rank s left) (rank s right)
  unfolding eval_binary_logical_op_64bit rank
  eval-lteq true = refl
  eval-lteq false = refl

  pub eval-gteq :
      (s : Bool) → eval_binary_logical_op_64bit gteq s left right ≡ leb (rank s right) (rank s left)
  unfolding eval_binary_logical_op_64bit rank
  eval-gteq true = refl
  eval-gteq false = refl

  pub eval-lt :
      (s : Bool) → eval_binary_logical_op_64bit lt s left right ≡ ltb (rank s left) (rank s right)
  unfolding eval_binary_logical_op_64bit rank
  eval-lt true = refl
  eval-lt false = refl

  pub eval-gt :
      (s : Bool) → eval_binary_logical_op_64bit gt s left right ≡ ltb (rank s right) (rank s left)
  unfolding eval_binary_logical_op_64bit rank
  eval-gt true = refl
  eval-gt false = refl
