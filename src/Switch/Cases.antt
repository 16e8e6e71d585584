-- ===== src/Switch/Cases.antt =====
-- The cases of a switch: collecting, sorting and checking them, src/resolver/stmts.c, and the search of
-- IR_emit_stmt_switch, src/bytecode/procs.c. An array of cases is a map from indices.
use nibble.Prelude.{
  ℕ, zero, suc, ◌+◌, ◌-◌, ◌/◌, ◌%◌, ◌^◌, Bool, ◌&&◌, Option, none, some, update, ltb, leb,
  if◌then◌else◌,
}
use nibble.Switch.Values.{lteq, gteq, lt, gt, eval_binary_logical_op_64bit}

-- CaseInfo
pub record CaseInfo : Type 0 where
  pub start : ℕ
  pub end : ℕ
  pub is_signed : Bool
  pub index : ℕ

abbrev pub Cases : Type 0
Cases = ℕ → CaseInfo

unfoldable pub qsort_swap_case : Cases → ℕ → ℕ → Cases
qsort_swap_case cases i j = let tmp = cases i in update (update cases i (cases j)) j tmp

pub record Partition : Type 0 where
  pub cases : Cases
  pub at : ℕ

-- The loop of qsort_partition_cases, with `n` elements left from `j` on
unfoldable pub partition_loop : CaseInfo → ℕ → Cases → ℕ → ℕ → Partition
partition_loop pivot zero cases i j = record { cases = cases; at = i }
partition_loop pivot (suc n) cases i j =
    let low = eval_binary_logical_op_64bit lteq pivot.is_signed (cases j).start pivot.start in
    partition_loop pivot n (if low then qsort_swap_case cases j i else cases)
      (if low then i + 1 else i) (j + 1)

unfoldable pub qsort_partition_cases : Cases → ℕ → ℕ → Partition
unfolding partition_loop
qsort_partition_cases cases lo hi =
    let moved = qsort_swap_case cases (lo + (hi - lo) / 2) hi in
    let parts = partition_loop (moved hi) (hi - lo) moved lo lo in
    record { cases = qsort_swap_case parts.cases hi parts.at; at = parts.at }

infixl 20 ◌>>=◌
abbrev pub ◌>>=◌ : Option Cases → (Cases → Option Cases) → Option Cases
none >>= k = none
some cases >>= k = k cases

-- `pivot_index - 1` is below 0 in the source where the subtraction stops at 0 here; both calls return at once.
unfoldable pub qsort_cases : ℕ → Cases → ℕ → ℕ → Option Cases
qsort_cases zero cases lo hi = none
qsort_cases (suc depth) cases lo hi = if leb hi lo then some cases else do
  let parts = qsort_partition_cases cases lo hi
  left ← qsort_cases depth parts.cases lo (parts.at - 1)
  qsort_cases depth left (parts.at + 1) hi

-- The check of the sorted cases, with `n` left from `i` on; what it gives is the index of the case that
-- starts in an earlier one.
unfoldable pub repeated_case : Bool → Cases → ℕ → ℕ → CaseInfo → Option ℕ
repeated_case is_signed cases zero i prev = none
repeated_case is_signed cases (suc n) i prev =
    let curr = cases i in
    let further = eval_binary_logical_op_64bit gt is_signed curr.end prev.end in
    let rest = repeated_case is_signed cases n (i + 1) (if further then curr else prev) in
    if eval_binary_logical_op_64bit lteq is_signed curr.start prev.end
    then some curr.index
    else rest

-- What resolve_stmt_switch does with the cases
pub data CasesResult : Type 0 where
  -- "Repeated switch case value", at the case of this index
  repeated : ℕ → CasesResult
  -- The sorted cases
  accepted : Cases → CasesResult
  out_of_fuel : CasesResult

abbrev pub cases_result : Cases → Option ℕ → CasesResult
cases_result cases none = accepted cases
cases_result cases (some i) = repeated i

abbrev pub check_sorted : Bool → ℕ → Option Cases → CasesResult
check_sorted is_signed len none = out_of_fuel
check_sorted is_signed len (some cases) =
    cases_result cases (repeated_case is_signed cases (len - 1) 1 (cases 0))

-- resolve_stmt_switch, from the collected cases on
unfoldable pub sort_and_check : ℕ → Bool → Cases → ℕ → CasesResult
sort_and_check depth is_signed cases len =
    if ltb 0 len
    then check_sorted is_signed len (qsort_cases depth cases 0 (len - 1))
    else accepted cases

-- What the binary search of IR_emit_stmt_switch ends with
pub data CaseTarget : Type 0 where
  -- The index of the case that was found
  found : ℕ → CaseTarget
  missing : CaseTarget
  -- The assertion that the value is beyond the end of the case
  assert_failed : CaseTarget
  out_of_fuel : CaseTarget

-- The loop of the search, with `hi` one more than in the source
unfoldable pub search_case : ℕ → Bool → Cases → ℕ → ℕ → ℕ → CaseTarget
search_case zero is_signed cases val lo hi = CaseTarget.out_of_fuel
search_case (suc fuel) is_signed cases val lo hi =
    let mid = lo + (hi - 1 - lo) / 2 in
    let info = cases mid in
    let below = eval_binary_logical_op_64bit lt is_signed val info.start in
    let next =
      search_case fuel is_signed cases val (if below then lo else mid + 1)
        (if below then mid else hi) in
    if leb hi lo
    then missing
    else if (eval_binary_logical_op_64bit gteq is_signed val info.start
        && eval_binary_logical_op_64bit lteq is_signed val info.end)
    then found info.index
    else if below
    then next
    else if eval_binary_logical_op_64bit gt is_signed val info.end
    then next
    else assert_failed

-- The search. `num_case_infos - 1` is computed as a u32, so with no case it starts at the largest one.
unfoldable pub find_case : ℕ → Bool → Cases → ℕ → ℕ → CaseTarget
unfolding search_case
find_case fuel is_signed cases num_case_infos val =
    let hi = (num_case_infos + 2 ^ 32 - 1) % 2 ^ 32 in
    search_case fuel is_signed cases val 0 (hi + 1)
