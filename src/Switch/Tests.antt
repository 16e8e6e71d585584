-- ===== src/Switch/Tests.antt =====
-- Switches with concrete cases, and witnesses of the theorems about them.
use nibble.Prelude.{
  ℕ, zero, suc, ◌-◌, ◌≤◌, ◌≡◌, ◌^◌, refl, Bool, true, false, Option, none, some, arith,
}
use nibble.Switch.Values.{LogicalOp, eval_binary_logical_op_64bit, rank}
use nibble.Switch.Cases.{
  CaseInfo, Cases, qsort_swap_case, partition_loop, qsort_partition_cases, qsort_cases,
  repeated_case, CasesResult, repeated, accepted, sort_and_check, CaseTarget, found, missing,
  search_case, find_case,
}
use nibble.Switch.Partition.{key, AllSigned}
use nibble.Switch.Sort.{SortsTo, qsort_cases-SortsTo}
use nibble.Switch.Disjoint.{last, AllValid, Outcome, sort_and_check-Outcome}
use nibble.Switch.Choose.{Takes, sort_and_check-Takes}

abbrev case_of : Bool → ℕ → ℕ → ℕ → CaseInfo
case_of is_signed start end index = record {
  start = start;
  end = end;
  is_signed = is_signed;
  index = index;
}

-- case 5, case 7..9, and all others from 2 on: case 2
abbrev three : Cases
three zero = case_of false 5 5 0
three (suc zero) = case_of false 7 9 1
three (suc (suc n)) = case_of false 2 2 2

abbrev starts_at : CasesResult → ℕ → Option ℕ
starts_at (accepted r) n = some (r n).start
starts_at (repeated i) n = none
starts_at CasesResult.out_of_fuel n = none

sorts_three : starts_at (sort_and_check 3 false three 3) 0 ≡ some 2
unfolding sort_and_check qsort_cases qsort_partition_cases partition_loop qsort_swap_case
    repeated_case eval_binary_logical_op_64bit
sorts_three = refl

abbrev search_in : CasesResult → ℕ → CaseTarget
search_in (accepted r) val = find_case 4 false r 3 val
search_in (repeated i) val = missing
search_in CasesResult.out_of_fuel val = missing

finds_eight : search_in (sort_and_check 3 false three 3) 8 ≡ found 1
unfolding find_case search_case sort_and_check qsort_cases qsort_partition_cases partition_loop
    qsort_swap_case repeated_case eval_binary_logical_op_64bit
finds_eight = refl

skips_six : search_in (sort_and_check 3 false three 3) 6 ≡ missing
unfolding find_case search_case sort_and_check qsort_cases qsort_partition_cases partition_loop
    qsort_swap_case repeated_case eval_binary_logical_op_64bit
skips_six = refl

-- The same start twice
repeats_two : sort_and_check 4 false three 4 ≡ repeated 2
unfolding sort_and_check qsort_cases qsort_partition_cases partition_loop qsort_swap_case
    repeated_case eval_binary_logical_op_64bit
repeats_two = refl

-- -1 stands before 0 among signed values.
signed_order : eval_binary_logical_op_64bit LogicalOp.lt true (2 ^ 64 - 1) 0 ≡ true
unfolding eval_binary_logical_op_64bit
signed_order = refl

three_signs : (n : ℕ) → (three n).is_signed ≡ false
three_signs zero = refl
three_signs (suc zero) = refl
three_signs (suc (suc n)) = refl

three-AllSigned : AllSigned false 0 2 three
three-AllSigned = record { at = λ n n_in. three_signs n }

three_valid : (n : ℕ) → key false (three n) ≤ last false (three n)
unfolding rank
three_valid zero = omega arith
three_valid (suc zero) = omega arith
three_valid (suc (suc n)) = omega arith

three-AllValid : AllValid false 0 2 three
three-AllValid = record { at = λ n n_in. three_valid n }

qsort_cases-SortsTo_example : SortsTo false 0 2 three (qsort_cases 3 three 0 2)
qsort_cases-SortsTo_example =
    qsort_cases-SortsTo 3 false three 0 2 (omega arith) (omega arith) three-AllSigned

sort_and_check-Outcome_example : Outcome false 3 three (sort_and_check 3 false three 3)
sort_and_check-Outcome_example =
    sort_and_check-Outcome 3 false three 3 (omega arith) three-AllSigned

sort_and_check-Takes_example : Takes false 3 three 8 (sort_and_check 3 false three 3)
sort_and_check-Takes_example =
    sort_and_check-Takes 3 false three 3 8 (omega arith) (omega arith) (omega arith) three-AllSigned
      three-AllValid
