-- ===== src/Switch/Sort.antt =====
-- qsort_cases of src/resolver/stmts.c sorts.
use nibble.Prelude.{
  ℕ, zero, suc, ◌+◌, ◌-◌, ◌≤◌, ◌<◌, ◌≡◌, inl, inr, refl, ap, ◌∙◌, Bool, true, Option, some, ltb,
  leb, ◌==◌, arith, Bool-cases,
}
use nibble.Switch.Cases.{Cases, qsort_partition_cases, qsort_cases, ◌>>=◌}
use nibble.Switch.Swaps.{Swaps, Swaps-trans, Swaps-widen, Swaps-outside, All, Swaps-All}
use nibble.Switch.Partition.{key, AllSigned, PivotAt, qsort_partition_cases-PivotAt}

-- The starts of a range do not go down.
pub record IsSorted (is_signed : Bool) (lo hi : ℕ) (a : Cases) : Type 0 where
  pub at : (n m : ℕ) → lo ≤ n → n ≤ m → m ≤ hi → key is_signed (a n) ≤ key is_signed (a m)

-- A run that sorts a range
pub data SortsTo (is_signed : Bool) (lo hi : ℕ) (cases : Cases) : Option Cases → Type 0 where
  sorts :
      (r : Cases)
      → Swaps lo hi cases r
      → IsSorted is_signed lo hi r
      → SortsTo is_signed lo hi cases (some r)

module _ (s : Bool) (lo hi : ℕ) where
  -- What sorting the elements before `p` gives
  data LeftSorted (p : ℕ) (b : Cases) : Option Cases → Type 0 where
    left_sorted :
        (r : Cases)
        → Swaps lo hi b r
        → ((n m : ℕ) → lo ≤ n → n ≤ m → m < p → key s (r n) ≤ key s (r m))
        → ((n : ℕ) → lo ≤ n → n < p → key s (r n) ≤ key s (b p))
        → ((n : ℕ) → p ≤ n → r n ≡ b n)
        → LeftSorted p b (some r)

  LeftSorted-none :
      {cases b : Cases} {p : ℕ} → PivotAt s lo hi cases b p → p ≤ lo → LeftSorted p b (some b)
  LeftSorted-none {b} at h =
      left_sorted b Swaps.same (λ n m from le to. absurd (omega arith)) at.before (λ n from. refl)

  LeftSorted-some :
      {cases b : Cases} {p : ℕ} {o : Option Cases}
      → PivotAt s lo hi cases b p
      → lo < p
      → SortsTo s lo (p - 1) b o
      → LeftSorted p b o
  LeftSorted-some {b} {p} at h (sorts r swaps sorted) =
      let low : All (λ info. key s info ≤ key s (b p)) lo (p - 1) b = record {
        at = λ n n_in. at.before n n_in.from (omega (arith, n_in.to));
      } in
      left_sorted r (Swaps-widen (omega arith) (omega (arith, at.at_in.to)) swaps)
        (λ n m from le to. sorted.at n m from le (omega arith))
        (λ n from n_lt.
          (Swaps-All {P = λ info. key s info ≤ key s (b p)} swaps low).at n
            (record { from = from; to = omega arith }))
        (λ n from. Swaps-outside swaps n (inr (omega arith)))

  Sorted-join :
      {cases b : Cases} {p : ℕ} {o : Option Cases}
      → PivotAt s lo hi cases b p
      → (l : Cases) → Swaps lo hi b l
      → ((n m : ℕ) → lo ≤ n → n ≤ m → m < p → key s (l n) ≤ key s (l m))
      → ((n : ℕ) → lo ≤ n → n < p → key s (l n) ≤ key s (b p))
      → ((n : ℕ) → p ≤ n → l n ≡ b n)
      → SortsTo s (p + 1) hi l o
      → SortsTo s lo hi cases o
  Sorted-join {b} {p} at l l_swaps l_sorted l_low l_same (sorts r swaps sorted) =
      let kept : (n : ℕ) → n ≤ p → r n ≡ l n = λ n h. Swaps-outside swaps n (inl (omega arith)) in
      let low : (n : ℕ) → lo ≤ n → n ≤ p → key s (r n) ≤ key s (b p) = λ n from to.
        elim (Bool-cases (ltb n p)) [
          | inl less ↦ rw (kept n to) (l_low n from (ground arith))
          | inr not_less ↦
              let e : n ≡ p = ground arith in
              rw (e, kept p (omega arith), l_same p (omega arith)) (omega arith)
        ] in
      let above : All (λ info. key s (b p) ≤ key s info) (p + 1) hi l = record {
        at = λ n n_in.
            rw (l_same n (omega (arith, n_in.from)))
              (at.behind n (omega (arith, n_in.from)) n_in.to);
      } in
      let high : (n : ℕ) → p < n → n ≤ hi → key s (b p) ≤ key s (r n) = λ n from to.
        (Swaps-All {P = λ info. key s (b p) ≤ key s info} swaps above).at n
          (record { from = omega arith; to = to }) in
      let middle : (n : ℕ) → n ≡ p → r n ≡ b p =
        λ n e. kept n (omega arith) ∙ l_same n (omega arith) ∙ ap b e in
      sorts r
        (Swaps-trans at.swaps
          (Swaps-trans l_swaps (Swaps-widen (omega (arith, at.at_in.from)) (omega arith) swaps)))
        (record {
          at = λ n m from le to. elim (Bool-cases (ltb m p)) [
            | inl left ↦
                rw (kept n (ground arith), kept m (ground arith))
                  (l_sorted n m from le (ground arith))
            | inr not_left ↦ elim (Bool-cases (m == p)) [
              | inl at_p ↦ rw (middle m (ground arith)) (low n from (ground arith))
              | inr not_p ↦ elim (Bool-cases (leb n p)) [
                | inl below ↦
                    let to_p = low n from (ground arith) in
                    let from_p = high m (ground arith) to in omega (arith, to_p, from_p)
                | inr right ↦ sorted.at n m (ground arith) le to
              ]
            ]
          ];
        })

  LeftSorted-join :
      {cases b : Cases} {p : ℕ} {o : Option Cases} (k : Cases → Option Cases)
      → PivotAt s lo hi cases b p
      → LeftSorted p b o
      → ((l : Cases) → Swaps lo hi b l → SortsTo s (p + 1) hi l (k l))
      → SortsTo s lo hi cases (o >>= k)
  LeftSorted-join k at (left_sorted l swaps sorted low same) right =
      Sorted-join at l swaps sorted low same (right l swaps)

AllSigned-part :
    {s : Bool} {lo hi lo' hi' : ℕ} {a : Cases}
    → lo ≤ lo'
    → hi' ≤ hi
    → AllSigned s lo hi a
    → AllSigned s lo' hi' a
AllSigned-part below above all = record {
  at = λ n n_in. all.at n (record { from = omega (arith, n_in.from); to = omega (arith, n_in.to) });
}

qsort_cases-ended :
    (depth : ℕ) (cases : Cases) (lo hi : ℕ)
    → 0 < depth
    → hi ≤ lo
    → qsort_cases depth cases lo hi ≡ some cases
unfolding qsort_cases
qsort_cases-ended zero cases lo hi pos h = absurd (omega arith)
qsort_cases-ended (suc depth) cases lo hi pos h =
    let ended : leb hi lo ≡ true = ground arith in rw ended refl

-- On cases that are all compared the same way, and with a depth above 0 and above the distance of the two
-- ends, qsort_cases ends, and by exchanges inside the range it orders the cases there by their starts.
pub qsort_cases-SortsTo :
    (depth : ℕ) (s : Bool) (cases : Cases) (lo hi : ℕ)
    → hi < lo + depth
    → 0 < depth
    → AllSigned s lo hi cases
    → SortsTo s lo hi cases (qsort_cases depth cases lo hi)
unfolding qsort_cases
qsort_cases-SortsTo zero s cases lo hi h pos signed = absurd (omega arith)
qsort_cases-SortsTo (suc depth) s cases lo hi h pos signed = elim (Bool-cases (leb hi lo)) [
  | inl ended ↦
      let e : (n m : ℕ) → lo ≤ n → n ≤ m → m ≤ hi → n ≡ m = λ n m from le to. ground arith in
      rw ended (
        sorts cases Swaps.same
          (record { at = λ n m from le to. rw (e n m from le to) (omega arith) }))
  | inr longer ↦
      let at = qsort_partition_cases-PivotAt s cases lo hi (ground arith) signed in
      let b = (qsort_partition_cases cases lo hi).cases in
      let p = (qsort_partition_cases cases lo hi).at in
      let b_signed = Swaps-All {P = λ info. info.is_signed ≡ s} at.swaps signed in
      let right : (l : Cases)
          → Swaps lo hi b l
          → SortsTo s (p + 1) hi l (qsort_cases depth l (p + 1) hi) =
        λ l swaps.
          qsort_cases-SortsTo depth s l (p + 1) hi (omega (arith, at.at_in.from)) (ground arith) (
            AllSigned-part (omega (arith, at.at_in.from)) (omega arith)
              (Swaps-All {P = λ info. info.is_signed ≡ s} swaps b_signed)) in
      let left : LeftSorted s lo hi p b (qsort_cases depth b lo (p - 1)) =
        elim (Bool-cases (leb p lo)) [
          | inl first ↦
              rw (qsort_cases-ended depth b lo (p - 1) (ground arith) (ground arith))
                (LeftSorted-none s lo hi at (ground arith))
          | inr inner ↦ LeftSorted-some s lo hi at (ground arith) (
              qsort_cases-SortsTo depth s b lo (p - 1) (ground (arith, at.at_in.to)) (ground arith)
                (AllSigned-part (omega arith) (omega (arith, at.at_in.to)) b_signed))
        ] in
      rw longer (LeftSorted-join s lo hi (λ l. qsort_cases depth l (p + 1) hi) at left right)
]
