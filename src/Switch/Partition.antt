-- ===== src/Switch/Partition.antt =====
-- qsort_partition_cases of src/resolver/stmts.c parts a range around its pivot.
use nibble.Prelude.{
  ℕ, zero, suc, ◌+◌, ◌-◌, ◌/◌, ◌≤◌, ◌<◌, ◌≡◌, ◌≢◌, inl, inr, refl, sym, ap, ◌∙◌, subst, Bool, leb,
  ◌==◌, arith, Bool-cases, leb→le,
}
use nibble.Switch.Values.{rank, eval-lteq}
use nibble.Switch.Cases.{
  CaseInfo, Cases, qsort_swap_case, Partition, partition_loop, qsort_partition_cases,
}
use nibble.Switch.Swaps.{All, Swaps-All, turn, qsort_swap_case-turn, In, Swaps, Swaps-trans}

-- Where a case stands in the order, which is that of its start
abbrev pub key : Bool → CaseInfo → ℕ
key is_signed info = rank is_signed info.start

module _ (lo hi : ℕ) (pivot : CaseInfo) where
  abbrev key_of : CaseInfo → ℕ
  key_of = key pivot.is_signed

  -- Before `i` the starts are not above the pivot's, from there to `j` they are.
  record Parted (cases : Cases) (i j : ℕ) : Type 0 where
    from : lo ≤ i
    to : i ≤ j
    low : (n : ℕ) → lo ≤ n → n < i → key_of (cases n) ≤ key_of pivot
    high : (n : ℕ) → i ≤ n → n < j → key_of pivot < key_of (cases n)

  Parted-low :
      (cases : Cases) (i j : ℕ)
      → Parted cases i j
      → key_of (cases j) ≤ key_of pivot
      → Parted (qsort_swap_case cases j i) (i + 1) (j + 1)
  Parted-low cases i j p below = record {
    from = omega (arith, p.from);
    to = omega (arith, p.to);
    low = λ n from before. rw (qsort_swap_case-turn cases j i n) (elim (Bool-cases (i == n)) [
      | inl at_i ↦ rw at_i below
      | inr not_i ↦
          let same : turn j i n ≡ n = ground (arith, p.to) in rw same (p.low n from (ground arith))
    ]);
    high = λ n from before. rw (qsort_swap_case-turn cases j i n) (elim (Bool-cases (j == n)) [
      | inl at_j ↦
          let first : turn j i n ≡ i = ground (arith, p.to) in
          rw first (p.high i (omega arith) (ground arith))
      | inr not_j ↦
          let same : turn j i n ≡ n = ground (arith, p.to) in
          rw same (p.high n (omega arith) (ground arith))
    ]);
  }

  Parted-high :
      (cases : Cases) (i j : ℕ)
      → Parted cases i j
      → key_of pivot < key_of (cases j)
      → Parted cases i (j + 1)
  Parted-high cases i j p above = record {
    from = p.from;
    to = omega (arith, p.to);
    low = p.low;
    high = λ n from before. elim (Bool-cases (n == j)) [
      | inl at_j ↦ let same : j ≡ n = ground arith in rw (sym same) above
      | inr not_j ↦ p.high n from (ground arith)
    ];
  }

  -- What the loop ends with
  record Ended (cases : Cases) (r : Partition) : Type 0 where
    parted : Parted r.cases r.at hi
    swaps : Swaps lo hi cases r.cases
    kept : r.cases hi ≡ cases hi

  Ended-before :
      (cases : Cases) (i j : ℕ) (r : Partition)
      → In lo hi i
      → In lo hi j
      → i ≢ hi
      → j ≢ hi
      → Ended (qsort_swap_case cases j i) r
      → Ended cases r
  Ended-before cases i j r i_in j_in i_not j_not e = record {
    parted = e.parted;
    swaps = Swaps-trans (Swaps.swapped j i j_in i_in Swaps.same) e.swaps;
    kept =
        let same : turn j i hi ≡ hi = ground arith in
        e.kept ∙ qsort_swap_case-turn cases j i hi ∙ ap cases same;
  }

  partition_loop-Ended :
      (n : ℕ) (cases : Cases) (i j : ℕ)
      → j + n ≡ hi
      → Parted cases i j
      → Ended cases (partition_loop pivot n cases i j)
  unfolding partition_loop
  partition_loop-Ended zero cases i j h p =
      let same : j ≡ hi = omega arith in
      record { parted = subst (λ k. Parted cases i k) same p; swaps = Swaps.same; kept = refl }
  partition_loop-Ended (suc n) cases i j h p =
      let test = eval-lteq (cases j).start pivot.start pivot.is_signed in
      elim (Bool-cases (leb (key_of (cases j)) (key_of pivot))) [
        | inl below ↦
            let e =
              partition_loop-Ended n (qsort_swap_case cases j i) (i + 1) (j + 1) (omega arith)
                (Parted-low cases i j p (leb→le _ _ below)) in
            rw (test, below)
              (Ended-before cases i j _ (record { from = p.from; to = omega (arith, p.to) })
                (record { from = omega (arith, p.from, p.to); to = omega arith })
                (λ e. omega (arith, p.to)) (λ e. omega arith) e)
        | inr above ↦
            rw (test, above)
              (partition_loop-Ended n cases i (j + 1) (omega arith)
                (Parted-high cases i j p (ground arith)))
      ]

-- All cases are compared as `is_signed` says.
abbrev pub AllSigned : Bool → ℕ → ℕ → Cases → Type 0
AllSigned is_signed = All (λ info. info.is_signed ≡ is_signed)

-- The pivot stands at `p` of `b`, with what is not above it before, and what is not below it behind.
pub record PivotAt (is_signed : Bool) (lo hi : ℕ) (cases b : Cases) (p : ℕ) : Type 0 where
  pub at_in : In lo hi p
  pub swaps : Swaps lo hi cases b
  pub before : (n : ℕ) → lo ≤ n → n < p → key is_signed (b n) ≤ key is_signed (b p)
  pub behind : (n : ℕ) → p < n → n ≤ hi → key is_signed (b p) ≤ key is_signed (b n)

module _ (lo hi : ℕ) (pivot : CaseInfo) where
  Ended-PivotAt :
      (cases : Cases) (r : Partition)
      → lo ≤ hi
      → r.cases hi ≡ pivot
      → Ended lo hi pivot cases r
      → PivotAt pivot.is_signed lo hi cases (qsort_swap_case r.cases hi r.at) r.at
  Ended-PivotAt cases r h at_hi e =
      let p = r.at in
      let p_in : In lo hi p = record { from = e.parted.from; to = e.parted.to } in
      let hi_in : In lo hi hi = record { from = h; to = omega arith } in
      let moved = qsort_swap_case-turn r.cases hi p in
      let to_hi : turn hi p p ≡ hi = ground arith in
      let pivot_there : qsort_swap_case r.cases hi p p ≡ pivot =
        moved p ∙ ap r.cases to_hi ∙ at_hi in
      record {
        at_in = p_in;
        swaps = Swaps.swapped hi p hi_in p_in e.swaps;
        before = λ n from n_lt.
            let same : turn hi p n ≡ n = ground (arith, p_in.to) in
            rw (pivot_there, moved n, same) (e.parted.low n from n_lt);
        behind = λ n n_gt to.
            rw (pivot_there, moved n)
              (elim (Bool-cases (hi == n)) [
                | inl at_end ↦
                    let back : turn hi p n ≡ p = ground arith in
                    rw back (omega (arith, e.parted.high p (omega arith) (ground arith)))
                | inr inside ↦
                    let same : turn hi p n ≡ n = ground arith in
                    rw same (omega (arith, e.parted.high n (omega arith) (ground arith)))
              ]);
      }

PivotAt-before :
    {s t : Bool} {lo hi : ℕ} {a cases b : Cases} {p : ℕ}
    → t ≡ s
    → Swaps lo hi a cases
    → PivotAt t lo hi cases b p
    → PivotAt s lo hi a b p
PivotAt-before {lo} {hi} {a} {b} {p} same first at =
    subst (λ t. PivotAt t lo hi a b p) same
      (record {
        at_in = at.at_in;
        swaps = Swaps-trans first at.swaps;
        before = at.before;
        behind = at.behind;
      })

pub qsort_partition_cases-PivotAt :
    (s : Bool) (cases : Cases) (lo hi : ℕ)
    → lo ≤ hi
    → AllSigned s lo hi cases
    → PivotAt s lo hi cases
        (qsort_partition_cases cases lo hi).cases
        (qsort_partition_cases cases lo hi).at
unfolding qsort_partition_cases
qsort_partition_cases-PivotAt s cases lo hi h signed =
    let mid = lo + (hi - lo) / 2 in
    let mid_in : In lo hi mid = record { from = omega arith; to = omega arith } in
    let hi_in : In lo hi hi = record { from = h; to = omega arith } in
    let moved = qsort_swap_case cases mid hi in
    let first : Swaps lo hi cases moved = Swaps.swapped mid hi mid_in hi_in Swaps.same in
    let same_sign = (Swaps-All {P = λ info. info.is_signed ≡ s} first signed).at hi hi_in in
    let start : Parted lo hi (moved hi) moved lo lo = record {
      from = omega arith;
      to = omega arith;
      low = λ n from n_lt. absurd (omega arith);
      high = λ n from n_lt. absurd (omega arith);
    } in
    let e = partition_loop-Ended lo hi (moved hi) (hi - lo) moved lo lo (omega arith) start in
    PivotAt-before same_sign first (Ended-PivotAt lo hi (moved hi) moved _ h e.kept e)
