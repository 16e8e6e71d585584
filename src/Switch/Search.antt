-- ===== src/Switch/Search.antt =====
-- The binary search of IR_emit_stmt_switch, src/bytecode/procs.c, finds the case of a constant.
use nibble.Prelude.{
  ℕ, zero, suc, ◌+◌, ◌-◌, ◌/◌, ◌%◌, ◌^◌, ◌≤◌, ◌<◌, ◌≡◌, inl, inr, Bool, true, false, ltb, leb, ◌==◌,
  arith, Bool-cases,
}
use nibble.Switch.Values.{rank, eval-lteq, eval-gteq, eval-lt, eval-gt}
use nibble.Switch.Cases.{CaseInfo, Cases, CaseTarget, found, missing, search_case, find_case}
use nibble.Switch.Partition.{key}
use nibble.Switch.Disjoint.{last}

-- A case that holds a value
pub record Holds (is_signed : Bool) (val : ℕ) (info : CaseInfo) : Type 0 where
  pub from : key is_signed info ≤ rank is_signed val
  pub to : rank is_signed val ≤ last is_signed info

-- What the search finds
pub data Chosen (is_signed : Bool) (val len : ℕ) (cases : Cases) : CaseTarget → Type 0 where
  hit :
      (n : ℕ)
      → n < len
      → Holds is_signed val (cases n)
      → Chosen is_signed val len cases (found (cases n).index)
  miss :
      ((n : ℕ) → n < len → ¬ Holds is_signed val (cases n)) → Chosen is_signed val len cases missing

-- Cases one behind the other
pub record InOrder (is_signed : Bool) (len : ℕ) (cases : Cases) : Type 0 where
  pub valid : (n : ℕ) → n < len → key is_signed (cases n) ≤ last is_signed (cases n)
  pub apart : (n m : ℕ) → n < m → m < len → last is_signed (cases n) < key is_signed (cases m)

module _ (s : Bool) (val len : ℕ) (cases : Cases) (order : InOrder s len cases) where
  -- What lies outside `lo` and `hi` does not hold the value.
  record Between (lo hi : ℕ) : Type 0 where
    inside : hi ≤ len
    below : (n : ℕ) → n < lo → n < len → last s (cases n) < rank s val
    above : (n : ℕ) → hi ≤ n → n < len → rank s val < key s (cases n)

  Between-left :
      (lo hi mid : ℕ) → mid < hi → rank s val < key s (cases mid) → Between lo hi → Between lo mid
  Between-left lo hi mid h less b = record {
    inside = omega (arith, b.inside);
    below = b.below;
    above = λ n from n_lt. elim (Bool-cases (n == mid)) [
      | inl at_mid ↦ let e : n ≡ mid = ground arith in rw e less
      | inr not_mid ↦
          let step = order.apart mid n (ground arith) n_lt in
          let valid = order.valid mid (omega (arith, b.inside)) in omega arith
    ];
  }

  Between-right :
      (lo hi mid : ℕ)
      → mid < hi
      → last s (cases mid) < rank s val
      → Between lo hi
      → Between (mid + 1) hi
  Between-right lo hi mid h more b = record {
    inside = b.inside;
    below = λ n n_lt n_len. elim (Bool-cases (n == mid)) [
      | inl at_mid ↦ let e : n ≡ mid = ground arith in rw e more
      | inr not_mid ↦
          let step = order.apart n mid (ground arith) (omega (arith, b.inside)) in
          let valid = order.valid mid (omega (arith, b.inside)) in omega arith
    ];
    above = b.above;
  }

  Between-none : (lo hi : ℕ) → hi ≤ lo → Between lo hi → Chosen s val len cases missing
  Between-none lo hi h b = miss (λ n n_lt holds. elim (Bool-cases (ltb n lo)) [
    | inl before ↦ absurd (omega (arith, b.below n (ground arith) n_lt, holds.to))
    | inr after ↦ absurd (omega (arith, b.above n (ground arith) n_lt, holds.from))
  ])

  -- The search with more fuel than there are cases left
  search_case-Chosen :
      (fuel lo hi : ℕ)
      → lo ≤ hi
      → hi < lo + fuel
      → Between lo hi
      → Chosen s val len cases (search_case fuel s cases val lo hi)
  unfolding search_case
  search_case-Chosen zero lo hi le h b = absurd (omega arith)
  search_case-Chosen (suc fuel) lo hi le h b =
      let mid = lo + (hi - 1 - lo) / 2 in
      let v = rank s val in
      let info = cases mid in
      let ge_test = eval-gteq val info.start s in
      let le_test = eval-lteq val info.end s in
      let lt_test = eval-lt val info.start s in
      let gt_test = eval-gt val info.end s in
      elim (Bool-cases (leb hi lo)) [
        | inl ended ↦ rw ended (Between-none lo hi (ground arith) b)
        | inr left ↦
            let mid_lt : mid < hi = ground arith in
            elim (Bool-cases (ltb v (key s info))) [
              | inl less ↦
                  let not_ge : leb (key s info) v ≡ false = ground arith in
                  rw (left, ge_test, not_ge, lt_test, less)
                    (search_case-Chosen fuel lo mid (omega arith) (omega arith)
                      (Between-left lo hi mid mid_lt (ground arith) b))
              | inr not_less ↦
                  let ge : leb (key s info) v ≡ true = ground arith in
                  elim (Bool-cases (leb v (last s info))) [
                    | inl within ↦
                        rw (left, ge_test, ge, le_test, within)
                          (hit mid (omega (arith, b.inside))
                            (record { from = ground arith; to = ground arith }))
                    | inr beyond ↦
                        let more : ltb (last s info) v ≡ true = ground arith in
                        rw (left, ge_test, ge, le_test, beyond, lt_test, not_less, gt_test, more)
                          (search_case-Chosen fuel (mid + 1) hi (omega arith) (omega arith)
                            (Between-right lo hi mid mid_lt (ground arith) b))
                  ]
            ]
      ]

-- The whole search
pub find_case-Chosen :
    (s : Bool) (val len : ℕ) (cases : Cases)
    → 0 < len
    → len < 2 ^ 32
    → InOrder s len cases
    → Chosen s val len cases (find_case (suc len) s cases len val)
unfolding find_case
find_case-Chosen s val len cases pos small order =
    let last_index : (len + 2 ^ 32 - 1) % 2 ^ 32 + 1 ≡ len = omega arith in
    rw last_index (
      search_case-Chosen s val len cases order (suc len) 0 len (omega arith) (omega arith) (record {
        inside = omega arith;
        below = λ n h n_lt. absurd (omega arith);
        above = λ n h n_lt. absurd (omega arith);
      }))
