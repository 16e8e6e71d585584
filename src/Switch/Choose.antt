-- ===== src/Switch/Choose.antt =====
-- The check of the cases, src/resolver/stmts.c, and the search in what it gives, src/bytecode/procs.c,
-- together.
use nibble.Prelude.{ℕ, suc, ◌-◌, ◌^◌, ◌≤◌, ◌<◌, ◌≡◌, refl, sym, subst, Bool, arith}
use nibble.Switch.Cases.{
  Cases, CasesResult, repeated, accepted, sort_and_check, CaseTarget, found, missing, find_case,
}
use nibble.Switch.Swaps.{Swaps, Swaps-All, All-Swaps, Swaps-Origin}
use nibble.Switch.Partition.{key, AllSigned}
use nibble.Switch.Disjoint.{last, AllValid, Outcome, accepts, rejects, sort_and_check-Outcome}
use nibble.Switch.Search.{Holds, Chosen, hit, miss, InOrder, find_case-Chosen}

-- What a value takes of the cases as they are written
pub data Takes (is_signed : Bool) (len : ℕ) (cases : Cases) (val : ℕ) : CasesResult → Type 0 where
  refuses : (k : ℕ) → k < len → Takes is_signed len cases val (repeated (cases k).index)
  takes :
      (r : Cases) (k : ℕ)
      → k < len
      → Holds is_signed val (cases k)
      → find_case (suc len) is_signed r len val ≡ found (cases k).index
      → Takes is_signed len cases val (accepted r)
  skips :
      (r : Cases)
      → ((k : ℕ) → k < len → ¬ Holds is_signed val (cases k))
      → find_case (suc len) is_signed r len val ≡ missing
      → Takes is_signed len cases val (accepted r)

module _ (s : Bool) (len : ℕ) (cases : Cases) (val : ℕ) where
  Chosen-Takes :
      (r : Cases) {t : CaseTarget}
      → 0 < len
      → Swaps 0 (len - 1) cases r
      → find_case (suc len) s r len val ≡ t
      → Chosen s val len r t
      → Takes s len cases val (accepted r)
  Chosen-Takes r pos swaps run (hit n n_lt holds) =
      let o = Swaps-Origin swaps in
      let n_in = o.inside n (record { from = omega arith; to = omega arith }) in
      let same = o.same n in
      takes r (o.of n) (omega (arith, n_in.to)) (subst (Holds s val) same holds) (rw (sym same) run)
  Chosen-Takes r pos swaps run (miss none) =
      let all =
        All-Swaps {P = λ info. ¬ Holds s val info} swaps
          (record { at = λ n n_in. none n (omega (arith, n_in.to)) }) in
      skips r (λ k k_lt. all.at k (record { from = omega arith; to = omega arith })) run

  Outcome-Takes :
      {o : CasesResult}
      → 0 < len
      → len < 2 ^ 32
      → AllValid s 0 (len - 1) cases
      → Outcome s len cases o
      → Takes s len cases val o
  Outcome-Takes pos small valid (accepts r swaps pairs sorted apart) =
      let r_valid = Swaps-All {P = λ info. key s info ≤ last s info} swaps valid in
      let order : InOrder s len r = record {
        valid = λ n n_lt. r_valid.at n (record { from = omega arith; to = omega arith });
        apart = apart;
      } in
      Chosen-Takes r pos swaps refl (find_case-Chosen s val len r pos small order)
  Outcome-Takes pos small valid (rejects k l k_in l_in differ order shared) =
      refuses k (omega (arith, k_in.to))

-- For at least one and less than 2 ^ 32 cases, none of which is empty, all compared the same way, with a
-- depth that is not below their number: either the check refuses the switch and names a case, or, for every
-- value, the search in the accepted cases gives the index of a case that holds the value, or ends
-- with no case when no case holds it. The assertion of the search never fails.
pub sort_and_check-Takes :
    (depth : ℕ) (s : Bool) (cases : Cases) (len val : ℕ)
    → 0 < len
    → len < 2 ^ 32
    → len ≤ depth
    → AllSigned s 0 (len - 1) cases
    → AllValid s 0 (len - 1) cases
    → Takes s len cases val (sort_and_check depth s cases len)
sort_and_check-Takes depth s cases len val pos small h signed valid =
    Outcome-Takes s len cases val pos small valid
      (sort_and_check-Outcome depth s cases len h signed)
