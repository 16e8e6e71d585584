-- ===== src/Switch/Disjoint.antt =====
-- The check of resolve_stmt_switch, src/resolver/stmts.c, finds out whether two cases share a value.
use nibble.Prelude.{
  ℕ, zero, suc, ◌+◌, ◌-◌, ◌≤◌, ◌<◌, ◌≡◌, ◌≢◌, ◌⊎◌, inl, inr, refl, sym, ◌∙◌, subst, Bool, Option,
  none, some, ltb, leb, ◌==◌, if◌then◌else◌, arith, Bool-cases,
}
use nibble.Switch.Values.{rank, eval-lteq, eval-gt}
use nibble.Switch.Cases.{
  CaseInfo, Cases, qsort_cases, repeated_case, CasesResult, repeated, accepted, cases_result,
  check_sorted, sort_and_check,
}
use nibble.Switch.Swaps.{In, Swaps, All, Pairs, Swaps-Pairs, Swaps-Origin}
use nibble.Switch.Partition.{key, AllSigned}
use nibble.Switch.Sort.{IsSorted, SortsTo, sorts, qsort_cases-SortsTo}

-- Where the last value of a case stands
abbrev pub last : Bool → CaseInfo → ℕ
last is_signed info = rank is_signed info.end

-- Two cases that share no value
abbrev pub Apart : Bool → CaseInfo → CaseInfo → Type 0
Apart is_signed a b = (last is_signed a < key is_signed b) ⊎ (last is_signed b < key is_signed a)

-- Cases of which none is empty
abbrev pub AllValid : Bool → ℕ → ℕ → Cases → Type 0
AllValid is_signed = All (λ info. key is_signed info ≤ last is_signed info)

-- What the check finds
pub data Checked (is_signed : Bool) (len : ℕ) (cases : Cases) : Option ℕ → Type 0 where
  apart :
      ((n m : ℕ) → n < m → m < len → last is_signed (cases n) < key is_signed (cases m))
      → Checked is_signed len cases none
  clash :
      (n m : ℕ)
      → n < m
      → m < len
      → key is_signed (cases n) ≤ key is_signed (cases m)
      → key is_signed (cases m) ≤ last is_signed (cases n)
      → Checked is_signed len cases (some (cases m).index)

module _ (s : Bool) (len : ℕ) (cases : Cases) (sorted : IsSorted s 0 (len - 1) cases) where
  -- Before `i` the cases are apart, and `prev` is the one that ends last.
  record Reached (i : ℕ) (prev : CaseInfo) : Type 0 where
    place : ℕ
    earlier : place < i
    is_prev : prev ≡ cases place
    tops : (m : ℕ) → m < i → last s (cases m) ≤ last s prev
    before : (n m : ℕ) → n < m → m < i → last s (cases n) < key s (cases m)

  Reached-before :
      (i : ℕ) (prev : CaseInfo)
      → Reached i prev
      → last s prev < key s (cases i)
      → (n m : ℕ) → n < m
      → m < i + 1
      → last s (cases n) < key s (cases m)
  Reached-before i prev r beyond n m h m_lt = elim (Bool-cases (m == i)) [
    | inl at_i ↦
        let e : m ≡ i = ground arith in let top = r.tops n (ground arith) in rw e (omega arith)
    | inr not_i ↦ r.before n m h (ground arith)
  ]

  Reached-next :
      (i : ℕ) (prev : CaseInfo)
      → Reached i prev
      → last s prev < key s (cases i)
      → Reached (i + 1) (if ltb (last s prev) (last s (cases i)) then cases i else prev)
  Reached-next i prev r beyond = elim (Bool-cases (ltb (last s prev) (last s (cases i)))) [
    | inl further ↦ rw further (record {
      place = i;
      earlier = omega arith;
      is_prev = refl;
      tops = λ m h. elim (Bool-cases (m == i)) [
        | inl at_i ↦ let e : m ≡ i = ground arith in rw e (omega arith)
        | inr not_i ↦ let top = r.tops m (ground arith) in ground arith
      ];
      before = Reached-before i prev r beyond;
    })
    | inr not_further ↦ rw not_further (record {
      place = r.place;
      earlier = omega (arith, r.earlier);
      is_prev = r.is_prev;
      tops = λ m h. elim (Bool-cases (m == i)) [
        | inl at_i ↦ let e : m ≡ i = ground arith in rw e (ground arith)
        | inr not_i ↦ r.tops m (ground arith)
      ];
      before = Reached-before i prev r beyond;
    })
  ]

  repeated_case-Checked :
      (n i : ℕ) (prev : CaseInfo)
      → i + n ≡ len
      → Reached i prev
      → Checked s len cases (repeated_case s cases n i prev)
  unfolding repeated_case
  repeated_case-Checked zero i prev h r = apart (λ n m less inside. r.before n m less (omega arith))
  repeated_case-Checked (suc n) i prev h r =
      let starts = eval-lteq (cases i).start prev.end s in
      elim (Bool-cases (leb (key s (cases i)) (last s prev))) [
        | inl inside ↦
            let order =
              sorted.at r.place i (omega arith) (omega (arith, r.earlier)) (omega arith) in
            let shared : key s (cases i) ≤ last s (cases r.place) =
              subst (λ c. key s (cases i) ≤ last s c) r.is_prev (ground arith) in
            rw (starts, inside) (clash r.place i r.earlier (omega arith) order shared)
        | inr beyond ↦
            rw (starts, beyond, eval-gt (cases i).end prev.end s)
              (repeated_case-Checked n (i + 1)
                (if ltb (last s prev) (last s (cases i)) then cases i else prev) (omega arith)
                (Reached-next i prev r (ground arith)))
      ]

-- What checking the cases comes to
pub data Outcome (is_signed : Bool) (len : ℕ) (cases : Cases) : CasesResult → Type 0 where
  -- No two cases share a value, and the result has them in order, one behind the other.
  accepts :
      (r : Cases)
      → Swaps 0 (len - 1) cases r
      → Pairs (Apart is_signed) 0 (len - 1) cases
      → IsSorted is_signed 0 (len - 1) r
      → ((n m : ℕ) → n < m → m < len → last is_signed (r n) < key is_signed (r m))
      → Outcome is_signed len cases (accepted r)
  -- The named case starts inside another one.
  rejects :
      (k l : ℕ)
      → In 0 (len - 1) k
      → In 0 (len - 1) l
      → k ≢ l
      → key is_signed (cases l) ≤ key is_signed (cases k)
      → key is_signed (cases k) ≤ last is_signed (cases l)
      → Outcome is_signed len cases (repeated (cases k).index)

module _ (s : Bool) (len : ℕ) (cases : Cases) where
  Pairs-Apart :
      (r : Cases)
      → ((n m : ℕ) → n < m → m < len → last s (r n) < key s (r m))
      → 0 < len
      → Pairs (Apart s) 0 (len - 1) r
  Pairs-Apart r separate pos = record {
    at = λ n m n_in m_in differ. elim (Bool-cases (ltb n m)) [
      | inl less ↦ inl (separate n m (ground arith) (omega (arith, m_in.to)))
      | inr not_less ↦ inr (
          separate m n
            (elim (Bool-cases (n == m)) [
              | inl e ↦ absurd (differ (ground arith))
              | inr more ↦ ground arith
            ])
            (omega (arith, n_in.to)))
    ];
  }

  clash-Outcome :
      (r : Cases) (n m : ℕ)
      → Swaps 0 (len - 1) cases r
      → n < m
      → m < len
      → key s (r n) ≤ key s (r m)
      → key s (r m) ≤ last s (r n)
      → Outcome s len cases (repeated (r m).index)
  clash-Outcome r n m swaps less inside order shared =
      let o = Swaps-Origin swaps in
      let n_in = o.inside n (record { from = omega arith; to = omega arith }) in
      let m_in = o.inside m (record { from = omega arith; to = omega arith }) in
      let n_same = o.same n in
      let m_same = o.same m in
      rw m_same (
        rejects (o.of m) (o.of n) m_in n_in (o.distinct m n (λ e. omega arith))
          (rw (sym n_same, sym m_same) order) (rw (sym n_same, sym m_same) shared))

  cases_result-Outcome :
      (r : Cases) (o : Option ℕ)
      → 0 < len
      → Swaps 0 (len - 1) cases r
      → IsSorted s 0 (len - 1) r
      → Checked s len r o
      → Outcome s len cases (cases_result r o)
  cases_result-Outcome r o pos swaps sorted (apart separate) =
      accepts r swaps ((Swaps-Pairs {R = Apart s} swaps).1 (Pairs-Apart r separate pos)) sorted
        separate
  cases_result-Outcome r o pos swaps sorted (clash n m less inside order shared) =
      clash-Outcome r n m swaps less inside order shared

  check_sorted-Outcome :
      (o : Option Cases)
      → 0 < len
      → SortsTo s 0 (len - 1) cases o
      → Outcome s len cases (check_sorted s len o)
  check_sorted-Outcome o pos (sorts r swaps sorted) =
      let first : Reached s len r sorted 1 (r 0) = record {
        place = 0;
        earlier = omega arith;
        is_prev = refl;
        tops = λ m h. let e : m ≡ 0 = omega arith in rw e (omega arith);
        before = λ n m h below. absurd (omega arith);
      } in
      cases_result-Outcome r (repeated_case s r (len - 1) 1 (r 0)) pos swaps sorted
        (repeated_case-Checked s len r sorted (len - 1) 1 (r 0) (omega arith) first)

-- With a depth that is not below the number of cases, and all cases compared the same way, the check comes
-- to an end: it accepts when no two cases share a value, with the cases exchanged into the order of their
-- values, and otherwise it names a case that starts inside another one.
pub sort_and_check-Outcome :
    (depth : ℕ) (s : Bool) (cases : Cases) (len : ℕ)
    → len ≤ depth
    → AllSigned s 0 (len - 1) cases
    → Outcome s len cases (sort_and_check depth s cases len)
unfolding sort_and_check
sort_and_check-Outcome depth s cases len h signed = elim (Bool-cases (ltb 0 len)) [
  | inl some_case ↦ rw some_case (
      check_sorted-Outcome s len cases (qsort_cases depth cases 0 (len - 1)) (ground arith)
        (qsort_cases-SortsTo depth s cases 0 (len - 1) (ground arith) (ground arith) signed))
  | inr no_case ↦
      let none : len ≡ 0 = ground arith in
      let alone : (n : ℕ) → n ≤ len - 1 → n ≡ 0 = λ n h. omega arith in
      rw no_case (
        accepts cases Swaps.same
          (record {
            at = λ n m n_in m_in differ. absurd (differ (alone n n_in.to ∙ sym (alone m m_in.to)));
          })
          (record { at = λ n m from le to. rw (alone n (omega arith), alone m to) (omega arith) })
          (λ n m less inside. absurd (omega arith)))
]
