-- ===== src/RegAlloc/Collect.antt =====
-- The list of unhandled intervals that src/x64_gen/reg_alloc.c starts with.
use nibble.Prelude.{
  ℕ, zero, suc, ◌+◌, ◌≤◌, ◌<◌, ◌≡◌, refl, Bool, true, false, List, [], ◌∷◌, inl, inr, ◌==◌,
  if◌then◌else◌, arith, Bool-cases, Option, none, some, length, length-append, subst,
}
use nibble.RegAlloc.Aliases.Forest.{find_alias_reg}
use nibble.RegAlloc.State.{
  Builder, IntervalList, ok, start_of, interval_list_add_by, list_add_by, belongs_at_end,
  add_before_later,
}
use nibble.RegAlloc.Order.{
  has, IsDistinct, IsAscending, IsDistinct-list_add_by, has-list_add_by, IsAscending-list_add_by,
}
use nibble.RegAlloc.Aliases.Find.{halve}
use nibble.RegAlloc.CallSites.{collect}

-- The search for a root does not touch another root, and answers a root at once.
find_alias_reg-root :
    (fuel : ℕ) (roots roots' : ℕ → ℕ) (i r l : ℕ)
    → find_alias_reg fuel roots i ≡ some (r, roots')
    → roots l ≡ l
    → (roots' l ≡ l) × (i ≡ l → r ≡ l)
unfolding find_alias_reg
find_alias_reg-root zero roots roots' i r l e root = (ground arith, λ q. ground arith)
find_alias_reg-root (suc fuel) roots roots' i r l e root = elim (Bool-cases (roots i == i)) [
  | inl at_root ↦ (ground arith, λ q. ground arith)
  | inr above ↦
      let halved = halve roots i in
      let kept =
        find_alias_reg-root fuel halved roots' (roots i) r l (rw (above, find_alias_reg) at e)
          (ground arith) in
      (kept.0, λ q. absurd (ground arith))
]

length-add_before_later :
    (key : ℕ → ℕ) (i : ℕ) (xs : List ℕ) → length (add_before_later key i xs) ≡ suc (length xs)
unfolding add_before_later
length-add_before_later key i [] = refl
length-add_before_later key i (x ∷ xs) = ground (arith, length-add_before_later key i xs)

module _ (b : Builder) where
  add : IntervalList → ℕ → IntervalList
  add l i = interval_list_add_by b (start_of b) l i

  -- The list holds distinct intervals from `i` on, in the order of their starts.
  pub record Collected (i : ℕ) (u : IntervalList) : Type 0 where
    pub distinct : IsDistinct u.list
    pub ascending : IsAscending (start_of b) 0 u.list
    pub range : (l : ℕ) → has l u.list ≡ true → (i ≤ l) × (l < b.num_lreg_ranges)

  add-Collected :
      (i : ℕ) (u : IntervalList)
      → i < b.num_lreg_ranges
      → Collected (suc i) u
      → Collected i (add u i)
  unfolding add interval_list_add_by
  add-Collected i u h c = record {
    distinct = IsDistinct-list_add_by (start_of b) i u.list (ground (arith, c.range i)) c.distinct;
    ascending = IsAscending-list_add_by (start_of b) 0 i u.list (omega arith) c.ascending;
    range = λ l m. ground (arith, has-list_add_by (start_of b) l i u.list, c.range l);
  }

  skip-Collected : (i : ℕ) (u : IntervalList) → Collected (suc i) u → Collected i u
  skip-Collected i u c = record {
    distinct = c.distinct;
    ascending = c.ascending;
    range = λ l m. omega (arith, c.range l m);
  }

  step : Bool → IntervalList → ℕ → IntervalList
  step root u i = if root then add u i else u

  step-Collected :
      (root : Bool) (i : ℕ) (u : IntervalList)
      → i < b.num_lreg_ranges
      → Collected (suc i) u
      → Collected i (step root u i)
        × ((l : ℕ) → has l u.list ≡ true → has l (step root u i).list ≡ true)
        × (root ≡ true → has i (step root u i).list ≡ true)
  unfolding step add interval_list_add_by
  step-Collected true i u h c = (
    add-Collected i u h c,
    λ l m. ground (arith, has-list_add_by (start_of b) l i u.list),
    λ r. ground (arith, has-list_add_by (start_of b) i i u.list),
  )
  step-Collected false i u h c = (skip-Collected i u c, λ l m. m, λ r. cc)

  length-list_add_by :
      (key : ℕ → ℕ) (i : ℕ) (xs : List ℕ) → length (list_add_by key i xs) ≡ suc (length xs)
  unfolding list_add_by
  length-list_add_by key i xs = elim (Bool-cases (belongs_at_end key i xs)) [
    | inl e ↦ rw (e, length-append) (omega arith)
    | inr e ↦ rw e (length-add_before_later key i xs)
  ]

  -- The loop adds at most one interval a round.
  pub collect-length :
      (i : ℕ) (aliases : ℕ → ℕ) (u u' : IntervalList) (n n' : ℕ)
      → collect b i aliases u n ≡ ok (u', n')
      → length u'.list ≤ length u.list + i
  unfolding collect step add interval_list_add_by
  collect-length zero aliases u u' n n' e = ground arith
  collect-length (suc i) aliases u u' n n' e = go _ refl (λ al v k. collect-length i al v u' k n')
    where
      longer : (root : Bool) → length (step root u i).list ≤ suc (length u.list)
      longer true = omega (arith, length-list_add_by (start_of b) i u.list)
      longer false = omega arith

      go :
          (o : Option (ℕ × (ℕ → ℕ)))
          → find_alias_reg b.num_lreg_ranges aliases i ≡ o
          → ((al : ℕ → ℕ) (v : IntervalList) (k : ℕ)
              → collect b i al v k ≡ ok (u', n')
              → length u'.list ≤ length v.list + i)
          → length u'.list ≤ length u.list + suc i
      go none q rec = absurd (ground (arith, q))
      go (some (r, al)) q rec =
          let below =
            rec al (step (r == i) u i) (if r == i then n + 1 else n) (ground (arith, q)) in
          omega (arith, below, longer (r == i))

  -- What a run of the loop below `i` adds to `u`.
  abbrev pub Found : ℕ → (ℕ → ℕ) → IntervalList → IntervalList → Type 0
  Found i aliases u u' =
      Collected 0 u'
      × ((l : ℕ) → has l u.list ≡ true → has l u'.list ≡ true)
      × ((l : ℕ) → l < i → aliases l ≡ l → has l u'.list ≡ true)

  -- The collected list: distinct intervals in the order of their starts, every root among them.
  pub collect-Found :
      (i : ℕ) (aliases : ℕ → ℕ) (u u' : IntervalList) (n n' : ℕ)
      → i ≤ b.num_lreg_ranges
      → Collected i u
      → collect b i aliases u n ≡ ok (u', n')
      → Found i aliases u u'
  unfolding collect step add
  collect-Found zero aliases u u' n n' h c e =
      let same : u ≡ u' = ground arith in
      (subst (Collected 0) same c, λ l m. ground arith, λ l lt r. absurd (omega arith))
  collect-Found (suc i) aliases u u' n n' h c e = go _ refl (λ al v k. collect-Found i al v u' k n')
    where
      go :
          (o : Option (ℕ × (ℕ → ℕ)))
          → find_alias_reg b.num_lreg_ranges aliases i ≡ o
          → ((al : ℕ → ℕ) (v : IntervalList) (k : ℕ)
              → i ≤ b.num_lreg_ranges
              → Collected i v
              → collect b i al v k ≡ ok (u', n')
              → Found i al v u')
          → Found (suc i) aliases u u'
      go none q rec = absurd (ground (arith, q))
      go (some (r, al)) q rec =
          let (c1, keeps, adds) = step-Collected (r == i) i u (omega arith) c in
          let (c2, keeps2, roots) =
            rec al (step (r == i) u i) (if r == i then n + 1 else n) (omega arith) c1
              (ground (arith, q)) in
          (
            c2,
            λ l m. keeps2 l (keeps l m),
            λ l lt root.
                let (kept, found) = find_alias_reg-root b.num_lreg_ranges aliases al i r l q root in
                elim (Bool-cases (i == l)) [
                  | inl e ↦
                      let same : i ≡ l = ground arith in
                      subst (λ t. has t u'.list ≡ true) same
                        (keeps2 i (adds (ground (arith, found same))))
                  | inr ne ↦ roots l (ground arith) kept
                ],
          )
