-- ===== src/Switch/Swaps.antt =====
-- What exchanging elements of a range keeps, for qsort_swap_case of src/resolver/stmts.c.
use nibble.Prelude.{
  ℕ, ◌≤◌, ◌<◌, ◌≡◌, ◌≢◌, ◌↔◌, ◌⊎◌, inl, inr, refl, sym, ap, ◌∙◌, subst, ◌==◌, if◌then◌else◌, arith,
  Bool-cases,
}
use nibble.Switch.Cases.{CaseInfo, Cases, qsort_swap_case}

-- Where the element that an exchange puts at `n` was
abbrev pub turn : ℕ → ℕ → ℕ → ℕ
turn i j n = if j == n then i else if i == n then j else n

pub qsort_swap_case-turn :
    (cases : Cases) (i j n : ℕ) → qsort_swap_case cases i j n ≡ cases (turn i j n)
unfolding qsort_swap_case
qsort_swap_case-turn cases i j n = elim (Bool-cases (j == n)) [
  | inl at_j ↦ rw at_j refl
  | inr not_j ↦ elim (Bool-cases (i == n)) [
    | inl at_i ↦ rw (not_j, at_i) refl
    | inr not_i ↦ rw (not_j, not_i) refl
  ]
]

turn-turn : (i j n : ℕ) → turn i j (turn i j n) ≡ n
turn-turn i j n = ground arith

-- Being in the range
pub record In (lo hi n : ℕ) : Type 0 where
  pub from : lo ≤ n
  pub to : n ≤ hi

module _ {lo hi i j : ℕ} (i_in : In lo hi i) (j_in : In lo hi j) where
  turn-In : (n : ℕ) → In lo hi n → In lo hi (turn i j n)
  turn-In n h = elim (Bool-cases (j == n)) [
    | inl at_j ↦ rw at_j i_in
    | inr not_j ↦ elim (Bool-cases (i == n)) [
      | inl at_i ↦ rw (not_j, at_i) j_in
      | inr not_i ↦ rw (not_j, not_i) h
    ]
  ]

  turn-outside : (n : ℕ) → (n < lo) ⊎ (hi < n) → turn i j n ≡ n
  turn-outside n h = ground (arith, i_in.from, i_in.to, j_in.from, j_in.to)

-- `b` is `a` with elements of the range exchanged.
pub data Swaps (lo hi : ℕ) (a : Cases) : Cases → Type 0 where
  same : Swaps lo hi a a
  swapped :
      {b : Cases} (i j : ℕ)
      → In lo hi i
      → In lo hi j
      → Swaps lo hi a b
      → Swaps lo hi a (qsort_swap_case b i j)

module _ {lo hi : ℕ} {a : Cases} where
  pub Swaps-trans : {b c : Cases} → Swaps lo hi a b → Swaps lo hi b c → Swaps lo hi a c
  Swaps-trans s same = s
  Swaps-trans s (swapped i j i_in j_in rest) = swapped i j i_in j_in (Swaps-trans s rest)

  pub Swaps-widen :
      {lo' hi' : ℕ} {b : Cases} → lo' ≤ lo → hi ≤ hi' → Swaps lo hi a b → Swaps lo' hi' a b
  Swaps-widen below above same = same
  Swaps-widen below above (swapped i j i_in j_in rest) =
      swapped i j (record { from = omega (arith, i_in.from); to = omega (arith, i_in.to) })
        (record { from = omega (arith, j_in.from); to = omega (arith, j_in.to) })
        (Swaps-widen below above rest)

  -- Nothing else changes.
  pub Swaps-outside : {b : Cases} → Swaps lo hi a b → (n : ℕ) → (n < lo) ⊎ (hi < n) → b n ≡ a n
  Swaps-outside same n h = refl
  Swaps-outside (swapped {b} i j i_in j_in rest) n h =
      qsort_swap_case-turn b i j n ∙ ap b (turn-outside i_in j_in n h) ∙ Swaps-outside rest n h

-- What all elements of a range satisfy
pub record All (P : CaseInfo → Type 0) (lo hi : ℕ) (a : Cases) : Type 0 where
  pub at : (n : ℕ) → In lo hi n → P (a n)

-- What all pairs of elements at different places of a range satisfy
pub record Pairs (R : CaseInfo → CaseInfo → Type 0) (lo hi : ℕ) (a : Cases) : Type 0 where
  pub at : (n m : ℕ) → In lo hi n → In lo hi m → n ≢ m → R (a n) (a m)

module _ {lo hi : ℕ} where
  pub Swaps-All :
      {P : CaseInfo → Type 0} {a b : Cases} → Swaps lo hi a b → All P lo hi a → All P lo hi b
  Swaps-All same all = all
  Swaps-All {P} (swapped {b} i j i_in j_in rest) all = record {
    at = λ n h.
        subst P (sym (qsort_swap_case-turn b i j n))
          ((Swaps-All {P = P} rest all).at (turn i j n) (turn-In i_in j_in n h));
  }

  pub All-Swaps :
      {P : CaseInfo → Type 0} {a b : Cases} → Swaps lo hi a b → All P lo hi b → All P lo hi a
  All-Swaps same all = all
  All-Swaps {P} (swapped {b} i j i_in j_in rest) all = All-Swaps {P = P} rest (record {
    at = λ n h.
        let back : qsort_swap_case b i j (turn i j n) ≡ b n =
          qsort_swap_case-turn b i j (turn i j n) ∙ ap b (turn-turn i j n) in
        subst P back (all.at (turn i j n) (turn-In i_in j_in n h));
  })

  swap-Pairs :
      {R : CaseInfo → CaseInfo → Type 0} {i j : ℕ} (b : Cases)
      → In lo hi i
      → In lo hi j
      → Pairs R lo hi b
      → Pairs R lo hi (qsort_swap_case b i j)
  swap-Pairs {R} {i} {j} b i_in j_in p = record {
    at = λ n m n_in m_in apart.
        rw (qsort_swap_case-turn b i j n, qsort_swap_case-turn b i j m)
          (p.at (turn i j n) (turn i j m) (turn-In i_in j_in n n_in) (turn-In i_in j_in m m_in)
            (λ e. apart (sym (turn-turn i j n) ∙ ap (turn i j) e ∙ turn-turn i j m)));
  }

  unswap-Pairs :
      {R : CaseInfo → CaseInfo → Type 0} {i j : ℕ} (b : Cases)
      → In lo hi i
      → In lo hi j
      → Pairs R lo hi (qsort_swap_case b i j)
      → Pairs R lo hi b
  unswap-Pairs {R} {i} {j} b i_in j_in p = record {
    at = λ n m n_in m_in apart.
        let back : (k : ℕ) → qsort_swap_case b i j (turn i j k) ≡ b k =
          λ k. qsort_swap_case-turn b i j (turn i j k) ∙ ap b (turn-turn i j k) in
        rw (sym (back n), sym (back m))
          (p.at (turn i j n) (turn i j m) (turn-In i_in j_in n n_in) (turn-In i_in j_in m m_in)
            (λ e. apart (sym (turn-turn i j n) ∙ ap (turn i j) e ∙ turn-turn i j m)));
  }

  pub Swaps-Pairs :
      {R : CaseInfo → CaseInfo → Type 0} {a b : Cases}
      → Swaps lo hi a b
      → Pairs R lo hi a ↔ Pairs R lo hi b
  Swaps-Pairs same = (λ p. p, λ p. p)
  Swaps-Pairs {R} (swapped {b} i j i_in j_in rest) =
      let (to, back) = Swaps-Pairs {R = R} rest in
      (λ p. swap-Pairs b i_in j_in (to p), λ p. back (unswap-Pairs b i_in j_in p))

-- Where each element of a range was before the exchanges
pub record Origin (lo hi : ℕ) (a b : Cases) : Type 0 where
  pub of : ℕ → ℕ
  pub inside : (n : ℕ) → In lo hi n → In lo hi (of n)
  pub same : (n : ℕ) → b n ≡ a (of n)
  pub distinct : (n m : ℕ) → n ≢ m → of n ≢ of m

pub Swaps-Origin : {lo hi : ℕ} {a b : Cases} → Swaps lo hi a b → Origin lo hi a b
Swaps-Origin same = record {
  of = λ n. n;
  inside = λ n h. h;
  same = λ n. refl;
  distinct = λ n m h. h;
}
Swaps-Origin (swapped {b} i j i_in j_in rest) =
    let o = Swaps-Origin rest in
    record {
      of = λ n. o.of (turn i j n);
      inside = λ n h. o.inside (turn i j n) (turn-In i_in j_in n h);
      same = λ n. qsort_swap_case-turn b i j n ∙ o.same (turn i j n);
      distinct = λ n m h.
          o.distinct (turn i j n) (turn i j m)
            (λ e. h (sym (turn-turn i j n) ∙ ap (turn i j) e ∙ turn-turn i j m));
    }
