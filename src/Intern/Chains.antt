-- ===== src/Intern/Chains.antt =====
-- The chains of objects with the same hash, src/nibble.c.
use nibble.Prelude.{
  ℕ, zero, suc, ◌+◌, ◌≤◌, ◌<◌, ◌≡◌, ◌≢◌, inl, inr, true, false, List, Option, some, ◌==◌, arith,
  Bool-cases, update,
}
use nibble.Intern.Pool.{StrLit, is_lit, find_lit}

-- `a` is in the chain that starts at `head`.
pub data InChain (objs : ℕ → StrLit) (a : ℕ) : ℕ → Type 0 where
  here : a ≢ 0 → InChain objs a a
  there : {head : ℕ} → head ≢ 0 → InChain objs a (objs head).next → InChain objs a head

-- Links lead to older objects.
pub record Older (objs : ℕ → StrLit) (count : ℕ) : Type 0 where
  pub older : (a : ℕ) → a ≢ 0 → a ≤ count → (objs a).next < a

-- What the walk comes to
pub data Walked (objs : ℕ → StrLit) (str : List ℕ) (head : ℕ) : Option ℕ → Type 0 where
  reached : (a : ℕ) → a ≢ 0 → a ≤ head → is_lit (objs a) str ≡ true → Walked objs str head (some a)
  nowhere :
      ((a : ℕ) → InChain objs a head → is_lit (objs a) str ≡ false) → Walked objs str head (some 0)

module _ (objs : ℕ → StrLit) (str : List ℕ) where
  in_rest :
      {head : ℕ} (a : ℕ)
      → is_lit (objs head) str ≡ false
      → ((b : ℕ) → InChain objs b (objs head).next → is_lit (objs b) str ≡ false)
      → InChain objs a head
      → is_lit (objs a) str ≡ false
  in_rest a other others (here nonzero) = other
  in_rest a other others (there nonzero i) = others a i

  Walked-there :
      {head : ℕ} {o : Option ℕ}
      → head ≢ 0
      → (objs head).next < head
      → is_lit (objs head) str ≡ false
      → Walked objs str (objs head).next o
      → Walked objs str head o
  Walked-there nonzero less other (reached a a_nonzero a_le e) = reached a a_nonzero (omega arith) e
  Walked-there nonzero less other (nowhere others) = nowhere (λ a i. in_rest a other others i)

  none_in_null : {head : ℕ} (a : ℕ) → head ≡ 0 → InChain objs a head → is_lit (objs a) str ≡ false
  none_in_null a e (here nonzero) = absurd (nonzero e)
  none_in_null a e (there nonzero i) = absurd (nonzero e)

  -- The walk with fuel for the number of the first object
  pub find_lit-Walked :
      (fuel head count : ℕ)
      → head ≤ fuel
      → head ≤ count
      → Older objs count
      → Walked objs str head (find_lit fuel objs str head)
  unfolding find_lit
  find_lit-Walked zero head count h inside o =
      let null : head ≡ 0 = omega arith in
      let test : (head == 0) ≡ true = ground arith in
      rw test (nowhere (λ a i. none_in_null a null i))
  find_lit-Walked (suc fuel) head count h inside o = elim (Bool-cases (head == 0)) [
    | inl null ↦ rw null (nowhere (λ a i. none_in_null a (ground arith) i))
    | inr nonnull ↦
        let nonzero : head ≢ 0 = λ e. ground arith in
        let less = o.older head nonzero inside in
        elim (Bool-cases (is_lit (objs head) str)) [
          | inl same ↦ rw (nonnull, same) (reached head nonzero (omega arith) same)
          | inr other ↦
              rw (nonnull, other)
                (Walked-there nonzero less other
                  (find_lit-Walked fuel (objs head).next count (omega arith) (omega arith) o))
        ]
  ]

-- An object that is added leaves the chains of the others as they are.
pub InChain-update :
    {objs : ℕ → StrLit} {a head : ℕ} (new : ℕ) (it : StrLit) (count : ℕ)
    → Older objs count
    → count < new
    → head ≤ count
    → InChain objs a head
    → InChain (update objs new it) a head
InChain-update new it count o fresh inside (here nonzero) = here nonzero
InChain-update {objs} {a} {head} new it count o fresh inside (there nonzero i) =
    let other : (new == head) ≡ false = ground arith in
    let rest = InChain-update new it count o fresh (omega (arith, o.older head nonzero inside)) i in
    there nonzero (rw other rest)

pub Older-update :
    (objs : ℕ → StrLit) (count : ℕ) (it : StrLit)
    → Older objs count
    → it.next ≤ count
    → Older (update objs (count + 1) it) (count + 1)
Older-update objs count it o h = record {
  older = λ a nonzero a_le. elim (Bool-cases (count + 1 == a)) [
    | inl new ↦ rw new (ground arith)
    | inr old ↦ rw old (o.older a nonzero (ground arith))
  ];
}
