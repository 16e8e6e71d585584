-- ===== src/RegAlloc/Aliases/Find.antt =====
-- XIR_find_alias_reg of src/x64_gen/ir_to_xir.c finds the root of a register, and path halving does
-- not move any register to another root.
use nibble.Prelude.{
  update, ℕ, zero, suc, ◌+◌, ◌≤◌, ◌<◌, ◌≡◌, refl, sym, ◌⊎◌, inl, inr, ◌==◌, some, arith, Bool-cases,
  subst, ◌∙◌,
}
use nibble.RegAlloc.Aliases.Forest.{find_alias_reg}

-- `t` is the root that the links lead to from `r`.
pub data RootOf (roots : ℕ → ℕ) : ℕ → ℕ → Type 0 where
  at : {r : ℕ} → roots r ≡ r → RootOf roots r r
  up : {r p t : ℕ} → roots r ≡ p → RootOf roots p t → RootOf roots r t

-- A link leads to a larger set, as after a union by size; no set has more than `n` members.
pub record IsForest (n : ℕ) (roots sizes : ℕ → ℕ) : Type 0 where
  pub links : (i : ℕ) → (roots i ≡ i) ⊎ (sizes i < sizes (roots i))
  pub bounded : (i : ℕ) → sizes i ≤ n

pub RootOf-root : {roots : ℕ → ℕ} {r t : ℕ} → RootOf roots r t → roots t ≡ t
RootOf-root (at e) = e
RootOf-root (up e d) = RootOf-root d

pub RootOf-of_root : {roots : ℕ → ℕ} {r t : ℕ} → RootOf roots r t → roots r ≡ r → t ≡ r
RootOf-of_root (at e) h = refl
RootOf-of_root (up e d) h = ground (arith, RootOf-of_root d (ground arith))

-- A register has one root.
pub RootOf-unique : {roots : ℕ → ℕ} {r t t' : ℕ} → RootOf roots r t → RootOf roots r t' → t ≡ t'
RootOf-unique (at e) d' = sym (RootOf-of_root d' e)
RootOf-unique {roots} {t' = t'} (up e d) (at e') = RootOf-of_root d (ground arith) ∙ cc
RootOf-unique {roots} {t' = t'} (up {p = p} e d) (up {p = q} e' d') =
    let same : q ≡ p = cc in RootOf-unique d (subst (λ x. RootOf roots x t') same d')

-- One step of path halving.
abbrev pub halve : (ℕ → ℕ) → ℕ → ℕ → ℕ
halve roots r = update roots r (roots (roots r))

halve-RootOf : (roots : ℕ → ℕ) (r : ℕ) {x t : ℕ} → RootOf roots x t → RootOf (halve roots r) x t
halve-RootOf roots r {x} (at e) = at (ground arith)
halve-RootOf roots r {x} (up {p = p} e (at e')) =
    up {p = p} (ground arith) (halve-RootOf roots r (at e'))
halve-RootOf roots r {x} (up {p = p} e (up {p = q} e' d)) = elim (Bool-cases (r == x)) [
  | inl here ↦ up {p = q} (ground arith) (halve-RootOf roots r d)
  | inr other ↦ up {p = p} (ground arith) (halve-RootOf roots r (up {p = q} e' d))
]

halve-IsForest :
    (n : ℕ) (roots sizes : ℕ → ℕ) (r : ℕ)
    → IsForest n roots sizes
    → IsForest n (halve roots r) sizes
halve-IsForest n roots sizes r f = record {
  links = λ i. ground (arith, f.links i, f.links (roots i), f.links r, f.links (roots r));
  bounded = f.bounded;
}

-- Halving adds no root: a link that skips a register stands for two links.
unhalve-RootOf :
    {n : ℕ} {roots sizes : ℕ → ℕ}
    → IsForest n roots sizes
    → (r : ℕ) {x t : ℕ} → RootOf (halve roots r) x t
    → RootOf roots x t
unhalve-RootOf {roots = roots} f r {x} (at e) = at (ground (arith, f.links r, f.links (roots r)))
unhalve-RootOf {roots = roots} f r {x} (up {p = p} e d) = elim (Bool-cases (r == x)) [
  | inl here ↦ up {p = roots x} refl (up {p = p} (ground arith) (unhalve-RootOf f r d))
  | inr other ↦ up {p = p} (ground arith) (unhalve-RootOf f r d)
]

-- With fuel for the sizes above the register's own, the loop ends at the root of the register; every
-- register keeps its root, and the forest stays one.
pub find_alias_reg-RootOf :
    (fuel n : ℕ) (roots sizes : ℕ → ℕ) (r : ℕ)
    → IsForest n roots sizes
    → n ≤ fuel + sizes r
    → (t : ℕ) × (roots' : ℕ → ℕ) × (find_alias_reg fuel roots r ≡ some (t, roots'))
      × RootOf roots r t
      × ((x y : ℕ) → RootOf roots x y → RootOf roots' x y)
      × IsForest n roots' sizes
unfolding find_alias_reg
find_alias_reg-RootOf zero n roots sizes r f room = elim (Bool-cases (roots r == r)) [
  | inl root ↦ (r, roots, rw (root, find_alias_reg), at (ground arith), λ x y d. d, f)
  | inr inner ↦ absurd (ground (arith, f.links r, f.bounded (roots r)))
]
find_alias_reg-RootOf (suc fuel) n roots sizes r f room = elim (Bool-cases (roots r == r)) [
  | inl root ↦ (r, roots, rw (root, find_alias_reg), at (ground arith), λ x y d. d, f)
  | inr inner ↦
      let (t, roots', run, root, keeps, forest) =
        find_alias_reg-RootOf fuel n (halve roots r) sizes (roots r)
          (halve-IsForest n roots sizes r f) (ground (arith, f.links r)) in
      (
        t,
        roots',
        rw (inner, find_alias_reg) run,
        up {p = roots r} refl (unhalve-RootOf f r root),
        λ x y d. keeps x y (halve-RootOf roots r d),
        forest,
      )
]
