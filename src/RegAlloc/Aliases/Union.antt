-- ===== src/RegAlloc/Aliases/Union.antt =====
-- XIR_alias_regs of src/x64_gen/ir_to_xir.c merges two sets of registers and leaves the others.
use nibble.Prelude.{
  update, ℕ, ◌+◌, ◌≤◌, ◌≡◌, refl, sym, ◌≢◌, ◌⊎◌, inl, inr, ◌==◌, ◌||◌, arith, Bool-cases, subst, ap,
  ltb, if◌then◌else◌,
}
use nibble.RegAlloc.State.{Outcome, ok, >>=-eq-ok}
use nibble.RegAlloc.Aliases.Forest.{Aliases, merge_ranges, link, join, alias_regs}
use nibble.RegAlloc.Aliases.Find.{
  RootOf, at, up, IsForest, RootOf-root, RootOf-unique, find_alias_reg-RootOf,
}

-- The root of a register after `child` went under `parent`.
abbrev moved : ℕ → ℕ → ℕ → ℕ
moved parent child t = if t == child then parent else t

move-RootOf :
    (roots : ℕ → ℕ) (parent child : ℕ)
    → parent ≢ child
    → roots parent ≡ parent
    → roots child ≡ child
    → {x t : ℕ} → RootOf roots x t
    → RootOf (update roots child parent) x (moved parent child t)
move-RootOf roots parent child ne rp rc {x} (at e) = elim (Bool-cases (x == child)) [
  | inl here ↦ rw here (up {p = parent} (ground arith) (at (ground arith)))
  | inr other ↦ rw other (at (ground arith))
]
move-RootOf roots parent child ne rp rc {x} {t} (up {p = p} e d) = elim (Bool-cases (x == child)) [
  | inl here ↦
      let same : p ≡ x = ground arith in
      subst (λ y. RootOf (update roots child parent) y (moved parent child t)) same
        (move-RootOf roots parent child ne rp rc d)
  | inr other ↦ up {p = p} (ground arith) (move-RootOf roots parent child ne rp rc d)
]

link-roots :
    (a a' : Aliases) (parent child : ℕ)
    → link a parent child ≡ ok a'
    → (a'.roots ≡ update a.roots child parent)
      × (a'.sizes ≡ update a.sizes parent (a.sizes parent + a.sizes child))
unfolding link merge_ranges
link-roots a a' parent child e =
    let (range, run, rest) = >>=-eq-ok (merge_ranges (a.ranges parent) (a.ranges child)) _ e in
    (ap (λ r. roots_of r) (sym rest), ap (λ r. sizes_of r) (sym rest))
  where
    roots_of : Outcome Aliases → ℕ → ℕ
    roots_of (ok b) = b.roots
    roots_of _ = a.roots

    sizes_of : Outcome Aliases → ℕ → ℕ
    sizes_of (ok b) = b.sizes
    sizes_of _ = a.sizes

under :
    (a a' : Aliases) (ru rv parent child : ℕ)
    → parent ≢ child
    → a.roots parent ≡ parent
    → a.roots child ≡ child
    → link a parent child ≡ ok a'
    → ((t : ℕ) → moved parent child t ≡ (if t == ru || t == rv then parent else t))
    → (x t : ℕ) → RootOf a.roots x t
    → RootOf a'.roots x (if t == ru || t == rv then parent else t)
under a a' ru rv parent child ne hp hc e same x t d =
    let (roots, sizes) = link-roots a a' parent child e in
    subst (λ y. RootOf a'.roots x y) (same t)
      (rw roots (move-RootOf a.roots parent child ne hp hc d))

join-RootOf :
    (a a' : Aliases) (ru rv : ℕ)
    → a.roots ru ≡ ru
    → a.roots rv ≡ rv
    → join a ru rv ≡ ok a'
    → (w : ℕ) × ((w ≡ ru) ⊎ (w ≡ rv))
      × ((x t : ℕ) → RootOf a.roots x t → RootOf a'.roots x (if t == ru || t == rv then w else t))
unfolding join
join-RootOf a a' ru rv hu hv e = elim (Bool-cases (ru == rv)) [
  | inl same ↦
      let unchanged : a ≡ a' = ground arith in
      (
        ru,
        inl refl,
        λ x t d.
            let kept : t ≡ (if t == ru || t == rv then ru else t) = ground arith in
            subst (λ y. RootOf a'.roots x y) kept
              (subst (λ (b : Aliases). RootOf b.roots x t) unchanged d),
      )
  | inr apart ↦ elim (Bool-cases (ltb (a.sizes rv) (a.sizes ru))) [
    | inl larger ↦ (
      ru,
      inl refl,
      under a a' ru rv ru rv (ground arith) hu hv (rw (apart, larger) at e) (λ t. ground arith),
    )
    | inr smaller ↦ (
      rv,
      inr refl,
      under a a' ru rv rv ru (ground arith) hv hu (rw (apart, smaller) at e) (λ t. ground arith),
    )
  ]
]

-- If two registers are aliased, every register of their two sets has the one root `w`, which was the
-- root of one of the sets, and every other register keeps its root. The links lead to larger sets of
-- at most `n` members, and the fuel is at least `n`.
pub alias_regs-RootOf :
    (fuel n u v tu tv : ℕ) (a a' : Aliases)
    → IsForest n a.roots a.sizes
    → n ≤ fuel
    → RootOf a.roots u tu
    → RootOf a.roots v tv
    → alias_regs fuel a u v ≡ ok a'
    → (w : ℕ) × ((w ≡ tu) ⊎ (w ≡ tv))
      × ((x t : ℕ) → RootOf a.roots x t → RootOf a'.roots x (if t == tu || t == tv then w else t))
unfolding alias_regs
alias_regs-RootOf fuel n u v tu tv a a' f room du dv e =
    let (ru, roots_u, run_u, root_u, keeps_u, forest_u) =
      find_alias_reg-RootOf fuel n a.roots a.sizes u f (omega arith) in
    let (rv, roots_v, run_v, root_v, keeps_v, forest_v) =
      find_alias_reg-RootOf fuel n roots_u a.sizes v forest_u (omega arith) in
    let keeps : (x t : ℕ) → RootOf a.roots x t → RootOf roots_v x t =
      λ x t d. keeps_v x t (keeps_u x t d) in
    let same_u : ru ≡ tu = RootOf-unique root_u du in
    let same_v : rv ≡ tv = RootOf-unique root_v (keeps_u v tv dv) in
    let joined : join (record a { roots = roots_v }) ru rv ≡ ok a' = rw (run_u, run_v) at e in
    let (w, which, all) =
      join-RootOf (record a { roots = roots_v }) a' ru rv (RootOf-root (keeps u ru root_u))
        (RootOf-root (keeps_v v rv root_v)) joined in
    (w, ground arith, λ x t d. rw (same_u, same_v) at (all x t (keeps x t d)))
