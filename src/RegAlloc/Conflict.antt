-- ===== src/RegAlloc/Conflict.antt =====
-- The functions of the main loop of src/x64_gen/reg_alloc.c keep the invariant.
use nibble.Prelude.{
  ℕ, ◌+◌, ◌≤◌, ◌<◌, ◌≡◌, refl, true, false, ◌||◌, List, [], ◌∷◌, inl, inr, ◌==◌, ltb, arith,
  Bool-cases, ◌∙◌, ap, subst, length,
}
use nibble.Regs.{RegClass, Target}
use nibble.RegAlloc.State.{
  Builder, State, unoccupied, start_of, end_of, ok, >>=-eq-ok, interval_list_add_by, list_rm,
  list_add_by, ctrl_of,
}
use nibble.RegAlloc.Order.{
  has, IsDistinct, has-list_rm, IsDistinct-list_rm, IsDistinct-list_add_by, has-list_add_by,
  IsAscending,
}
use nibble.RegAlloc.Scan.{
  alloc_reg, activate, spill_reg_loc, steal_reg, expire, expire_old, place_by, place, scan,
}
use nibble.RegAlloc.Invariant.{Inv, later-Inv, free-Inv, spill-Inv, take-Inv, steal-Inv}
use nibble.RegAlloc.Effects.{
  reg_number, expire_effect, steal_effect, place_by-Placed, Placed, took, spilled, stole,
}

module _ (target : Target) (b : Builder) (scratch_regs : RegClass → List ℕ) where
  abbrev pub StateInv : List ℕ → ℕ → State → Type 0
  StateInv done p st = Inv b done p st.active.list st.rmap st.locs

  expire-Inv :
      (done : List ℕ) (p i : ℕ) (st st' : State)
      → StateInv done p st
      → has i st.active.list ≡ true
      → end_of b i ≤ p
      → expire target b scratch_regs st i ≡ ok st'
      → StateInv done p st'
  expire-Inv done p i st st' inv h ended e =
      let (le, ae, me, same, ue, oe, he) = expire_effect target b scratch_regs i st st' e in
      rw (ae, me, same) (free-Inv inv i (reg_number (st.locs i)) h le ended)

  -- The loop keeps the invariant, and the end of each interval that it removes is not after `p`.
  pub expire_old-Inv :
      (done : List ℕ) (p : ℕ) (is : List ℕ) (st st' : State)
      → StateInv done p st
      → IsDistinct is
      → ((l : ℕ) → has l is ≡ true → has l st.active.list ≡ true)
      → expire_old target b scratch_regs p is st ≡ ok st'
      → StateInv done p st'
  unfolding expire_old has
  expire_old-Inv done p [] st st' inv d sub e =
      let same : st ≡ st' = cc in subst (StateInv done p) same inv
  expire_old-Inv done p (i ∷ is) st st' inv d sub e = elim (Bool-cases (ltb p (end_of b i))) [
    | inl stop ↦ let same : st ≡ st' = ground arith in subst (StateInv done p) same inv
    | inr go ↦
        let (mid, run, rest) =
          >>=-eq-ok (expire target b scratch_regs st i) (expire_old target b scratch_regs p is)
            (rw (go, expire_old) at e) in
        let (le, ae, me, same, ue, oe, he) = expire_effect target b scratch_regs i st mid run in
        expire_old-Inv done p is mid st'
          (expire-Inv done p i st mid inv (sub i (ground arith)) (ground arith) run) d.1
          (λ l hl. rw ae (ground (arith, has-list_rm l i st.active.list, sub l))) rest
  ]

  module _ (done : List ℕ) (p i : ℕ) (fresh : has i done ≡ false) (fits : i < unoccupied) where
    not_active : (st : State) → StateInv done p st → has i st.active.list ≡ false
    not_active st inv = ground (arith, inv.known i)

    spill_reg_loc-Inv :
        (st : State)
        → StateInv done p st
        → StateInv (i ∷ done) p (spill_reg_loc target b scratch_regs st i)
    unfolding spill_reg_loc
    spill_reg_loc-Inv st inv = spill-Inv inv i fresh fits _

    module _ (begins : p ≤ start_of b i) where
      activate-Inv :
          (st : State) (reg : ℕ)
          → StateInv done p st
          → st.rmap reg ≡ unoccupied
          → StateInv
              (i ∷ done)
              p
              (activate target b scratch_regs (alloc_reg target b scratch_regs st reg i) i reg)
      unfolding activate alloc_reg interval_list_add_by
      activate-Inv st reg inv free =
          take-Inv inv i fresh fits (list_add_by (end_of b) i st.active.list)
            (IsDistinct-list_add_by _ i st.active.list (not_active st inv) inv.distinct) begins reg
            (λ l. has-list_add_by (end_of b) l i st.active.list) free

      steal_reg-Inv :
          (st st' : State) (v : ℕ)
          → StateInv done p st
          → has v st.active.list ≡ true
          → steal_reg target b scratch_regs st v i ≡ ok st'
          → StateInv (i ∷ done) p st'
      steal_reg-Inv st st' v inv va e =
          let (ve, ae, me, le, oe, ue, he) = steal_effect target b scratch_regs v i st st' e in
          let kept = list_rm v st.active.list in
          let absent : has i kept ≡ false =
            ground (arith, has-list_rm i v st.active.list, not_active st inv) in
          rw (ae, me, le)
            (steal-Inv inv i fresh fits (list_add_by (end_of b) i kept)
              (IsDistinct-list_add_by (end_of b) i kept absent
                (IsDistinct-list_rm v _ inv.distinct))
              begins v (reg_number (st.locs v)) _
              (λ l.
                has-list_add_by (end_of b) l i kept
                ∙ ap (λ t. i == l || t) (has-list_rm l v st.active.list))
              va ve)

      Placed-Inv :
          (st st' : State)
          → StateInv done p st
          → Placed target b scratch_regs st i st'
          → StateInv (i ∷ done) p st'
      Placed-Inv st st' inv (took reg free c e) = rw e (activate-Inv st reg inv free)
      Placed-Inv st st' inv (spilled f e) = rw e (spill_reg_loc-Inv st inv)
      Placed-Inv st st' inv (stole v va vf f e) = steal_reg-Inv st st' v inv va e

  -- One round of the main loop.
  pub place-Inv :
      (done : List ℕ) (p i : ℕ) (later : List ℕ) (st st' : State)
      → has i done ≡ false
      → i < unoccupied
      → p ≤ start_of b i
      → StateInv done p st
      → place target b scratch_regs st i later ≡ ok st'
      → StateInv (i ∷ done) (start_of b i) st'
  unfolding place
  place-Inv done p i later st st' fresh fits begins inv e =
      let start = start_of b i in
      let (mid, run, rest) =
        >>=-eq-ok (expire_old target b scratch_regs start st.active.list st)
          (λ expired. place_by target b scratch_regs (ctrl_of b i) expired i later) e in
      let expired =
        expire_old-Inv done start st.active.list st mid (later-Inv inv start begins) inv.distinct
          (λ l h. h) run in
      Placed-Inv done start i fresh fits (omega arith) mid st' expired
        (place_by-Placed target b scratch_regs (ctrl_of b i) mid st' i later refl rest)

  -- `is` in front of `done`, the last one first.
  abbrev pub placed_after : List ℕ → List ℕ → List ℕ
  placed_after [] done = done
  placed_after (i ∷ is) done = placed_after is (i ∷ done)

  pub has-placed_after :
      (l : ℕ) (is done : List ℕ) → has l (placed_after is done) ≡ (has l is || has l done)
  unfolding has
  has-placed_after l [] done = refl
  has-placed_after l (i ∷ is) done = ground (arith, has-placed_after l is (i ∷ done))

  pub length-placed_after :
      (is done : List ℕ) → length (placed_after is done) ≡ length is + length done
  length-placed_after [] done = omega arith
  length-placed_after (i ∷ is) done = omega (arith, length-placed_after is (i ∷ done))

  -- The main loop keeps the invariant: it is run on distinct intervals in the order of their starts.
  pub scan-Inv :
      (done : List ℕ) (p : ℕ) (is : List ℕ) (st st' : State)
      → IsDistinct is
      → IsAscending (start_of b) p is
      → ((l : ℕ) → has l is ≡ true → (l < unoccupied) × (has l done ≡ false))
      → StateInv done p st
      → scan target b scratch_regs is st ≡ ok st'
      → (q : ℕ) × StateInv (placed_after is done) q st'
  unfolding scan has
  scan-Inv done p [] st st' d a new inv e =
      let same : st ≡ st' = cc in (p, subst (StateInv done p) same inv)
  scan-Inv done p (i ∷ is) st st' d a new inv e =
      let (mid, run, rest) =
        >>=-eq-ok (place target b scratch_regs st i is) (scan target b scratch_regs is) e in
      let (fits, fresh) = new i (ground arith) in
      scan-Inv (i ∷ done) (start_of b i) is mid st' d.1 a.1 (λ l h. ground (arith, new l))
        (place-Inv done p i is st mid fresh fits a.0 inv run) rest
