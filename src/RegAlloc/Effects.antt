-- ===== src/RegAlloc/Effects.antt =====
-- What the functions of the main loop of src/x64_gen/reg_alloc.c do to the state, when they return.
use nibble.Prelude.{
  update, ℕ, ◌+◌, ◌%◌, ◌^◌, ◌≡◌, refl, Bool, true, false, not, ◌&&◌, List, [], ◌∷◌, ◌⊎◌, inl, inr,
  ◌≢◌, ◌==◌, ltb, arith, Bool-cases,
}
use nibble.Prelude.Bits.{u32_is_bit_set}
use nibble.Regs.{RegClass, reg_count, Target}
use nibble.RegAlloc.State.{
  RegLoc, in_reg, in_stack, neg_u32, Builder, State, unoccupied, start_of, end_of, class_of,
  Outcome, ok, failed, aborted, interval_list_rm, interval_list_add_by, list_rm, list_add_by,
  RegAllocControl, none, force_reg, force_any_reg, force_reg_or_spill, hint_lir_reg, hint_phys_reg,
  ctrl_of,
}
use nibble.RegAlloc.Order.{has}
use nibble.RegAlloc.Scan.{
  first_free, next_scratch_reg, next_reg, alloc_reg, free_reg, activate, spill_reg_loc, steal_reg,
  expire, place_forced, place_in_any, place_or_spill, spill_latest, preg_hint, take_free_reg,
  place_ordinary, place_by, out_of_regs, last_that, can_spill, max_int_reg_size, is_forced, u32_not,
  banned_by,
}
use mathlib.Core.Option.{Option}

-- The register that the loop of X64_next_reg finds is free.
first_free-free :
    (rmap : ℕ → ℕ) (banned : ℕ) (regs : List ℕ)
    → (first_free rmap banned regs ≡ reg_count) ⊎ (rmap (first_free rmap banned regs) ≡ unoccupied)
unfolding first_free
first_free-free rmap banned [] = inl refl
first_free-free rmap banned (r ∷ rs) =
    elim (Bool-cases (rmap r == unoccupied && not (u32_is_bit_set banned r))) [
      | inl e ↦ inr (rw e (ground arith))
      | inr e ↦ rw e (first_free-free rmap banned rs)
    ]

last_that-has :
    (test : ℕ → Bool) (xs : List ℕ) (y : ℕ)
    → last_that test xs ≡ Option.some y
    → (has y xs ≡ true) × (test y ≡ true)
unfolding last_that has
last_that-has test [] y e = cc
last_that-has test (x ∷ xs) y e = ground (arith, last_that-has test xs y)

-- The register of a location, where it is one.
abbrev pub reg_number : RegLoc → ℕ
reg_number (in_reg r) = r
reg_number _ = 0

module _ (target : Target) (b : Builder) (scratch_regs : RegClass → List ℕ) where
  -- What placing the interval `i` does to the state.
  pub data Placed (st : State) (i : ℕ) (st' : State) : Type 0 where
    took :
        (reg : ℕ)
        → st.rmap reg ≡ unoccupied
        → ((r : ℕ) → ctrl_of b i ≡ force_reg r → reg ≡ r)
        → st' ≡ activate target b scratch_regs (alloc_reg target b scratch_regs st reg i) i reg
        → Placed st i st'
    spilled :
        is_forced (ctrl_of b i) ≡ false
        → st' ≡ spill_reg_loc target b scratch_regs st i
        → Placed st i st'
    stole :
        (v : ℕ)
        → has v st.active.list ≡ true
        → is_forced (ctrl_of b v) ≡ false
        → is_forced (ctrl_of b i) ≡ false
        → steal_reg target b scratch_regs st v i ≡ ok st'
        → Placed st i st'

  next_reg-cases :
      (st st' : State) (lreg reg : ℕ) (c : RegClass) (banned hint : ℕ)
      → next_reg target b scratch_regs st lreg c banned hint ≡ ok (reg, st')
      → ((reg ≡ reg_count) × (st' ≡ st))
        ⊎ ((reg ≢ reg_count)
            × (st.rmap reg ≡ unoccupied)
            × (st' ≡ alloc_reg target b scratch_regs st reg lreg))
  unfolding next_scratch_reg next_reg
  next_reg-cases st st' lreg reg c banned hint e =
      ground (arith, first_free-free st.rmap banned (scratch_regs c))

  -- What one round of the expiry loop changes.
  pub expire_effect :
      (i : ℕ) (st st' : State)
      → expire target b scratch_regs st i ≡ ok st'
      → (st.locs i ≡ in_reg (reg_number (st.locs i)))
        × (st'.active.list ≡ list_rm i st.active.list)
        × (st'.rmap ≡ update st.rmap (reg_number (st.locs i)) unoccupied)
        × (st'.locs ≡ st.locs)
        × (st'.used_callee_regs ≡ st.used_callee_regs)
        × (st'.stack_offset ≡ st.stack_offset)
        × (st'.handled.list ≡ list_add_by (start_of b) i st.handled.list)
  unfolding interval_list_add_by expire free_reg interval_list_rm
  expire_effect i st st' e = ground arith

  -- What taking the register of an active interval changes.
  pub steal_effect :
      (v i : ℕ) (st st' : State)
      → steal_reg target b scratch_regs st v i ≡ ok st'
      → (st.locs v ≡ in_reg (reg_number (st.locs v)))
        × (st'.active.list ≡ list_add_by (end_of b) i (list_rm v st.active.list))
        × (st'.rmap ≡ update st.rmap (reg_number (st.locs v)) i)
        × (st'.locs
            ≡ update
                (update st.locs i (in_reg (reg_number (st.locs v))))
                v
                (in_stack (neg_u32 st'.stack_offset)))
        × (st'.stack_offset ≡ (st.stack_offset + max_int_reg_size) % 2 ^ 32)
        × (st'.used_callee_regs ≡ st.used_callee_regs)
        × (st'.handled.list ≡ list_add_by (start_of b) v st.handled.list)
  unfolding steal_reg spill_reg_loc interval_list_rm interval_list_add_by
  steal_effect v i st st' e = ground arith

  place_forced-Placed :
      (st st' : State) (i reg : ℕ)
      → ctrl_of b i ≡ force_reg reg
      → place_forced target b scratch_regs st i reg ≡ ok st'
      → Placed st i st'
  unfolding place_forced
  place_forced-Placed st st' i reg c e = took reg (ground arith) (λ r d. cc) (ground arith)

  place_in_any-Placed :
      (st st' : State) (i mask : ℕ)
      → ctrl_of b i ≡ force_any_reg mask
      → place_in_any target b scratch_regs st i mask ≡ ok st'
      → Placed st i st'
  unfolding place_in_any
  place_in_any-Placed st st' i mask c e = go _ refl
    where
      go :
          (o : Outcome (ℕ × State))
          → next_reg target b scratch_regs st i (class_of b i) (u32_not mask) reg_count ≡ o
          → Placed st i st'
      go (ok (reg, mid)) q =
          elim (next_reg-cases st mid i reg (class_of b i) (u32_not mask) reg_count q) [
            | inl (z, same) ↦ absurd (ground (arith, q))
            | inr (ne, free, same) ↦ took reg free (λ r d. cc) (ground (arith, q))
          ]
      go failed q = absurd (ground (arith, q))
      go aborted q = absurd (ground (arith, q))

  place_or_spill-Placed :
      (st st' : State) (i mask : ℕ)
      → ctrl_of b i ≡ force_reg_or_spill mask
      → place_or_spill target b scratch_regs st i mask ≡ ok st'
      → Placed st i st'
  unfolding place_or_spill
  place_or_spill-Placed st st' i mask c e = go _ refl
    where
      go :
          (o : Outcome (ℕ × State))
          → next_reg target b scratch_regs st i (class_of b i) (u32_not mask) reg_count ≡ o
          → Placed st i st'
      go (ok (reg, mid)) q =
          elim (next_reg-cases st mid i reg (class_of b i) (u32_not mask) reg_count q) [
            | inl (z, same) ↦ spilled (rw c) (ground (arith, q))
            | inr (ne, free, same) ↦ took reg free (λ r d. cc) (ground (arith, q))
          ]
      go failed q = absurd (ground (arith, q))
      go aborted q = absurd (ground (arith, q))

  spill_latest-Placed :
      (st st' : State) (i banned : ℕ)
      → is_forced (ctrl_of b i) ≡ false
      → spill_latest target b scratch_regs st i banned ≡ ok st'
      → Placed st i st'
  unfolding spill_latest can_spill
  spill_latest-Placed st st' i banned f e = go _ refl
    where
      test : ℕ → Bool
      test = can_spill b st (class_of b i) banned

      go : (o : Option ℕ) → last_that test st.active.list ≡ o → Placed st i st'
      go Option.none q = spilled f (ground (arith, q))
      go (Option.some v) q =
          let (listed, passes) = last_that-has test st.active.list v q in
          elim (Bool-cases (ltb (end_of b i) (end_of b v))) [
            | inl longer ↦ stole v listed (ground arith) f (ground (arith, q))
            | inr shorter ↦ spilled f (ground (arith, q))
          ]

  take_free_reg-Placed :
      (st st' : State) (i banned : ℕ)
      → is_forced (ctrl_of b i) ≡ false
      → take_free_reg target b scratch_regs st i banned ≡ ok st'
      → Placed st i st'
  unfolding take_free_reg
  take_free_reg-Placed st st' i banned f e = hinted _ refl
    where
      go :
          (hint : ℕ) (o : Outcome (ℕ × State))
          → preg_hint target b scratch_regs st (ctrl_of b i) ≡ ok hint
          → next_reg target b scratch_regs st i (class_of b i) banned hint ≡ o
          → Placed st i st'
      go hint (ok (reg, mid)) h q =
          elim (next_reg-cases st mid i reg (class_of b i) banned hint q) [
            | inl (z, same) ↦ absurd (ground (arith, h, q))
            | inr (ne, free, same) ↦
                took reg free (λ r d. absurd (ground arith)) (ground (arith, h, q))
          ]
      go hint failed h q = absurd (ground (arith, h, q))
      go hint aborted h q = absurd (ground (arith, h, q))

      hinted :
          (o : Outcome ℕ) → preg_hint target b scratch_regs st (ctrl_of b i) ≡ o → Placed st i st'
      hinted (ok hint) h = go hint _ h refl
      hinted failed h = absurd (ground (arith, h))
      hinted aborted h = absurd (ground (arith, h))

  place_ordinary-Placed :
      (st st' : State) (i : ℕ) (later : List ℕ)
      → is_forced (ctrl_of b i) ≡ false
      → place_ordinary target b scratch_regs st i later ≡ ok st'
      → Placed st i st'
  unfolding place_ordinary
  place_ordinary-Placed st st' i later f e = go _ refl
    where
      go :
          (o : Outcome Bool)
          → out_of_regs target b scratch_regs st (class_of b i) ≡ o
          → Placed st i st'
      go (ok true) q =
          spill_latest-Placed st st' i (banned_by b (end_of b i) later 0) f (ground (arith, q))
      go (ok false) q =
          take_free_reg-Placed st st' i (banned_by b (end_of b i) later 0) f (ground (arith, q))
      go failed q = absurd (ground (arith, q))
      go aborted q = absurd (ground (arith, q))

  -- Whatever the interval's control, an interval that is placed takes a free register, or goes to
  -- the stack, or takes the register of an active interval that goes to the stack.
  pub place_by-Placed :
      (c : RegAllocControl) (st st' : State) (i : ℕ) (later : List ℕ)
      → ctrl_of b i ≡ c
      → place_by target b scratch_regs c st i later ≡ ok st'
      → Placed st i st'
  place_by-Placed none st st' i later c e = place_ordinary-Placed st st' i later (rw c) e
  place_by-Placed (force_reg reg) st st' i later c e = place_forced-Placed st st' i reg c e
  place_by-Placed (force_any_reg m) st st' i later c e = place_in_any-Placed st st' i m c e
  place_by-Placed (force_reg_or_spill m) st st' i later c e = place_or_spill-Placed st st' i m c e
  place_by-Placed (hint_lir_reg l) st st' i later c e =
      place_ordinary-Placed st st' i later (rw c) e
  place_by-Placed (hint_phys_reg r) st st' i later c e =
      place_ordinary-Placed st st' i later (rw c) e
