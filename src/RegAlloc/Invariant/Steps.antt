-- ===== src/RegAlloc/Invariant/Steps.antt =====
-- What each kind of change to the state does to the invariant.
use nibble.Prelude.{
  update, ℕ, ◌≤◌, ◌<◌, ◌≡◌, true, false, not, ◌&&◌, ◌||◌, List, ◌∷◌, inl, inr, ◌≢◌, ◌==◌, arith,
  Bool-cases,
}
use nibble.RegAlloc.State.{RegLoc, in_reg, in_stack, Builder, unoccupied, start_of, end_of, list_rm}
use nibble.RegAlloc.Order.{has, IsDistinct, has-list_rm, IsDistinct-list_rm}
use nibble.RegAlloc.Invariant.Defs.{Inv}

module _ {b : Builder} {done : List ℕ} {p : ℕ} {active : List ℕ} {rmap : ℕ → ℕ} {locs : ℕ → RegLoc}
    (inv : Inv b done p active rmap locs) where
  -- The loop goes on to a later interval.
  pub later-Inv : (q : ℕ) → p ≤ q → Inv b done q active rmap locs
  later-Inv q h = record {
    distinct = inv.distinct;
    known = inv.known;
    small = inv.small;
    located = inv.located;
    held = inv.held;
    past = λ l r d e n. omega (arith, inv.past l r d e n);
    apart = inv.apart;
  }

  -- An active interval that has ended gives its register back.
  pub free-Inv :
      (i reg : ℕ)
      → has i active ≡ true
      → locs i ≡ in_reg reg
      → end_of b i ≤ p
      → Inv b done p (list_rm i active) (update rmap reg unoccupied) locs
  free-Inv i reg h e ended = record {
    distinct = IsDistinct-list_rm i active inv.distinct;
    known = λ l a. ground (arith, has-list_rm l i active, inv.known l);
    small = inv.small;
    located = λ l a. inv.located l (ground (arith, has-list_rm l i active));
    held = λ l r a le. ground (arith, has-list_rm l i active, inv.held l r, inv.held i reg h e);
    past = λ l r d le n. ground (arith, has-list_rm l i active, inv.past l r d le);
    apart = inv.apart;
  }

  module _ (x : ℕ) (fresh : has x done ≡ false) (fits : x < unoccupied) where
    not_done : (l : ℕ) → has l done ≡ true → x ≢ l
    not_done l d = ground arith

    -- A new interval goes to the stack.
    pub spill-Inv : (o : ℕ) → Inv b (x ∷ done) p active rmap (update locs x (in_stack o))
    unfolding has
    spill-Inv o = record {
      distinct = inv.distinct;
      known = λ l a. ground (arith, inv.known l);
      small = λ l d. ground (arith, inv.small l);
      located = λ l a. ground (arith, inv.known l a, inv.located l a);
      held = λ l r a e. ground (arith, inv.known l a, inv.held l r a);
      past = λ l r d e n. ground (arith, inv.past l r);
      apart = λ l m r dl dm ne el em. ground (arith, inv.apart l m r);
    }

    module _ (active' : List ℕ) (distinct' : IsDistinct active') (begins : p ≤ start_of b x) where
      -- Whatever else has held the register ended before the new interval.
      ended_of_free :
          (reg m : ℕ)
          → rmap reg ≡ unoccupied
          → has m done ≡ true
          → locs m ≡ in_reg reg
          → end_of b m ≤ start_of b x
      ended_of_free reg m free d e = elim (Bool-cases (has m active)) [
        | inl a ↦ absurd (omega (arith, inv.held m reg a e, inv.small m d))
        | inr n ↦ omega (arith, inv.past m reg d e n)
      ]

      -- A new interval takes a register that is not occupied.
      pub take-Inv :
          (reg : ℕ)
          → ((l : ℕ) → has l active' ≡ (x == l || has l active))
          → rmap reg ≡ unoccupied
          → Inv b (x ∷ done) p active' (update rmap reg x) (update locs x (in_reg reg))
      unfolding has
      take-Inv reg mem free = record {
        distinct = distinct';
        known = λ l a. ground (arith, mem l, inv.known l);
        small = λ l d. ground (arith, inv.small l);
        located = λ l a. ground (arith, mem l, inv.located l);
        held = λ l r a e. ground (arith, mem l, inv.known l, inv.held l r, inv.small l);
        past = λ l r d e n. ground (arith, mem l, inv.past l r);
        apart = λ l m r dl dm ne el em.
            ground (arith, ended_of_free reg l free, ended_of_free reg m free, inv.apart l m r);
      }

      ended_of_held :
          (v reg m : ℕ)
          → has v active ≡ true
          → locs v ≡ in_reg reg
          → has m done ≡ true
          → locs m ≡ in_reg reg
          → v ≢ m
          → end_of b m ≤ start_of b x
      ended_of_held v reg m va ve d e ne = elim (Bool-cases (has m active)) [
        | inl a ↦ absurd (omega (arith, inv.held m reg a e, inv.held v reg va ve))
        | inr n ↦ omega (arith, inv.past m reg d e n)
      ]

      -- A new interval takes the register of an active one, which goes to the stack.
      pub steal-Inv :
          (v reg o : ℕ)
          → ((l : ℕ) → has l active' ≡ (x == l || (not (v == l) && has l active)))
          → has v active ≡ true
          → locs v ≡ in_reg reg
          → Inv b
              (x ∷ done)
              p
              active'
              (update rmap reg x)
              (update (update locs x (in_reg reg)) v (in_stack o))
      unfolding has
      steal-Inv v reg o mem va ve = record {
        distinct = distinct';
        known = λ l a. ground (arith, mem l, inv.known l);
        small = λ l d. ground (arith, inv.small l);
        located = λ l a. ground (arith, mem l, inv.located l, inv.known v);
        held = λ l r a e.
            ground (arith, mem l, inv.known l, inv.held l r, inv.held v reg va ve, inv.known v);
        past = λ l r d e n. ground (arith, mem l, inv.past l r);
        apart = λ l m r dl dm ne el em.
            ground
              (arith, ended_of_held v reg l va ve, ended_of_held v reg m va ve, inv.apart l m r);
      }
