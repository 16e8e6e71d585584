-- ===== src/RegAlloc/Invariant/Defs.antt =====
-- The invariant over the parts of the state that it speaks of, and what each kind of change to
-- these parts does to it.
use nibble.Prelude.{ℕ, ◌≤◌, ◌<◌, ◌≡◌, Bool, true, false, List, ◌⊎◌, ◌≢◌}
use nibble.RegAlloc.State.{RegLoc, in_reg, Builder, unoccupied, start_of, end_of}
use nibble.RegAlloc.Order.{has, IsDistinct}

abbrev pub is_in_reg : RegLoc → Bool
is_in_reg (in_reg r) = true
is_in_reg _ = false

-- Two intervals do not overlap, except at an end point.
abbrev pub Apart : Builder → ℕ → ℕ → Type 0
Apart b l m = (end_of b l ≤ start_of b m) ⊎ (end_of b m ≤ start_of b l)

-- `done` are the intervals that the loop has placed, and none of the others begins before `p`.
pub record Inv (b : Builder) (done : List ℕ) (p : ℕ) (active : List ℕ) (rmap : ℕ → ℕ)
    (locs : ℕ → RegLoc) : Type 0 where
  pub distinct : IsDistinct active
  pub known : (l : ℕ) → has l active ≡ true → has l done ≡ true
  pub small : (l : ℕ) → has l done ≡ true → l < unoccupied
  -- an active interval holds a register, which the map knows
  pub located : (l : ℕ) → has l active ≡ true → is_in_reg (locs l) ≡ true
  pub held : (l r : ℕ) → has l active ≡ true → locs l ≡ in_reg r → rmap r ≡ l
  -- one that holds a register and is not active has ended
  pub past :
      (l r : ℕ) → has l done ≡ true → locs l ≡ in_reg r → has l active ≡ false → end_of b l ≤ p
  pub apart :
      (l m r : ℕ)
      → has l done ≡ true
      → has m done ≡ true
      → l ≢ m
      → locs l ≡ in_reg r
      → locs m ≡ in_reg r
      → Apart b l m
