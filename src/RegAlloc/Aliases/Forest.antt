-- ===== src/RegAlloc/Aliases/Forest.antt =====
-- The operations on the alias forest of src/x64_gen/ir_to_xir.c.
use nibble.Prelude.{
  update, ℕ, zero, suc, ◌+◌, Bool, true, false, ◌==◌, Option, none, some, ltb, if◌then◌else◌,
}
use nibble.RegAlloc.State.{
  RegRange, RegAllocControl, hint_lir_reg, hint_phys_reg, Outcome, ok, aborted, assert, ◌>>=◌, ◌>>◌,
}

-- XIR_find_alias_reg: the root and the array after path halving. `none` means that the fuel, a bound
-- on the rounds of the loop, ran out.
unfoldable pub find_alias_reg : ℕ → (ℕ → ℕ) → ℕ → Option (ℕ × (ℕ → ℕ))
find_alias_reg zero roots r = elim (roots r == r) [ true ↦ some (r, roots) | false ↦ none ]
find_alias_reg (suc fuel) roots r = elim (roots r == r) [
  | true ↦ some (r, roots)
  | false ↦ find_alias_reg fuel (update roots r (roots (roots r))) (roots r)
]

-- The arrays of XIR_Builder that an alias changes.
pub record Aliases : Type 0 where
  pub roots : ℕ → ℕ
  pub sizes : ℕ → ℕ
  pub ranges : ℕ → RegRange

-- XIR_merge_ranges
abbrev pub takes_ctrl : RegAllocControl → Bool
takes_ctrl RegAllocControl.none = true
takes_ctrl (hint_lir_reg l) = true
takes_ctrl (hint_phys_reg r) = true
takes_ctrl _ = false

abbrev pub merge_ctrl : RegAllocControl → RegAllocControl → Outcome RegAllocControl
merge_ctrl dst RegAllocControl.none = ok dst
merge_ctrl dst src = assert (takes_ctrl dst) >> ok src

unfoldable pub merge_ranges : RegRange → RegRange → Outcome RegRange
merge_ranges dst src = do
  ctrl ← merge_ctrl dst.ra_ctrl src.ra_ctrl
  ok (record dst { ra_ctrl = ctrl })

abbrev pub found : Option (ℕ × (ℕ → ℕ)) → Outcome (ℕ × (ℕ → ℕ))
found (some p) = ok p
found none = aborted

-- The branch of XIR_alias_regs that hangs the root `child` under the root `parent`.
unfoldable pub link : Aliases → ℕ → ℕ → Outcome Aliases
unfolding merge_ranges
link a parent child = do
  range ← merge_ranges (a.ranges parent) (a.ranges child)
  ok (record {
    roots = update a.roots child parent;
    sizes = update a.sizes parent (a.sizes parent + a.sizes child);
    ranges = update a.ranges parent range;
  })

-- XIR_alias_regs behind the two searches: the smaller set goes under the root of the larger.
unfoldable pub join : Aliases → ℕ → ℕ → Outcome Aliases
unfolding link
join a root_u root_v =
    if root_u == root_v
    then ok a
    else if ltb (a.sizes root_v) (a.sizes root_u)
    then link a root_u root_v
    else link a root_v root_u

-- XIR_alias_regs
unfoldable pub alias_regs : ℕ → Aliases → ℕ → ℕ → Outcome Aliases
unfolding find_alias_reg join
alias_regs fuel a u v = do
  (root_u, roots_u) ← found (find_alias_reg fuel a.roots u)
  (root_v, roots_v) ← found (find_alias_reg fuel roots_u v)
  join (record a { roots = roots_v }) root_u root_v
