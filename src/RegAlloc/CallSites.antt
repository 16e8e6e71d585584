-- ===== src/RegAlloc/CallSites.antt =====
-- The registers that src/x64_gen/reg_alloc.c saves across each call, and its main function.
use nibble.Prelude.{
  ℕ, zero, suc, ◌+◌, ◌-◌, ◌%◌, ◌^◌, Bool, true, false, ◌&&◌, List, [], ◌∷◌, ltb, leb, ◌==◌,
  if◌then◌else◌,
}
use nibble.Prelude.Bits.{u32_set_bit}
use nibble.Regs.{RegClass, Target, is_caller_saved_reg}
use nibble.RegAlloc.Aliases.Forest.{find_alias_reg}
use nibble.RegAlloc.State.{
  RegLoc, in_reg, unassigned, Builder, State, IntervalList, unoccupied, Outcome, ok, aborted,
  assert, ◌>>=◌, ◌>>◌, start_of, end_of, interval_list_add_by,
}
use nibble.RegAlloc.Scan.{scan, drain}
use mathlib.Core.Option.{none, some}

-- ALIGN_UP(p, a) of a u32, for a power of two `a`: `& ~(a - 1)` clears the bits below `a`.
unfoldable pub align_up : ℕ → ℕ → ℕ
align_up p a = let q = (p + a - 1) % 2 ^ 32 in q - q % a

module _ (target : Target) (b : Builder) where
  -- The location test of the two scans: a register that the callee may overwrite.
  abbrev pub saved_reg : RegLoc → Bool
  saved_reg (in_reg r) = is_caller_saved_reg target r
  saved_reg _ = false

  -- The interval holds such a register across the call site.
  unfoldable pub intersects : (ℕ → RegLoc) → ℕ → ℕ → Bool
  intersects locs ino i = (ltb (start_of b i) ino && ltb ino (end_of b i)) && saved_reg (locs i)

  -- The first scan: the list from the interval at which it stops, and whether that one intersects.
  unfoldable pub first_intersecting : (ℕ → RegLoc) → ℕ → List ℕ → List ℕ × Bool
  unfolding intersects
  first_intersecting locs ino [] = ([], false)
  first_intersecting locs ino (i ∷ is) =
      if leb ino (start_of b i)
      then (i ∷ is, false)
      else if intersects locs ino i
      then (i ∷ is, true)
      else first_intersecting locs ino is

  abbrev pub add_reg : RegLoc → ℕ → ℕ
  add_reg (in_reg r) mask = u32_set_bit mask r
  add_reg _ mask = mask

  -- The second scan: the mask of the registers to save.
  unfoldable pub save_reg_mask : (ℕ → RegLoc) → ℕ → List ℕ → ℕ → ℕ
  unfolding intersects
  save_reg_mask locs ino [] mask = mask
  save_reg_mask locs ino (i ∷ is) mask =
      if leb ino (start_of b i)
      then mask
      else save_reg_mask locs ino is (if intersects locs ino i then add_reg (locs i) mask else mask)

  -- The loop over the call sites. The first scan goes on where it stopped at the site before.
  unfoldable pub save_reg_masks : (ℕ → RegLoc) → List ℕ → List ℕ → List ℕ
  unfolding first_intersecting save_reg_mask
  save_reg_masks locs [] it = []
  save_reg_masks locs (ino ∷ sites) it =
      let (it', found) = first_intersecting locs ino it in
      (if found then save_reg_mask locs ino it' 0 else 0) ∷ save_reg_masks locs sites it'

-- X64_RegAllocResult with what the allocator leaves in the intervals and the call instructions.
pub record RegAllocResult : Type 0 where
  pub stack_offset : ℕ
  pub used_callee_regs : ℕ
  pub locs : ℕ → RegLoc
  pub save_masks : List ℕ

abbrev pub no_intervals : IntervalList
no_intervals = record { list = []; count = 0; class_counts = λ c. 0 }

-- The state that the main loop begins with; X64_init_free_regs.
abbrev pub init_state : ℕ → State
init_state init_stack_offset = record {
  active = no_intervals;
  handled = no_intervals;
  rmap = λ r. unoccupied;
  locs = λ i. unassigned;
  stack_offset = init_stack_offset;
  used_callee_regs = 0;
}

-- The loop that fills the unhandled list, from the last index down, and counts its intervals.
unfoldable pub collect : Builder → ℕ → (ℕ → ℕ) → IntervalList → ℕ → Outcome (IntervalList × ℕ)
unfolding find_alias_reg
collect b zero aliases unhandled n = ok (unhandled, n)
collect b (suc i) aliases unhandled n = elim (find_alias_reg b.num_lreg_ranges aliases i) [
  | none ↦ aborted
  | some (r, aliases') ↦
      let root = r == i in
      collect b i aliases'
        (if root then interval_list_add_by b (start_of b) unhandled i else unhandled)
        (if root then n + 1 else n)
]

-- X64_linear_scan_reg_alloc
unfoldable pub linear_scan_reg_alloc :
    Target → Builder → (RegClass → List ℕ) → ℕ → Outcome RegAllocResult
unfolding collect scan drain save_reg_masks
linear_scan_reg_alloc target b scratch_regs init_stack_offset = do
  (unhandled, num_intervals) ← collect b b.num_lreg_ranges b.lreg_aliases no_intervals 0
  st ← scan target b scratch_regs unhandled.list (init_state init_stack_offset)
  end ← drain target b scratch_regs st.active.list st
  assert (num_intervals == end.handled.count)
  ok (record {
    stack_offset = align_up end.stack_offset 16;
    used_callee_regs = end.used_callee_regs;
    locs = end.locs;
    save_masks = save_reg_masks target b end.locs b.call_sites end.handled.list;
  })
