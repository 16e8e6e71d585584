-- ===== src/RegAlloc/Safety.antt =====
-- What src/x64_gen/reg_alloc.c promises to the code generator, of every run that succeeds.
use nibble.Prelude.{
  ℕ, ◌+◌, ◌*◌, ◌%◌, ◌^◌, ◌≤◌, ◌<◌, ◌≡◌, true, List, ◌≢◌, arith, get_elem?, some, ◌∙◌, sym,
}
use nibble.Prelude.Bits.{u32_is_bit_set}
use nibble.Regs.{RegClass, Target, is_callee_saved_reg, is_caller_saved_reg}
use nibble.RegAlloc.State.{
  in_reg, in_stack, Builder, unoccupied, ok, start_of, end_of, ctrl_of, force_reg,
}
use nibble.RegAlloc.Order.{IsAscending}
use nibble.RegAlloc.Scan.{is_forced}
use nibble.RegAlloc.CallSites.{linear_scan_reg_alloc, RegAllocResult, align_up, intersects}
use nibble.RegAlloc.Invariant.{Apart, is_in_reg}
use nibble.RegAlloc.Facts.{is_assigned, SlotsApart, depth}
use nibble.RegAlloc.Saves.{save_reg_masks-crosses, crosses-of_has, has-of_crosses}
use nibble.RegAlloc.Runs.{
  Run-of, scanned-Inv, scanned-Facts, handled_list, root-placed, placed-below, final-locs,
  final-offset, length-placed,
}

-- A virtual register that the allocator places: the root of its set of aliases.
abbrev pub IsRoot : Builder → ℕ → Type 0
IsRoot b l = (l < b.num_lreg_ranges) × (b.lreg_aliases l ≡ l)

-- If the allocator succeeds, two virtual registers (roots of the alias forest) that it puts into the
-- same physical register have live intervals that do not overlap, except at an end point. The number
-- of virtual registers is at most 0xFFFFFFFF, the mark of a free register.
pub linear_scan_reg_alloc-Apart :
    (target : Target) (b : Builder) (scratch_regs : RegClass → List ℕ) (init : ℕ)
    (res : RegAllocResult)
    → linear_scan_reg_alloc target b scratch_regs init ≡ ok res
    → b.num_lreg_ranges ≤ unoccupied
    → (l m r : ℕ) → IsRoot b l
    → IsRoot b m
    → l ≢ m
    → res.locs l ≡ in_reg r
    → res.locs m ≡ in_reg r
    → Apart b l m
linear_scan_reg_alloc-Apart target b regs init res e few l m r hl hm ne el em =
    let run = Run-of target b regs init res e in
    let (q, inv) = scanned-Inv target b regs run few in
    let (locs, callee) = final-locs target b regs run in
    inv.apart l m r (root-placed target b regs run l hl.0 hl.1)
      (root-placed target b regs run m hm.0 hm.1) ne (rw locs at el) (rw locs at em)

module _ (target : Target) (b : Builder) (scratch_regs : RegClass → List ℕ) (init : ℕ)
    (res : RegAllocResult) (succeeds : linear_scan_reg_alloc target b scratch_regs init ≡ ok res)
    (room : init + 8 * b.num_lreg_ranges + 15 < 2 ^ 32) where
  -- Every root has a register or a stack slot; one that is forced into a register has a register,
  -- and one that is forced into a given register has that one.
  pub linear_scan_reg_alloc-assigned :
      (l : ℕ)
      → IsRoot b l
      → (is_assigned (res.locs l) ≡ true)
        × (is_forced (ctrl_of b l) ≡ true → is_in_reg (res.locs l) ≡ true)
        × ((r : ℕ) → ctrl_of b l ≡ force_reg r → res.locs l ≡ in_reg r)
  linear_scan_reg_alloc-assigned l root =
      let run = Run-of target b scratch_regs init res succeeds in
      let facts = scanned-Facts target b scratch_regs run (omega arith) (omega arith) in
      let placed = root-placed target b scratch_regs run l root.0 root.1 in
      rw ((final-locs target b scratch_regs run).0)
        (facts.assigned l placed, facts.in_any l placed, λ r. facts.forced l r placed)

  -- A callee-saved register that holds a root is in the mask of the registers to restore.
  pub linear_scan_reg_alloc-callee :
      (l r : ℕ)
      → IsRoot b l
      → res.locs l ≡ in_reg r
      → is_callee_saved_reg target r ≡ true
      → u32_is_bit_set res.used_callee_regs r ≡ true
  linear_scan_reg_alloc-callee l r hl el saved =
      let run = Run-of target b scratch_regs init res succeeds in
      let facts = scanned-Facts target b scratch_regs run (omega arith) (omega arith) in
      let (locs, callee) = final-locs target b scratch_regs run in
      rw callee
        (facts.noted l r (root-placed target b scratch_regs run l hl.0 hl.1) (rw locs at el) saved)

-- Two roots on the stack have offsets that are negative as s32, and at these slots of eight bytes that do not
-- overlap, between the frame that the allocator was given and the frame that it returns, which is a multiple of 16
-- bytes. The frame given, with eight bytes for each virtual register and 15 more, is less than 2 ^ 31 bytes.
pub linear_scan_reg_alloc-slots :
    (target : Target) (b : Builder) (scratch_regs : RegClass → List ℕ) (init : ℕ)
    (res : RegAllocResult)
    → linear_scan_reg_alloc target b scratch_regs init ≡ ok res
    → init + 8 * b.num_lreg_ranges + 15 < 2 ^ 31
    → (l m o o' : ℕ) → IsRoot b l
    → IsRoot b m
    → l ≢ m
    → res.locs l ≡ in_stack o
    → res.locs m ≡ in_stack o'
    → (2 ^ 31 < o)
      × (o < 2 ^ 32)
      × SlotsApart o o'
      × (init + 8 ≤ depth o)
      × (depth o ≤ res.stack_offset)
      × (res.stack_offset % 16 ≡ 0)
unfolding align_up
linear_scan_reg_alloc-slots target b scratch_regs init res succeeds room l m o o' hl hm ne el em =
    let run = Run-of target b scratch_regs init res succeeds in
    let facts = scanned-Facts target b scratch_regs run (omega arith) (omega arith) in
    let (locs, callee) = final-locs target b scratch_regs run in
    let pl = root-placed target b scratch_regs run l hl.0 hl.1 in
    let pm = root-placed target b scratch_regs run m hm.0 hm.1 in
    let (low, high) = facts.slot l o pl (rw locs at el) in
    let frame = final-offset target b scratch_regs run in
    let few = length-placed target b scratch_regs run in
    (
      omega (arith, high, facts.growth),
      omega (arith, low),
      facts.slots_apart l m o o' pl pm ne (rw locs at el) (rw locs at em),
      low,
      omega (arith, frame, high, facts.growth),
      omega (arith, frame),
    )

-- The mask of a call site holds exactly the caller-saved registers that hold a value across it:
-- those of the intervals that begin before the site and end after it. The call sites are in order.
pub linear_scan_reg_alloc-saves :
    (target : Target) (b : Builder) (scratch_regs : RegClass → List ℕ) (init : ℕ)
    (res : RegAllocResult)
    → linear_scan_reg_alloc target b scratch_regs init ≡ ok res
    → IsAscending (λ s. s) 0 b.call_sites
    → (k mask site r : ℕ) → get_elem? res.save_masks k ≡ some mask
    → get_elem? b.call_sites k ≡ some site
    → ((l : ℕ)
        → IsRoot b l
        → res.locs l ≡ in_reg r
        → start_of b l < site
        → site < end_of b l
        → is_caller_saved_reg target r ≡ true
        → u32_is_bit_set mask r ≡ true)
      × (u32_is_bit_set mask r ≡ true
          → (l : ℕ) × (l < b.num_lreg_ranges)
            × (res.locs l ≡ in_reg r)
            × (start_of b l < site)
            × (site < end_of b l)
            × (is_caller_saved_reg target r ≡ true))
unfolding intersects
linear_scan_reg_alloc-saves target b regs init res e up k mask site r em es =
    let run = Run-of target b regs init res e in
    let (locs, callee) = final-locs target b regs run in
    let same = sym run.locs ∙ locs in
    let (into, outof, asc) = handled_list target b regs run in
    let (exact, low) =
      save_reg_masks-crosses target b run.drained.locs b.call_sites run.drained.handled.list 0 up
        asc k mask site r (rw run.masks at em) es in
    (
      λ l root el before after saved.
          let placed = into l (root-placed target b regs run l root.0 root.1) in
          let here = rw run.locs at el in
          exact
          ∙ crosses-of_has target b run.drained.locs r site l run.drained.handled.list placed
              (ground (arith, here)) here,
      λ set.
          let (l, h, x, el) =
            has-of_crosses target b run.drained.locs r site run.drained.handled.list
              (sym exact ∙ set) in
          (
            l,
            placed-below target b regs run l (outof l h),
            rw run.locs el,
            ground (arith, el),
            ground (arith, el),
            ground (arith, el),
          ),
    )
