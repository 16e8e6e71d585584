-- ===== src/Live/Shared.antt =====
-- The intervals of src/x64_gen/livevar.c in the hands of the allocator, src/x64_gen/reg_alloc.c.
use nibble.Prelude.{ℕ, ◌+◌, ◌≤◌, ◌<◌, ◌≡◌, ◌≢◌, ◌⊎◌, inl, inr, sym, ◌∙◌, subst, List, arith}
use nibble.Regs.{RegClass, Target}
use nibble.RegAlloc.State.{Builder, Outcome, ok, in_reg, unoccupied, start_of, end_of}
use nibble.RegAlloc.Aliases.Find.{RootOf, RootOf-root, RootOf-unique, IsForest}
use nibble.RegAlloc.CallSites.{RegAllocResult, linear_scan_reg_alloc}
use nibble.RegAlloc.Safety.{linear_scan_reg_alloc-Apart}
use nibble.Live.Instrs.{reg_none, instr_lregs}
use nibble.Live.Intervals.{NumberedInstr, compute_live_intervals}
use nibble.Live.Covers.{IsLreg}
use nibble.Live.Spans.{IsUntouched, NoneEmpty, Spans, all_instrs, compute_live_intervals-Spans}
use nibble.Live.Touches.{Among, Rising, HasLregs}

-- The interval of one register ends at a position, and that of the other starts there.
pub data HandsOver (b : Builder) (l m pos : ℕ) : Type 0 where
  hands_over : end_of b l ≡ pos → start_of b m ≡ pos → HandsOver b l m pos

covers-hand_over :
    (b : Builder) (l m pos : ℕ)
    → start_of b m ≤ pos
    → pos ≤ end_of b l
    → end_of b l ≤ start_of b m
    → HandsOver b l m pos
covers-hand_over b l m pos from to apart = hands_over (omega arith) (omega arith)

ok-injective : {a b : Builder} → ok a ≡ ok b → a ≡ b
ok-injective e = cc

-- The range of a known root at an instruction of its register
record At (b : Builder) (l pos : ℕ) : Type 0 where
  from : start_of b l ≤ pos
  to : pos ≤ end_of b l
  is_root : b.lreg_aliases l ≡ l

Spans-At :
    {b after : Builder} {lreg_rbp : ℕ} {instrs : List NumberedInstr} {o : Outcome Builder}
    (i : NumberedInstr) (x l : ℕ)
    → Spans b lreg_rbp instrs o
    → o ≡ ok after
    → Among i instrs
    → Among x (instr_lregs i.instr)
    → x ≢ reg_none
    → RootOf b.lreg_aliases x l
    → At after l (i.ino + 1)
Spans-At i x l s computed there among some_reg is_root =
    let c = s.covers i x there among some_reg in
    let root = s.roots x l is_root in
    let same : c.root ≡ l = RootOf-unique c.is_root root in
    subst (λ z. At z l (i.ino + 1)) (ok-injective (sym s.run ∙ computed))
      (record {
        from = subst (λ t. start_of s.after t ≤ i.ino + 1) same c.from;
        to = subst (λ t. i.ino + 1 ≤ end_of s.after t) same c.to;
        is_root = RootOf-root root;
      })

-- Two registers of one instruction, with different roots `l` and `m`, for which the allocator that runs after
-- compute_live_intervals chooses the same physical register, on less than 2 ^ 32 virtual registers and
-- under the conditions of compute_live_intervals: the interval of one of the roots ends at this instruction, and that
-- of the other starts at it.
pub compute_live_intervals-HandsOver :
    (target : Target) (scratch_regs : RegClass → List ℕ) (init : ℕ) (res : RegAllocResult)
    (sizes : ℕ → ℕ) (b after : Builder) (lreg_rbp : ℕ) (bblocks : List (List NumberedInstr))
    (i : NumberedInstr) (x y l m r : ℕ)
    → IsForest b.num_regs b.lreg_aliases sizes
    → IsUntouched b
    → NoneEmpty bblocks
    → Rising 0 (all_instrs bblocks)
    → HasLregs b (all_instrs bblocks)
    → IsLreg b lreg_rbp
    → compute_live_intervals b lreg_rbp bblocks ≡ ok after
    → linear_scan_reg_alloc target after scratch_regs init ≡ ok res
    → after.num_lreg_ranges ≤ unoccupied
    → Among i (all_instrs bblocks)
    → Among x (instr_lregs i.instr)
    → Among y (instr_lregs i.instr)
    → x ≢ reg_none
    → y ≢ reg_none
    → RootOf b.lreg_aliases x l
    → RootOf b.lreg_aliases y m
    → l < after.num_lreg_ranges
    → m < after.num_lreg_ranges
    → l ≢ m
    → res.locs l ≡ in_reg r
    → res.locs m ≡ in_reg r
    → HandsOver after l m (i.ino + 1) ⊎ HandsOver after m l (i.ino + 1)
compute_live_intervals-HandsOver target scratch_regs init res sizes b after lreg_rbp bblocks i x y l
      m r forest untouched full rising lregs rbp_valid computed succeeds few there x_among y_among
      x_some y_some x_root y_root l_lt m_lt differ at_l at_m =
    let s =
      compute_live_intervals-Spans sizes b lreg_rbp bblocks forest untouched full rising lregs
        rbp_valid in
    let at_x = Spans-At i x l s computed there x_among x_some x_root in
    let at_y = Spans-At i y m s computed there y_among y_some y_root in
    let pos = i.ino + 1 in
    elim (linear_scan_reg_alloc-Apart target after scratch_regs init res succeeds few l m r
      (l_lt, at_x.is_root) (m_lt, at_y.is_root) differ at_l at_m) [
        | inl l_first ↦ inl (covers-hand_over after l m pos at_y.from at_x.to l_first)
        | inr m_first ↦ inr (covers-hand_over after m l pos at_x.from at_y.to m_first)
      ]
