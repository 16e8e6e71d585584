-- ===== src/Live/Intervals.antt =====
-- XIR_touch_lreg and XIR_compute_live_intervals of src/x64_gen/livevar.c.
--
-- As in the allocator, a position is the source's number of an instruction plus one, and a range that
-- was never touched starts at 0. Path halving in the alias forest may change its links.
use nibble.Prelude.{ℕ, ◌+◌, List, [], ◌∷◌, update, ltb, leb, ◌==◌, if◌then◌else◌}
use nibble.RegAlloc.State.{RegRange, Builder, Outcome, ok, assert, ◌>>=◌, ◌>>◌}
use nibble.RegAlloc.Aliases.Forest.{find_alias_reg, found}
use nibble.Live.Instrs.{reg_none, Instr, instr_lregs}

-- The range of a register that is touched at a position, or the assertion that it ends no later
unfoldable pub touch_range : RegRange → ℕ → Outcome RegRange
touch_range range pos =
    if range.start == 0
    then ok (record range { start = pos; end = pos })
    else (assert (leb range.end pos) >> ok (record range { end = pos }))

unfoldable pub touch_root : Builder → ℕ → ℕ × (ℕ → ℕ) → Outcome Builder
unfolding touch_range
touch_root b pos (root, roots) = do
  range ← touch_range (b.lreg_ranges root) pos
  ok (record b { lreg_ranges = update b.lreg_ranges root range; lreg_aliases = roots })

-- XIR_touch_lreg
unfoldable pub touch_lreg : Builder → ℕ → ℕ → Outcome Builder
unfolding touch_root find_alias_reg
touch_lreg b lreg pos =
    if lreg == reg_none
    then ok b
    else (assert (ltb lreg b.num_regs)
        >> (found (find_alias_reg b.num_regs b.lreg_aliases lreg) >>= touch_root b pos))

unfoldable pub touch_lregs : Builder → List ℕ → ℕ → Outcome Builder
unfolding touch_lreg
touch_lregs b [] pos = ok b
touch_lregs b (lreg ∷ lregs) pos = touch_lreg b lreg pos >>= λ b'. touch_lregs b' lregs pos

-- An instruction with its number
pub record NumberedInstr : Type 0 where
  pub ino : ℕ
  pub instr : Instr

pub record BblockResult : Type 0 where
  pub builder : Builder
  pub last : ℕ

-- XIR_compute_bblock_live_intervals, with the number of the last instruction so far
unfoldable pub compute_bblock_live_intervals :
    Builder → ℕ → List NumberedInstr → Outcome BblockResult
unfolding touch_lregs instr_lregs
compute_bblock_live_intervals b last [] = ok (record { builder = b; last = last })
compute_bblock_live_intervals b last (i ∷ instrs) =
    touch_lregs b (instr_lregs i.instr) (i.ino + 1) >>= λ b'.
    compute_bblock_live_intervals b' i.ino instrs

unfoldable pub compute_bblocks : Builder → ℕ → List (List NumberedInstr) → Outcome BblockResult
unfolding compute_bblock_live_intervals
compute_bblocks b last [] = ok (record { builder = b; last = last })
compute_bblocks b last (bblock ∷ bblocks) =
    compute_bblock_live_intervals b 0 bblock >>= λ r. compute_bblocks r.builder r.last bblocks

-- XIR_compute_live_intervals
unfoldable pub compute_live_intervals : Builder → ℕ → List (List NumberedInstr) → Outcome Builder
unfolding compute_bblocks touch_lreg
compute_live_intervals b lreg_rbp bblocks =
    compute_bblocks b 0 bblocks >>= λ r. touch_lreg r.builder lreg_rbp (r.last + 1)
