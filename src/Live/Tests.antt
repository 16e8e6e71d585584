-- ===== src/Live/Tests.antt =====
-- The intervals of a small procedure, and witnesses of the theorems about them.
use nibble.Prelude.{ℕ, zero, suc, ◌≡◌, ◌⊎◌, inl, inr, refl, List, [], ◌∷◌, arith}
use nibble.Regs.{
  RegClass, int_class, float_class, rbp, r10, r12, linux_target, reg_classes, is_caller_saved_reg,
}
use nibble.Prelude.Bits.{u32_set_bit, u32_is_bit_set}
use nibble.RegAlloc.State.{
  RegRange, RegAllocControl, none, force_reg, Builder, Outcome, ok, failed, aborted, in_reg,
  unassigned, list_rm, list_add_by, belongs_at_end, add_before_later, interval_list_rm,
  interval_list_add_by,
}
use nibble.RegAlloc.Aliases.Forest.{find_alias_reg}
use nibble.RegAlloc.Aliases.Find.{RootOf, IsForest}
use nibble.RegAlloc.Scan.{place, expire_old, expire, place_forced, place_ordinary}
use nibble.RegAlloc.CallSites.{RegAllocResult, linear_scan_reg_alloc}
use nibble.Live.Instrs.{Instr, mov_r_i, mov_r_r, ret, reg_none, instr_lregs}
use nibble.Live.Intervals.{
  NumberedInstr, touch_range, touch_root, touch_lreg, touch_lregs, compute_bblock_live_intervals,
  compute_live_intervals,
}
use nibble.Live.Covers.{IsLreg}
use nibble.Live.Spans.{IsUntouched, Spans, all_instrs, compute_live_intervals-Spans}
use nibble.Live.Touches.{Among, first, later}
use nibble.Live.Shared.{HandsOver, compute_live_intervals-HandsOver}

abbrev at : ℕ → Instr → NumberedInstr
at ino instr = record { ino = ino; instr = instr }

-- Register 0 is forced into RBP; 1 is set, moved to 2, and 2 is returned.
abbrev procedure : List (List NumberedInstr)
procedure = (at 0 (mov_r_i 1) ∷ at 1 (mov_r_r 2 1) ∷ []) ∷ (at 2 (ret 2 reg_none) ∷ []) ∷ []

abbrev new_range : RegAllocControl → RegRange
new_range ctrl = record { start = 0; end = 0; reg_class = int_class; ra_ctrl = ctrl }

abbrev fresh : Builder
fresh = record {
  num_lreg_ranges = 3;
  lreg_ranges = λ l. elim l [ zero ↦ new_range (force_reg rbp) | suc l ↦ new_range none ];
  lreg_aliases = λ l. l;
  num_regs = 3;
  call_sites = [];
}

abbrev builder_of : Outcome Builder → Builder
builder_of (ok b) = b
builder_of failed = fresh
builder_of aborted = fresh

abbrev touched : Builder
touched = builder_of (compute_live_intervals fresh 0 procedure)

runs : compute_live_intervals fresh 0 procedure ≡ ok touched
unfolding compute_live_intervals compute_bblock_live_intervals touch_range touch_root touch_lreg
    touch_lregs instr_lregs find_alias_reg
runs = refl

one_to_two :
    ((touched.lreg_ranges 1).start ≡ 1)
    × ((touched.lreg_ranges 1).end ≡ 2)
    × ((touched.lreg_ranges 2).end ≡ 3)
unfolding compute_live_intervals compute_bblock_live_intervals touch_range touch_root touch_lreg
    touch_lregs instr_lregs find_alias_reg
one_to_two = (refl, refl, refl)

fresh-IsForest : IsForest 3 (λ l. l) (λ l. 1)
fresh-IsForest = record { links = λ i. inl refl; bounded = λ i. omega arith }

fresh_starts : (t : ℕ) → (fresh.lreg_ranges t).start ≡ 0
fresh_starts zero = refl
fresh_starts (suc t) = refl

fresh_ends : (t : ℕ) → (fresh.lreg_ranges t).end ≡ 0
fresh_ends zero = refl
fresh_ends (suc t) = refl

fresh-IsUntouched : IsUntouched fresh
fresh-IsUntouched = record { starts = fresh_starts; ends = fresh_ends }

abbrev flat : List NumberedInstr
flat = at 0 (mov_r_i 1) ∷ at 1 (mov_r_r 2 1) ∷ at 2 (ret 2 reg_none) ∷ []

flat_valid :
    (i : NumberedInstr) (lreg : ℕ)
    → Among i flat
    → Among lreg (instr_lregs i.instr)
    → IsLreg fresh lreg
unfolding instr_lregs
flat_valid i lreg first first = inr (omega arith)
flat_valid i lreg first (later h) = elim h [ ]
flat_valid i lreg (later first) first = inr (omega arith)
flat_valid i lreg (later first) (later first) = inr (omega arith)
flat_valid i lreg (later first) (later (later h)) = elim h [ ]
flat_valid i lreg (later (later first)) first = inr (omega arith)
flat_valid i lreg (later (later first)) (later h) = elim h [ ]
flat_valid i lreg (later (later (later t))) h = elim t [ ]

compute_live_intervals-Spans_example :
    Spans fresh 0 (all_instrs procedure) (compute_live_intervals fresh 0 procedure)
unfolding all_instrs
compute_live_intervals-Spans_example =
    compute_live_intervals-Spans (λ l. 1) fresh 0 procedure fresh-IsForest fresh-IsUntouched tt
      (omega arith) (record { valid = flat_valid }) (inr (omega arith))

abbrev scratch : RegClass → List ℕ
scratch int_class = r12 ∷ r10 ∷ []
scratch float_class = []

abbrev no_result : RegAllocResult
no_result = record {
  stack_offset = 0;
  used_callee_regs = 0;
  locs = λ l. unassigned;
  save_masks = [];
}

abbrev result_of : Outcome RegAllocResult → RegAllocResult
result_of (ok res) = res
result_of failed = no_result
result_of aborted = no_result

abbrev result : RegAllocResult
result = result_of (linear_scan_reg_alloc linux_target touched scratch 0)

allocates :
    (linear_scan_reg_alloc linux_target touched scratch 0 ≡ ok result)
    × (result.locs 1 ≡ in_reg r12)
    × (result.locs 2 ≡ in_reg r12)
unfolding linear_scan_reg_alloc interval_list_rm interval_list_add_by list_rm list_add_by
    belongs_at_end add_before_later place expire_old expire place_forced place_ordinary
    u32_is_bit_set reg_classes is_caller_saved_reg u32_set_bit compute_live_intervals
    compute_bblock_live_intervals touch_range touch_root touch_lreg touch_lregs instr_lregs
    find_alias_reg
allocates = (refl, refl, refl)

compute_live_intervals-HandsOver_example : HandsOver touched 1 2 2 ⊎ HandsOver touched 2 1 2
unfolding all_instrs instr_lregs compute_live_intervals compute_bblock_live_intervals touch_range
    touch_root touch_lreg touch_lregs find_alias_reg
compute_live_intervals-HandsOver_example =
    compute_live_intervals-HandsOver linux_target scratch 0 result (λ l. 1) fresh touched 0
      procedure (at 1 (mov_r_r 2 1)) 1 2 1 2 r12 fresh-IsForest fresh-IsUntouched tt (omega arith)
      (record { valid = flat_valid }) (inr (omega arith)) runs allocates.0 (omega arith)
      (later first) first (later first) (λ e. omega arith) (λ e. omega arith) (RootOf.at refl)
      (RootOf.at refl) (omega arith) (omega arith) (λ e. omega arith) allocates.1 allocates.2
