-- ===== src/RegAlloc/Tests.antt =====
-- Runs of the allocator of src/x64_gen/reg_alloc.c on small procedures, and its theorems at them.
use nibble.Prelude.{
  ◌^◌, ℕ, zero, suc, ◌+◌, ◌%◌, ap, inl, inr, ◌||◌, ◌==◌, if◌then◌else◌, ◌≤◌, ◌<◌, ◌≡◌, refl, List,
  [], ◌∷◌, ◌⊎◌, arith, get_or, some, true, get_elem?,
}
use nibble.Prelude.Bits.{u32_is_bit_set, u32_set_bit}
use nibble.Regs.{
  RegClass, int_class, float_class, r10, r11, r12, rbp, linux_target, is_callee_saved_reg,
  is_caller_saved_reg, reg_classes,
}
use nibble.RegAlloc.State.{
  RegRange, RegAllocControl, none, force_reg, Builder, ctrl_of, start_of, end_of, in_reg, in_stack,
  neg_u32, unassigned, Outcome, ok, list_rm, list_add_by, belongs_at_end, add_before_later,
  interval_list_rm, interval_list_add_by,
}
use nibble.RegAlloc.CallSites.{linear_scan_reg_alloc, RegAllocResult}
use nibble.RegAlloc.Scan.{place, expire_old, expire, place_forced, place_ordinary, is_forced}
use nibble.RegAlloc.Aliases.Forest.{find_alias_reg, Aliases, alias_regs}
use nibble.RegAlloc.Aliases.Find.{RootOf, at, up, IsForest, find_alias_reg-RootOf}
use nibble.RegAlloc.Aliases.Union.{alias_regs-RootOf}
use nibble.RegAlloc.Invariant.{Apart, is_in_reg}
use nibble.RegAlloc.Facts.{is_assigned, SlotsApart, depth}
use nibble.RegAlloc.Safety.{
  IsRoot, linear_scan_reg_alloc-Apart, linear_scan_reg_alloc-assigned, linear_scan_reg_alloc-slots,
  linear_scan_reg_alloc-callee, linear_scan_reg_alloc-saves,
}

abbrev range : ℕ → ℕ → RegAllocControl → RegRange
range start end ctrl = record { start = start; end = end; reg_class = int_class; ra_ctrl = ctrl }

abbrev no_range : RegRange
no_range = range 0 0 none

-- Five registers: the frame pointer, three that overlap, and one behind two of these.
abbrev crowded : Builder
crowded = record {
  num_lreg_ranges = 5;
  lreg_ranges = λ l.
      get_or
        (range 1 20 (force_reg rbp)
          ∷ range 2 15 none
          ∷ range 3 9 none
          ∷ range 4 7 none
          ∷ range 10 14 none
          ∷ [])
        l no_range;
  lreg_aliases = λ l. l;
  num_regs = 5;
  call_sites = 5 ∷ 12 ∷ [];
}

abbrev scratch : List ℕ → RegClass → List ℕ
scratch regs int_class = regs
scratch regs float_class = []

abbrev run : List ℕ → Outcome RegAllocResult
run regs = linear_scan_reg_alloc linux_target crowded (scratch regs) 24

abbrev no_result : RegAllocResult
no_result = record {
  stack_offset = 0;
  used_callee_regs = 0;
  locs = λ l. unassigned;
  save_masks = [];
}

abbrev result_of : Outcome RegAllocResult → RegAllocResult
result_of (ok res) = res
result_of _ = no_result

abbrev three : List ℕ
three = r12 ∷ r10 ∷ r11 ∷ []

abbrev two : List ℕ
two = r12 ∷ r10 ∷ []

-- With three registers the fourth interval takes the register of the one that ends last, which goes
-- to the stack; the fifth takes it again.
one_spilled : run three ≡ ok (result_of (run three))
unfolding linear_scan_reg_alloc interval_list_rm interval_list_add_by list_rm list_add_by
    belongs_at_end add_before_later place expire_old expire place_forced place_ordinary
    u32_is_bit_set reg_classes is_caller_saved_reg u32_set_bit
one_spilled = refl

one_spilled_locs :
    ((result_of (run three)).locs 1 ≡ in_stack (neg_u32 32))
    × ((result_of (run three)).locs 3 ≡ in_reg r12)
    × ((result_of (run three)).locs 4 ≡ in_reg r12)
    × ((result_of (run three)).save_masks ≡ 0x400 ∷ 0 ∷ [])
unfolding linear_scan_reg_alloc interval_list_rm interval_list_add_by list_rm list_add_by
    belongs_at_end add_before_later place expire_old expire place_forced place_ordinary
    u32_is_bit_set reg_classes is_caller_saved_reg u32_set_bit
one_spilled_locs = (refl, refl, refl, refl)

-- With two registers two of the intervals go to the stack.
both_spilled : run two ≡ ok (result_of (run two))
unfolding linear_scan_reg_alloc interval_list_rm interval_list_add_by list_rm list_add_by
    belongs_at_end add_before_later place expire_old expire place_forced place_ordinary
    u32_is_bit_set reg_classes is_caller_saved_reg u32_set_bit
both_spilled = refl

both_spilled_locs :
    ((result_of (run two)).locs 1 ≡ in_stack (neg_u32 32))
    × ((result_of (run two)).locs 2 ≡ in_stack (neg_u32 40))
unfolding linear_scan_reg_alloc interval_list_rm interval_list_add_by list_rm list_add_by
    belongs_at_end add_before_later place expire_old expire place_forced place_ordinary
    u32_is_bit_set reg_classes is_caller_saved_reg u32_set_bit
both_spilled_locs = (refl, refl)

r12_callee_saved : is_callee_saved_reg linux_target r12 ≡ true
unfolding is_callee_saved_reg u32_is_bit_set
r12_callee_saved = refl

linear_scan_reg_alloc-Apart_example : Apart crowded 3 4
linear_scan_reg_alloc-Apart_example =
    linear_scan_reg_alloc-Apart linux_target crowded (scratch three) 24 (result_of (run three))
      one_spilled (omega arith) 3 4 r12 (omega arith, refl) (omega arith, refl) (omega arith)
      one_spilled_locs.1 one_spilled_locs.2

linear_scan_reg_alloc-assigned_example :
    (is_assigned ((result_of (run two)).locs 0) ≡ true)
    × (is_forced (ctrl_of crowded 0) ≡ true → is_in_reg ((result_of (run two)).locs 0) ≡ true)
    × ((r : ℕ) → ctrl_of crowded 0 ≡ force_reg r → (result_of (run two)).locs 0 ≡ in_reg r)
linear_scan_reg_alloc-assigned_example =
    linear_scan_reg_alloc-assigned linux_target crowded (scratch two) 24 (result_of (run two))
      both_spilled (omega arith) 0 (omega arith, refl)

linear_scan_reg_alloc-slots_example :
    (2 ^ 31 < neg_u32 32)
    × (neg_u32 32 < 2 ^ 32)
    × SlotsApart (neg_u32 32) (neg_u32 40)
    × (24 + 8 ≤ depth (neg_u32 32))
    × (depth (neg_u32 32) ≤ (result_of (run two)).stack_offset)
    × ((result_of (run two)).stack_offset % 16 ≡ 0)
linear_scan_reg_alloc-slots_example =
    linear_scan_reg_alloc-slots linux_target crowded (scratch two) 24 (result_of (run two))
      both_spilled (omega arith) 1 2 (neg_u32 32) (neg_u32 40) (omega arith, refl)
      (omega arith, refl) (omega arith) both_spilled_locs.0 both_spilled_locs.1

linear_scan_reg_alloc-callee_example :
    u32_is_bit_set (result_of (run three)).used_callee_regs r12 ≡ true
linear_scan_reg_alloc-callee_example =
    linear_scan_reg_alloc-callee linux_target crowded (scratch three) 24 (result_of (run three))
      one_spilled (omega arith) 3 r12 (omega arith, refl) one_spilled_locs.1 r12_callee_saved

linear_scan_reg_alloc-saves_example :
    ((l : ℕ)
      → IsRoot crowded l
      → (result_of (run three)).locs l ≡ in_reg r10
      → start_of crowded l < 5
      → 5 < end_of crowded l
      → is_caller_saved_reg linux_target r10 ≡ true
      → u32_is_bit_set 0x400 r10 ≡ true)
    × (u32_is_bit_set 0x400 r10 ≡ true
        → (l : ℕ) × (l < 5)
          × ((result_of (run three)).locs l ≡ in_reg r10)
          × (start_of crowded l < 5)
          × (5 < end_of crowded l)
          × (is_caller_saved_reg linux_target r10 ≡ true))
linear_scan_reg_alloc-saves_example =
    linear_scan_reg_alloc-saves linux_target crowded (scratch three) 24 (result_of (run three))
      one_spilled (omega arith) 0 0x400 5 r10 (ap (λ ms. get_elem? ms 0) one_spilled_locs.3) refl

-- A register under a register under a root.
abbrev chain : ℕ → ℕ
chain l = get_or (1 ∷ 2 ∷ []) l l

abbrev chain_sizes : ℕ → ℕ
chain_sizes l = get_or (1 ∷ 2 ∷ 3 ∷ []) l 1

chain_links : (i : ℕ) → (chain i ≡ i) ⊎ (chain_sizes i < chain_sizes (chain i))
chain_links zero = inr (omega arith)
chain_links (suc zero) = inr (omega arith)
chain_links (suc (suc i)) = inl refl

chain_bounds : (i : ℕ) → chain_sizes i ≤ 3
chain_bounds zero = omega arith
chain_bounds (suc zero) = omega arith
chain_bounds (suc (suc zero)) = omega arith
chain_bounds (suc (suc (suc i))) = omega arith

chain-IsForest : IsForest 3 chain chain_sizes
chain-IsForest = record { links = chain_links; bounded = chain_bounds }

find_alias_reg-RootOf_example :
    (t : ℕ) × (roots' : ℕ → ℕ) × (find_alias_reg 2 chain 0 ≡ some (t, roots'))
    × RootOf chain 0 t
    × ((x y : ℕ) → RootOf chain x y → RootOf roots' x y)
    × IsForest 3 roots' chain_sizes
find_alias_reg-RootOf_example =
    find_alias_reg-RootOf 2 3 chain chain_sizes 0 chain-IsForest (omega arith)

abbrev chain_aliases : Aliases
chain_aliases = record { roots = chain; sizes = chain_sizes; ranges = λ l. no_range }

abbrev joined : Outcome Aliases → Aliases
joined (ok a) = a
joined _ = chain_aliases

chain_joined : alias_regs 3 chain_aliases 0 5 ≡ ok (joined (alias_regs 3 chain_aliases 0 5))
unfolding alias_regs
chain_joined = refl

alias_regs-RootOf_example :
    (w : ℕ) × ((w ≡ 2) ⊎ (w ≡ 5))
    × ((x t : ℕ)
        → RootOf chain x t
        → RootOf
            (joined (alias_regs 3 chain_aliases 0 5)).roots
            x
            (if t == 2 || t == 5 then w else t))
alias_regs-RootOf_example =
    alias_regs-RootOf 3 3 0 5 2 5 chain_aliases (joined (alias_regs 3 chain_aliases 0 5))
      chain-IsForest (omega arith) (up {p = 1} refl (up {p = 2} refl (at refl))) (at refl)
      chain_joined
