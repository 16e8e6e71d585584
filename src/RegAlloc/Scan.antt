-- ===== src/RegAlloc/Scan.antt =====
-- The allocation loop of src/x64_gen/reg_alloc.c, up to the call sites.
use nibble.Prelude.{
  update, ℕ, ◌+◌, ◌-◌, ◌%◌, ◌^◌, Bool, true, false, not, ◌&&◌, ◌||◌, List, [], ◌∷◌, ltb, leb, ◌==◌,
  if◌then◌else◌, length,
}
use nibble.Prelude.Bits.{u32_set_bit, u32_is_bit_set}
use nibble.Regs.{RegClass, reg_count, rbp, rsp, reg_classes, Target, is_callee_saved_reg}
use nibble.RegAlloc.State.{
  RegAllocControl, force_reg, force_any_reg, force_reg_or_spill, hint_lir_reg, hint_phys_reg,
  RegLoc, in_reg, in_stack, neg_u32, Builder, State, unoccupied, Outcome, ok, failed, aborted,
  assert, ◌>>=◌, ◌>>◌, class_eq, start_of, end_of, class_of, ctrl_of, interval_list_rm,
  interval_list_add_by,
}
use mathlib.Core.Option.{Option}

-- `~mask` of a u32
abbrev pub u32_not : ℕ → ℕ
u32_not mask = 0xFFFFFFFF - mask

-- X64_MAX_INT_REG_SIZE
abbrev pub max_int_reg_size : ℕ
max_int_reg_size = 8

-- X64_free_reg
unfoldable pub free_reg : State → ℕ → State
free_reg st reg = record st { rmap = update st.rmap reg unoccupied }

-- The loop of X64_next_reg: the first register that is free and not banned.
unfoldable pub first_free : (ℕ → ℕ) → ℕ → List ℕ → ℕ
first_free rmap banned_regs [] = reg_count
first_free rmap banned_regs (r ∷ rs) =
    if rmap r == unoccupied && not (u32_is_bit_set banned_regs r)
    then r
    else first_free rmap banned_regs rs

-- The banned registers of an ordinary interval: those that the intervals behind it which start
-- before its end are forced into.
unfoldable pub banned_by : Builder → ℕ → List ℕ → ℕ → ℕ
banned_by b end [] banned_regs = banned_regs
banned_by b end (j ∷ js) banned_regs =
    if leb end (start_of b j)
    then banned_regs
    else banned_by b end js
        (elim (ctrl_of b j) [ force_reg r ↦ u32_set_bit banned_regs r | _ ↦ banned_regs ])

-- XIR_REG_ALLOC_CTRL_FORCE_REG or XIR_REG_ALLOC_CTRL_FORCE_ANY_REG
abbrev pub is_forced : RegAllocControl → Bool
is_forced (force_reg r) = true
is_forced (force_any_reg m) = true
is_forced _ = false

abbrev pub uses_banned : ℕ → RegLoc → Bool
uses_banned banned_regs (in_reg r) = u32_is_bit_set banned_regs r
uses_banned banned_regs _ = false

-- The test that ends the search for an interval to spill.
unfoldable pub can_spill : Builder → State → RegClass → ℕ → ℕ → Bool
can_spill b st reg_class banned_regs i =
    not (is_forced (ctrl_of b i))
    && (class_eq (class_of b i) reg_class && not (uses_banned banned_regs (st.locs i)))

-- The walk from the tail of the active list towards its head stops at the last entry that passes.
unfoldable pub last_that : (ℕ → Bool) → List ℕ → Option ℕ
last_that test [] = Option.none
last_that test (x ∷ xs) = elim (last_that test xs) [
  | Option.some y ↦ Option.some y
  | Option.none ↦ if test x then Option.some x else Option.none
]

module _ (target : Target) (b : Builder) (scratch_regs : RegClass → List ℕ) where
  -- X64_alloc_reg
  unfoldable pub alloc_reg : State → ℕ → ℕ → State
  alloc_reg st reg lreg = record st {
    rmap = update st.rmap reg lreg;
    used_callee_regs =
        if is_callee_saved_reg target reg
        then u32_set_bit st.used_callee_regs reg
        else st.used_callee_regs;
  }

  -- The part of X64_next_reg behind the hint.
  unfoldable pub next_scratch_reg : State → ℕ → RegClass → ℕ → Outcome (ℕ × State)
  unfolding alloc_reg first_free
  next_scratch_reg st lreg reg_class banned_regs =
      let reg = first_free st.rmap banned_regs (scratch_regs reg_class) in
      if reg == reg_count then ok (reg, st) else do
        assert (class_eq reg_class (reg_classes reg))
        assert (not (reg == rbp))
        assert (not (reg == rsp))
        ok (reg, alloc_reg st reg lreg)

  -- X64_next_reg; `reg_count` as a hint is none, as a result is failure.
  unfoldable pub next_reg : State → ℕ → RegClass → ℕ → ℕ → Outcome (ℕ × State)
  unfolding next_scratch_reg
  next_reg st lreg reg_class banned_regs preg_hint =
      if not (preg_hint == reg_count)
        && (not (u32_is_bit_set banned_regs preg_hint) && st.rmap preg_hint == unoccupied)
      then (do
        assert (class_eq reg_class (reg_classes preg_hint))
        ok (preg_hint, alloc_reg st preg_hint lreg))
      else next_scratch_reg st lreg reg_class banned_regs

  -- X64_out_of_regs
  unfoldable pub out_of_regs : State → RegClass → Outcome Bool
  out_of_regs st reg_class = do
    let used = st.active.class_counts reg_class
    let total = length (scratch_regs reg_class)
    assert (leb used total)
    ok (used == total)

  -- `interval->loc = reg` and X64_lreg_interval_list_add_by_end(&state->active, interval)
  unfoldable pub activate : State → ℕ → ℕ → State
  activate st i reg = record st {
    locs = update st.locs i (in_reg reg);
    active = interval_list_add_by b (end_of b) st.active i;
  }

  -- X64_spill_reg_loc
  unfoldable pub spill_reg_loc : State → ℕ → State
  spill_reg_loc st i =
      let offset = (st.stack_offset + max_int_reg_size) % 2 ^ 32 in
      record st {
        stack_offset = offset;
        locs = update st.locs i (in_stack (neg_u32 offset));
        handled = interval_list_add_by b (start_of b) st.handled i;
      }

  -- The register of an interval whose location is asserted to be one.
  abbrev pub reg_of_loc : RegLoc → Outcome ℕ
  reg_of_loc (in_reg r) = ok r
  reg_of_loc _ = aborted

  -- X64_steal_reg
  unfoldable pub steal_reg : State → ℕ → ℕ → Outcome State
  unfolding spill_reg_loc
  steal_reg st from to = do
    reg ← reg_of_loc (st.locs from)
    active ← interval_list_rm b st.active from
    ok (
        spill_reg_loc
          (record st {
            locs = update st.locs to (in_reg reg);
            rmap = update st.rmap reg to;
            active = interval_list_add_by b (end_of b) active to;
          })
          from)

  -- One round of the loop that expires old intervals.
  unfoldable pub expire : State → ℕ → Outcome State
  unfolding free_reg
  expire st i = do
    active ← interval_list_rm b st.active i
    reg ← reg_of_loc (st.locs i)
    let freed = free_reg (record st { active = active }) reg
    ok (record freed { handled = interval_list_add_by b (start_of b) freed.handled i })

  -- The loop itself, over the active list as it stands when the loop begins.
  unfoldable pub expire_old : ℕ → List ℕ → State → Outcome State
  expire_old start [] st = ok st
  expire_old start (i ∷ is) st = elim (ltb start (end_of b i)) [
    | true ↦ ok st
    | false ↦ expire st i >>= expire_old start is
  ]

  -- XIR_REG_ALLOC_CTRL_FORCE_REG
  unfoldable pub place_forced : State → ℕ → ℕ → Outcome State
  unfolding activate alloc_reg
  place_forced st i reg = do
    assert (st.rmap reg == unoccupied)
    ok (activate (alloc_reg st reg i) i reg)

  -- XIR_REG_ALLOC_CTRL_FORCE_ANY_REG
  unfoldable pub place_in_any : State → ℕ → ℕ → Outcome State
  unfolding next_reg activate
  place_in_any st i preg_mask = do
    assert (not (preg_mask == 0))
    (reg, st') ← next_reg st i (class_of b i) (u32_not preg_mask) reg_count
    assert (not (reg == reg_count))
    ok (activate st' i reg)

  -- XIR_REG_ALLOC_CTRL_FORCE_REG_OR_SPILL
  unfoldable pub place_or_spill : State → ℕ → ℕ → Outcome State
  unfolding next_reg activate spill_reg_loc
  place_or_spill st i preg_mask = do
    assert (not (preg_mask == 0))
    (reg, st') ← next_reg st i (class_of b i) (u32_not preg_mask) reg_count
    ok (if reg == reg_count then spill_reg_loc st' i else activate st' i reg)

  -- All registers of the class are in use: spill the interval that ends last.
  unfoldable pub spill_latest : State → ℕ → ℕ → Outcome State
  unfolding spill_reg_loc steal_reg last_that can_spill
  spill_latest st i banned_regs =
      let force = is_forced (ctrl_of b i) in
      elim (last_that (can_spill b st (class_of b i) banned_regs) st.active.list) [
        | Option.none ↦ if force then failed else ok (spill_reg_loc st i)
        | Option.some last_active ↦
            if force || ltb (end_of b i) (end_of b last_active)
            then steal_reg st last_active i
            else ok (spill_reg_loc st i)
      ]

  -- The register that the hint of an interval names, `reg_count` if none.
  abbrev pub hinted_loc : RegLoc → Outcome ℕ
  hinted_loc (in_reg r) = assert (ltb r reg_count) >> ok r
  hinted_loc _ = ok reg_count

  unfoldable pub preg_hint : State → RegAllocControl → Outcome ℕ
  preg_hint st (hint_phys_reg r) = assert (ltb r reg_count) >> ok r
  preg_hint st (hint_lir_reg lreg) = assert (ltb lreg b.num_regs) >> hinted_loc (st.locs lreg)
  preg_hint st _ = ok reg_count

  unfoldable pub take_free_reg : State → ℕ → ℕ → Outcome State
  unfolding preg_hint next_reg activate
  take_free_reg st i banned_regs = do
    hint ← preg_hint st (ctrl_of b i)
    (reg, st') ← next_reg st i (class_of b i) banned_regs hint
    if reg == reg_count then failed else ok (activate st' i reg)

  -- An interval that is not forced; `later` are the intervals behind it.
  unfoldable pub place_ordinary : State → ℕ → List ℕ → Outcome State
  unfolding banned_by out_of_regs spill_latest take_free_reg
  place_ordinary st i later = do
    let banned_regs = banned_by b (end_of b i) later 0
    out ← out_of_regs st (class_of b i)
    if out then spill_latest st i banned_regs else take_free_reg st i banned_regs

  abbrev pub place_by : RegAllocControl → State → ℕ → List ℕ → Outcome State
  place_by (force_reg reg) st i later = place_forced st i reg
  place_by (force_any_reg mask) st i later = place_in_any st i mask
  place_by (force_reg_or_spill mask) st i later = place_or_spill st i mask
  place_by _ st i later = place_ordinary st i later

  -- One round of the main loop.
  unfoldable pub place : State → ℕ → List ℕ → Outcome State
  unfolding expire_old
  place st i later = do
    expired ← expire_old (start_of b i) st.active.list st
    place_by (ctrl_of b i) expired i later

  -- The main loop over the unhandled intervals.
  unfoldable pub scan : List ℕ → State → Outcome State
  scan [] st = ok st
  scan (i ∷ later) st = place st i later >>= scan later

  -- The loop behind it moves what is still active to the handled list.
  unfoldable pub drain : List ℕ → State → Outcome State
  drain [] st = ok st
  drain (i ∷ is) st = do
    active ← interval_list_rm b st.active i
    drain is
        (record st { active = active; handled = interval_list_add_by b (start_of b) st.handled i })
