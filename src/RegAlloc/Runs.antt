-- ===== src/RegAlloc/Runs.antt =====
-- A whole run of src/x64_gen/reg_alloc.c that succeeds: its stages, and what holds after each.
use nibble.Prelude.{
  ℕ, ◌+◌, ◌≤◌, ◌<◌, ◌*◌, ◌^◌, ◌≡◌, refl, Bool, true, false, List, [], ◌∷◌, arith, ap, sym, ◌∙◌,
  length,
}
use nibble.Regs.{RegClass, Target}
use nibble.RegAlloc.State.{
  unassigned, Builder, State, IntervalList, unoccupied, ok, ◌>>◌, >>=-eq-ok, start_of,
  interval_list_rm, assert,
}
use nibble.RegAlloc.Order.{has, IsAscending}
use nibble.RegAlloc.Scan.{scan, drain}
use nibble.RegAlloc.CallSites.{
  collect, linear_scan_reg_alloc, RegAllocResult, no_intervals, init_state, align_up,
  save_reg_masks,
}
use nibble.RegAlloc.Collect.{Collected, Found, collect-Found, collect-length}
use nibble.RegAlloc.Facts.{Facts, StateFacts, scan-Facts}
use nibble.RegAlloc.Handled.{Listed, scan-Listed, drain-Listed}
use nibble.RegAlloc.Conflict.{
  StateInv, scan-Inv, placed_after, has-placed_after, length-placed_after,
}

asserted {ℓ} : {A : Type ℓ} (c : Bool) {a a' : A} → (assert c >> ok a) ≡ ok a' → a ≡ a'
asserted true e = cc
asserted false e = cc

module _ (target : Target) (b : Builder) (scratch_regs : RegClass → List ℕ) where
  drain-locs :
      (is : List ℕ) (st st' : State)
      → drain target b scratch_regs is st ≡ ok st'
      → (st'.locs ≡ st.locs)
        × (st'.used_callee_regs ≡ st.used_callee_regs)
        × (st'.stack_offset ≡ st.stack_offset)
  unfolding drain
  drain-locs [] st st' e = ground arith
  drain-locs (i ∷ is) st st' e =
      let (active, run, rest) = >>=-eq-ok (interval_list_rm b st.active i) _ e in
      drain-locs is _ st' rest

  -- The stages of a run that succeeds.
  pub record Run (init_stack_offset : ℕ) (res : RegAllocResult) : Type 0 where
    pub unhandled : IntervalList
    pub num_intervals : ℕ
    pub scanned : State
    pub drained : State
    pub collects :
        collect b b.num_lreg_ranges b.lreg_aliases no_intervals 0 ≡ ok (unhandled, num_intervals)
    pub scans :
        scan target b scratch_regs unhandled.list (init_state init_stack_offset) ≡ ok scanned
    pub drains : drain target b scratch_regs scanned.active.list scanned ≡ ok drained
    pub locs : res.locs ≡ drained.locs
    pub callee : res.used_callee_regs ≡ drained.used_callee_regs
    pub offset : res.stack_offset ≡ align_up drained.stack_offset 16
    pub masks :
        res.save_masks ≡ save_reg_masks target b drained.locs b.call_sites drained.handled.list

  pub Run-of :
      (init : ℕ) (res : RegAllocResult)
      → linear_scan_reg_alloc target b scratch_regs init ≡ ok res
      → Run init res
  unfolding linear_scan_reg_alloc
  Run-of init res e =
      let ((u, n), collects, e1) =
        >>=-eq-ok (collect b b.num_lreg_ranges b.lreg_aliases no_intervals 0) _ e in
      let (st, scans, e2) = >>=-eq-ok (scan target b scratch_regs u.list (init_state init)) _ e1 in
      let (end, drains, e3) = >>=-eq-ok (drain target b scratch_regs st.active.list st) _ e2 in
      let same = asserted _ e3 in
      record {
        unhandled = u;
        num_intervals = n;
        scanned = st;
        drained = end;
        collects = collects;
        scans = scans;
        drains = drains;
        locs = ap (λ (t : RegAllocResult). t.locs) (sym same);
        callee = ap (λ (t : RegAllocResult). t.used_callee_regs) (sym same);
        offset = ap (λ (t : RegAllocResult). t.stack_offset) (sym same);
        masks = ap (λ (t : RegAllocResult). t.save_masks) (sym same);
      }

  init-Inv : (init : ℕ) → StateInv target b scratch_regs [] 0 (init_state init)
  unfolding has
  init-Inv init = record {
    distinct = tt;
    known = λ l a. cc;
    small = λ l d. cc;
    located = λ l a. cc;
    held = λ l r a e. cc;
    past = λ l r d e n. cc;
    apart = λ l m r dl dm ne el em. cc;
  }

  module _ {init : ℕ} {res : RegAllocResult} (run : Run init res) where
    open run use {unhandled, num_intervals, scanned, drained, collects, scans, drains}

    nothing : Collected b b.num_lreg_ranges no_intervals
    unfolding has
    nothing = record { distinct = tt; ascending = tt; range = λ l m. cc }

    pub collected : Found b b.num_lreg_ranges b.lreg_aliases no_intervals unhandled
    collected =
        collect-Found b b.num_lreg_ranges b.lreg_aliases no_intervals unhandled 0 num_intervals
          (omega arith) nothing collects

    -- Every root is among the intervals that the loop has placed.
    pub placed_list : List ℕ
    placed_list = placed_after target b scratch_regs unhandled.list []

    pub root-placed :
        (l : ℕ) → l < b.num_lreg_ranges → b.lreg_aliases l ≡ l → has l placed_list ≡ true
    unfolding placed_list has
    root-placed l h r =
        let (c, keeps, roots) = collected in
        ground (arith, roots l h r, has-placed_after target b scratch_regs l unhandled.list [])

    module _ (few : b.num_lreg_ranges ≤ unoccupied) where
      pub scanned-Inv : (q : ℕ) × StateInv target b scratch_regs placed_list q scanned
      unfolding placed_list has
      scanned-Inv =
          let (c, keeps, roots) = collected in
          scan-Inv target b scratch_regs [] 0 unhandled.list (init_state init) scanned c.distinct
            c.ascending (λ l h. (omega (arith, c.range l h), refl)) (init-Inv init) scans

    pub placed-below : (l : ℕ) → has l placed_list ≡ true → l < b.num_lreg_ranges
    unfolding placed_list has
    placed-below l h =
        let (c, keeps, roots) = collected in
        (c.range l (ground (arith, has-placed_after target b scratch_regs l unhandled.list []))).1

    -- The final locations are those at the end of the main loop.
    pub final-locs : (res.locs ≡ scanned.locs) × (res.used_callee_regs ≡ scanned.used_callee_regs)
    final-locs =
        let (l, c, o) = drain-locs scanned.active.list scanned drained drains in
        (run.locs ∙ l, run.callee ∙ c)

    pub final-offset : res.stack_offset ≡ align_up scanned.stack_offset 16
    final-offset =
        let (l, c, o) = drain-locs scanned.active.list scanned drained drains in
        run.offset ∙ ap (λ t. align_up t 16) o

    pub length-placed : length placed_list ≤ b.num_lreg_ranges
    unfolding placed_list
    length-placed = omega (
      arith,
      length-placed_after target b scratch_regs unhandled.list [],
      collect-length b b.num_lreg_ranges b.lreg_aliases no_intervals unhandled 0 num_intervals
          collects,
    )

    init-Facts : Facts target b init [] (λ i. unassigned) 0 init
    unfolding has
    init-Facts = record {
      assigned = λ l d. cc;
      forced = λ l r d c. cc;
      in_any = λ l d c. cc;
      noted = λ l r d e s. cc;
      slot = λ l o d e. cc;
      slots_apart = λ l m o o' dl dm ne el em. cc;
      least = omega arith;
      growth = omega arith;
    }

    module _ (few : b.num_lreg_ranges ≤ unoccupied)
        (room : init + 8 * b.num_lreg_ranges < 2 ^ 32) where
      pub scanned-Facts : StateFacts target b scratch_regs init placed_list scanned
      unfolding placed_list has
      scanned-Facts =
          let (c, keeps, roots) = collected in
          let short =
            collect-length b b.num_lreg_ranges b.lreg_aliases no_intervals unhandled 0 num_intervals
              collects in
          scan-Facts target b scratch_regs init [] 0 unhandled.list (init_state init) scanned
            c.distinct c.ascending (λ l h. (omega (arith, c.range l h), refl))
            (omega (arith, short)) (init-Inv init) init-Facts scans

    init-Listed : Listed target b scratch_regs [] [] []
    unfolding has
    init-Listed = record {
      listed = λ l h. cc;
      only_active = λ l h. cc;
      only_handled = λ l h. cc;
      ascending = tt;
    }

    -- The handled list at the end: what was placed, in the order of the starts.
    pub handled_list :
        ((l : ℕ) → has l placed_list ≡ true → has l drained.handled.list ≡ true)
        × ((l : ℕ) → has l drained.handled.list ≡ true → has l placed_list ≡ true)
        × IsAscending (start_of b) 0 drained.handled.list
    unfolding placed_list
    handled_list =
        let listed =
          scan-Listed target b scratch_regs [] unhandled.list (init_state init) scanned init-Listed
            scans in
        drain-Listed target b scratch_regs _ scanned.active.list scanned drained listed.only_active
          (λ l h. h) listed drains
