-- ===== src/RegAlloc/Facts.antt =====
-- What the main loop of src/x64_gen/reg_alloc.c establishes for each interval by itself: where it
-- is put, its stack slot, and the note of the callee-saved registers.
use nibble.Prelude.{
  update, ℕ, ◌-◌, ◌+◌, ◌*◌, ◌%◌, ◌^◌, ◌≤◌, ◌<◌, ◌≡◌, refl, Bool, true, false, List, [], ◌∷◌, ◌⊎◌,
  inl, inr, ◌≢◌, ltb, arith, Bool-cases, length, subst, ◌∙◌,
}
use nibble.Prelude.Bits.{u32_is_bit_set, is_bit_set-set_bit}
use nibble.Regs.{RegClass, Target, is_callee_saved_reg}
use nibble.RegAlloc.State.{
  RegLoc, in_reg, in_stack, neg_u32, unassigned, Builder, State, unoccupied, start_of, end_of,
  ctrl_of, ok, >>=-eq-ok, force_reg,
}
use nibble.RegAlloc.Order.{has, IsDistinct, IsAscending}
use nibble.RegAlloc.Scan.{
  activate, alloc_reg, spill_reg_loc, expire, expire_old, place, place_by, scan, is_forced,
}
use nibble.RegAlloc.Invariant.{is_in_reg, later-Inv}
use nibble.RegAlloc.Effects.{
  reg_number, expire_effect, steal_effect, place_by-Placed, Placed, took, spilled, stole,
}
use nibble.RegAlloc.Conflict.{StateInv, place-Inv, placed_after, expire_old-Inv}

abbrev pub is_assigned : RegLoc → Bool
is_assigned unassigned = false
is_assigned _ = true

-- The bytes from a negative offset, given by its two's complement, up to 0
abbrev pub depth : ℕ → ℕ
depth o = 2 ^ 32 - o

-- Two stack slots of eight bytes at negative offsets do not overlap.
abbrev pub SlotsApart : ℕ → ℕ → Type 0
SlotsApart o o' = (depth o + 8 ≤ depth o') ⊎ (depth o' + 8 ≤ depth o)

pub record Facts (target : Target) (b : Builder) (init : ℕ) (done : List ℕ) (locs : ℕ → RegLoc)
    (used offset : ℕ) : Type 0 where
  pub assigned : (l : ℕ) → has l done ≡ true → is_assigned (locs l) ≡ true
  pub forced : (l r : ℕ) → has l done ≡ true → ctrl_of b l ≡ force_reg r → locs l ≡ in_reg r
  pub in_any :
      (l : ℕ) → has l done ≡ true → is_forced (ctrl_of b l) ≡ true → is_in_reg (locs l) ≡ true
  pub noted :
      (l r : ℕ)
      → has l done ≡ true
      → locs l ≡ in_reg r
      → is_callee_saved_reg target r ≡ true
      → u32_is_bit_set used r ≡ true
  pub slot :
      (l o : ℕ)
      → has l done ≡ true
      → locs l ≡ in_stack o
      → (init + 8 ≤ depth o) × (depth o ≤ offset)
  pub slots_apart :
      (l m o o' : ℕ)
      → has l done ≡ true
      → has m done ≡ true
      → l ≢ m
      → locs l ≡ in_stack o
      → locs m ≡ in_stack o'
      → SlotsApart o o'
  pub least : init ≤ offset
  pub growth : offset ≤ init + 8 * length done

module _ {target : Target} {b : Builder} {init : ℕ} {done : List ℕ} {locs : ℕ → RegLoc}
    {used offset : ℕ} (facts : Facts target b init done locs used offset) (x : ℕ)
    (fresh : has x done ≡ false) where
  took-Facts :
      (reg used' : ℕ)
      → ((r : ℕ) → ctrl_of b x ≡ force_reg r → reg ≡ r)
      → ((r : ℕ) → u32_is_bit_set used r ≡ true → u32_is_bit_set used' r ≡ true)
      → (is_callee_saved_reg target reg ≡ true → u32_is_bit_set used' reg ≡ true)
      → Facts target b init (x ∷ done) (update locs x (in_reg reg)) used' offset
  unfolding has
  took-Facts reg used' ctrl grows note = record {
    assigned = λ l d. ground (arith, facts.assigned l);
    forced = λ l r d c. ground (arith, facts.forced l r, ctrl r);
    in_any = λ l d c. ground (arith, facts.in_any l);
    noted = λ l r d e s. ground (arith, facts.noted l r, grows r, note);
    slot = λ l o d e. ground (arith, facts.slot l o);
    slots_apart = λ l m o o' dl dm ne el em. ground (arith, facts.slots_apart l m o o');
    least = facts.least;
    growth = omega (arith, facts.growth);
  }

  spilled-Facts :
      is_forced (ctrl_of b x) ≡ false
      → offset + 8 < 2 ^ 32
      → Facts target b init
          (x ∷ done)
          (update locs x (in_stack (neg_u32 (offset + 8))))
          used
          (offset + 8)
  unfolding has
  spilled-Facts f room = record {
    assigned = λ l d. ground (arith, facts.assigned l);
    forced = λ l r d c. ground (arith, facts.forced l r);
    in_any = λ l d c. ground (arith, facts.in_any l);
    noted = λ l r d e s. ground (arith, facts.noted l r);
    slot = λ l o d e. ground (arith, facts.slot l o, facts.least);
    slots_apart = λ l m o o' dl dm ne el em.
        ground (arith, facts.slots_apart l m o o', facts.slot l o, facts.slot m o');
    least = omega (arith, facts.least);
    growth = omega (arith, facts.growth);
  }

  stole-Facts :
      (v reg : ℕ)
      → has v done ≡ true
      → is_forced (ctrl_of b v) ≡ false
      → is_forced (ctrl_of b x) ≡ false
      → locs v ≡ in_reg reg
      → offset + 8 < 2 ^ 32
      → Facts target b init
          (x ∷ done)
          (update (update locs x (in_reg reg)) v (in_stack (neg_u32 (offset + 8))))
          used
          (offset + 8)
  unfolding has
  stole-Facts v reg dv fv fx ve room = record {
    assigned = λ l d. ground (arith, facts.assigned l);
    forced = λ l r d c. ground (arith, facts.forced l r);
    in_any = λ l d c. ground (arith, facts.in_any l);
    noted = λ l r d e s. ground (arith, facts.noted l r, facts.noted v r dv);
    slot = λ l o d e. ground (arith, facts.slot l o, facts.least);
    slots_apart = λ l m o o' dl dm ne el em.
        ground (arith, facts.slots_apart l m o o', facts.slot l o, facts.slot m o');
    least = omega (arith, facts.least);
    growth = omega (arith, facts.growth);
  }

module _ (target : Target) (b : Builder) (scratch_regs : RegClass → List ℕ) (init : ℕ) where
  abbrev pub StateFacts : List ℕ → State → Type 0
  StateFacts done st = Facts target b init done st.locs st.used_callee_regs st.stack_offset

  expire_old-same :
      (p : ℕ) (is : List ℕ) (st st' : State)
      → expire_old target b scratch_regs p is st ≡ ok st'
      → (st'.locs ≡ st.locs)
        × (st'.used_callee_regs ≡ st.used_callee_regs)
        × (st'.stack_offset ≡ st.stack_offset)
  unfolding expire_old
  expire_old-same p [] st st' e = ground arith
  expire_old-same p (i ∷ is) st st' e = elim (Bool-cases (ltb p (end_of b i))) [
    | inl stop ↦ ground arith
    | inr go ↦
        let (mid, run, rest) =
          >>=-eq-ok (expire target b scratch_regs st i) (expire_old target b scratch_regs p is)
            (rw (go, expire_old) at e) in
        let (le, ae, me, same, ue, oe, he) = expire_effect target b scratch_regs i st mid run in
        let (l, u, o) = expire_old-same p is mid st' rest in (l ∙ same, u ∙ ue, o ∙ oe)
  ]

  alloc_reg-keeps :
      (st : State) (reg lreg r : ℕ)
      → u32_is_bit_set st.used_callee_regs r ≡ true
      → u32_is_bit_set (alloc_reg target b scratch_regs st reg lreg).used_callee_regs r ≡ true
  unfolding alloc_reg
  alloc_reg-keeps st reg lreg r h = ground (arith, is_bit_set-set_bit st.used_callee_regs reg r)

  alloc_reg-notes :
      (st : State) (reg lreg : ℕ)
      → is_callee_saved_reg target reg ≡ true
      → u32_is_bit_set (alloc_reg target b scratch_regs st reg lreg).used_callee_regs reg ≡ true
  unfolding alloc_reg
  alloc_reg-notes st reg lreg h = ground (arith, is_bit_set-set_bit st.used_callee_regs reg reg)

  Placed-Facts :
      (done : List ℕ) (i : ℕ) (st st' : State)
      → has i done ≡ false
      → init + 8 * length done + 8 < 2 ^ 32
      → ((l : ℕ) → has l st.active.list ≡ true → has l done ≡ true)
      → StateFacts done st
      → Placed target b scratch_regs st i st'
      → StateFacts (i ∷ done) st'
  unfolding activate alloc_reg spill_reg_loc
  Placed-Facts done i st st' fresh room known facts (took reg free c e) = rw e (
      took-Facts facts i fresh reg _ c (λ r. alloc_reg-keeps st reg i r) (alloc_reg-notes st reg i))
  Placed-Facts done i st st' fresh room known facts (spilled f e) =
      let small : (st.stack_offset + 8) % 2 ^ 32 ≡ st.stack_offset + 8 =
        omega (arith, facts.growth) in
      rw (e, small) (spilled-Facts facts i fresh f (omega (arith, facts.growth)))
  Placed-Facts done i st st' fresh room known facts (stole v va fv fx e) =
      let small : (st.stack_offset + 8) % 2 ^ 32 ≡ st.stack_offset + 8 =
        omega (arith, facts.growth) in
      let (ve, ae, me, le, oe, ue, he) = steal_effect target b scratch_regs v i st st' e in
      rw (le, ue, oe, small)
        (stole-Facts facts i fresh v (reg_number (st.locs v)) (known v va) fv fx ve
          (omega (arith, facts.growth)))

  pub scan-Facts :
      (done : List ℕ) (p : ℕ) (is : List ℕ) (st st' : State)
      → IsDistinct is
      → IsAscending (start_of b) p is
      → ((l : ℕ) → has l is ≡ true → (l < unoccupied) × (has l done ≡ false))
      → init + 8 * length done + 8 * length is < 2 ^ 32
      → StateInv target b scratch_regs done p st
      → StateFacts done st
      → scan target b scratch_regs is st ≡ ok st'
      → StateFacts (placed_after target b scratch_regs is done) st'
  unfolding scan has place
  scan-Facts done p [] st st' d a new room inv facts e =
      let same : st ≡ st' = cc in subst (StateFacts done) same facts
  scan-Facts done p (i ∷ is) st st' d a new room inv facts e =
      let (mid, run, rest) =
        >>=-eq-ok (place target b scratch_regs st i is) (scan target b scratch_regs is) e in
      let (fits, fresh) = new i (ground arith) in
      let start = start_of b i in
      let (old, expires, places) =
        >>=-eq-ok (expire_old target b scratch_regs start st.active.list st)
          (λ expired. place_by target b scratch_regs (ctrl_of b i) expired i is) run in
      let (le, ue, oe) = expire_old-same start st.active.list st old expires in
      let kept : StateFacts done old = rw (le, ue, oe) facts in
      let old_inv =
        expire_old-Inv target b scratch_regs done start st.active.list st old
          (later-Inv inv start a.0) inv.distinct (λ l h. h) expires in
      let step =
        Placed-Facts done i old mid fresh (omega arith) old_inv.known kept
          (place_by-Placed target b scratch_regs (ctrl_of b i) old mid i is refl places) in
      scan-Facts (i ∷ done) start is mid st' d.1 a.1 (λ l h. ground (arith, new l)) (omega arith)
        (place-Inv target b scratch_regs done p i is st mid fresh fits a.0 inv run) step rest
