-- ===== src/RegAlloc/Handled.antt =====
-- Where src/x64_gen/reg_alloc.c keeps the intervals that it has placed: each is active or handled,
-- and the handled list is in the order of the starts.
use nibble.Prelude.{
  ℕ, ◌≡◌, refl, true, ◌||◌, List, [], ◌∷◌, inl, inr, ltb, arith, Bool-cases, subst, ap,
}
use nibble.Regs.{RegClass, Target}
use nibble.RegAlloc.State.{
  Builder, State, start_of, end_of, ctrl_of, ok, >>=-eq-ok, list_rm, list_add_by, IntervalList,
  interval_list_rm, interval_list_add_by,
}
use nibble.RegAlloc.Order.{has, IsAscending, has-list_add_by, has-list_rm, IsAscending-list_add_by}
use nibble.RegAlloc.Scan.{
  activate, alloc_reg, spill_reg_loc, expire, expire_old, place, place_by, scan, drain,
}
use nibble.RegAlloc.Effects.{
  expire_effect, steal_effect, place_by-Placed, Placed, took, spilled, stole,
}
use nibble.RegAlloc.Conflict.{placed_after}

module _ (target : Target) (b : Builder) (scratch_regs : RegClass → List ℕ) where
  pub record Listed (done active handled : List ℕ) : Type 0 where
    pub listed : (l : ℕ) → has l done ≡ true → (has l active || has l handled) ≡ true
    pub only_active : (l : ℕ) → has l active ≡ true → has l done ≡ true
    pub only_handled : (l : ℕ) → has l handled ≡ true → has l done ≡ true
    pub ascending : IsAscending (start_of b) 0 handled

  -- An active interval moves to the handled list.
  move-Listed :
      (done active handled : List ℕ) (i : ℕ)
      → has i done ≡ true
      → Listed done active handled
      → Listed done (list_rm i active) (list_add_by (start_of b) i handled)
  move-Listed done active handled i d k = record {
    listed = λ l h.
        ground
          (arith, k.listed l h, has-list_rm l i active, has-list_add_by (start_of b) l i handled);
    only_active = λ l h. ground (arith, k.only_active l, has-list_rm l i active);
    only_handled =
        λ l h. ground (arith, k.only_handled l, has-list_add_by (start_of b) l i handled);
    ascending = IsAscending-list_add_by (start_of b) 0 i handled (omega arith) k.ascending;
  }

  -- A new interval joins one of the two lists.
  take-Listed :
      (done active handled : List ℕ) (i : ℕ)
      → Listed done active handled
      → Listed (i ∷ done) (list_add_by (end_of b) i active) handled
  unfolding has
  take-Listed done active handled i k = record {
    listed = λ l h. ground (arith, k.listed l, has-list_add_by (end_of b) l i active);
    only_active = λ l h. ground (arith, k.only_active l, has-list_add_by (end_of b) l i active);
    only_handled = λ l h. ground (arith, k.only_handled l);
    ascending = k.ascending;
  }

  spill-Listed :
      (done active handled : List ℕ) (i : ℕ)
      → Listed done active handled
      → Listed (i ∷ done) active (list_add_by (start_of b) i handled)
  unfolding has
  spill-Listed done active handled i k = record {
    listed = λ l h. ground (arith, k.listed l, has-list_add_by (start_of b) l i handled);
    only_active = λ l h. ground (arith, k.only_active l);
    only_handled =
        λ l h. ground (arith, k.only_handled l, has-list_add_by (start_of b) l i handled);
    ascending = IsAscending-list_add_by (start_of b) 0 i handled (omega arith) k.ascending;
  }

  abbrev pub StateListed : List ℕ → State → Type 0
  StateListed done st = Listed done st.active.list st.handled.list

  expire_old-Listed :
      (done : List ℕ) (p : ℕ) (is : List ℕ) (st st' : State)
      → ((l : ℕ) → has l is ≡ true → has l done ≡ true)
      → StateListed done st
      → expire_old target b scratch_regs p is st ≡ ok st'
      → StateListed done st'
  unfolding expire_old has
  expire_old-Listed done p [] st st' sub k e =
      let same : st ≡ st' = cc in subst (StateListed done) same k
  expire_old-Listed done p (i ∷ is) st st' sub k e = elim (Bool-cases (ltb p (end_of b i))) [
    | inl stop ↦ let same : st ≡ st' = ground arith in subst (StateListed done) same k
    | inr go ↦
        let (mid, run, rest) =
          >>=-eq-ok (expire target b scratch_regs st i) (expire_old target b scratch_regs p is)
            (rw (go, expire_old) at e) in
        let (le, ae, me, same, ue, oe, he) = expire_effect target b scratch_regs i st mid run in
        expire_old-Listed done p is mid st' (λ l h. sub l (ground arith))
          (rw (ae, he) (move-Listed done st.active.list st.handled.list i (sub i (ground arith)) k))
          rest
  ]

  Placed-Listed :
      (done : List ℕ) (i : ℕ) (st st' : State)
      → StateListed done st
      → Placed target b scratch_regs st i st'
      → StateListed (i ∷ done) st'
  unfolding activate alloc_reg spill_reg_loc interval_list_add_by
  Placed-Listed done i st st' k (took reg free c e) =
      rw e (take-Listed done st.active.list st.handled.list i k)
  Placed-Listed done i st st' k (spilled f e) =
      rw e (spill-Listed done st.active.list st.handled.list i k)
  Placed-Listed done i st st' k (stole v va fv fx e) =
      let (ve, ae, me, le, oe, ue, he) = steal_effect target b scratch_regs v i st st' e in
      rw (ae, he)
        (take-Listed done _ _ i
          (move-Listed done st.active.list st.handled.list v (k.only_active v va) k))

  pub scan-Listed :
      (done is : List ℕ) (st st' : State)
      → StateListed done st
      → scan target b scratch_regs is st ≡ ok st'
      → StateListed (placed_after target b scratch_regs is done) st'
  unfolding scan place
  scan-Listed done [] st st' k e = let same : st ≡ st' = cc in subst (StateListed done) same k
  scan-Listed done (i ∷ is) st st' k e =
      let (mid, run, rest) =
        >>=-eq-ok (place target b scratch_regs st i is) (scan target b scratch_regs is) e in
      let start = start_of b i in
      let (old, expires, places) =
        >>=-eq-ok (expire_old target b scratch_regs start st.active.list st)
          (λ expired. place_by target b scratch_regs (ctrl_of b i) expired i is) run in
      scan-Listed (i ∷ done) is mid st'
        (Placed-Listed done i old mid
          (expire_old-Listed done start st.active.list st old k.only_active k expires)
          (place_by-Placed target b scratch_regs (ctrl_of b i) old mid i is refl places))
        rest

  interval_list_rm_effect :
      (l l' : IntervalList) (i : ℕ) → interval_list_rm b l i ≡ ok l' → l'.list ≡ list_rm i l.list
  unfolding interval_list_rm
  interval_list_rm_effect l l' i e = ground arith

  -- The loop that empties the active list.
  pub drain-Listed :
      (done is : List ℕ) (st st' : State)
      → ((l : ℕ) → has l is ≡ true → has l done ≡ true)
      → ((l : ℕ) → has l st.active.list ≡ true → has l is ≡ true)
      → StateListed done st
      → drain target b scratch_regs is st ≡ ok st'
      → ((l : ℕ) → has l done ≡ true → has l st'.handled.list ≡ true)
        × ((l : ℕ) → has l st'.handled.list ≡ true → has l done ≡ true)
        × IsAscending (start_of b) 0 st'.handled.list
  unfolding drain has interval_list_add_by
  drain-Listed done [] st st' sub cover k e =
      let same : st ≡ st' = ground arith in
      (
        λ l d. ground (arith, same, k.listed l d, cover l),
        λ l h. ground (arith, same, k.only_handled l),
        subst (λ (t : State). IsAscending (start_of b) 0 t.handled.list) same k.ascending,
      )
  drain-Listed done (i ∷ is) st st' sub cover k e =
      let (active, run, rest) = >>=-eq-ok (interval_list_rm b st.active i) _ e in
      let removed = interval_list_rm_effect st.active active i run in
      drain-Listed done is _ st' (λ l h. sub l (ground arith))
        (λ l h. ground (arith, ap (has l) removed, has-list_rm l i st.active.list, cover l))
        (rw removed (move-Listed done st.active.list st.handled.list i (sub i (ground arith)) k))
        rest
