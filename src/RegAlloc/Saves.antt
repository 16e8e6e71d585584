-- ===== src/RegAlloc/Saves.antt =====
-- The masks of src/x64_gen/reg_alloc.c against a plain description: the registers that an interval
-- holds across the call site.
use nibble.Prelude.{
  ℕ, zero, suc, ◌≤◌, ◌≡◌, refl, Bool, true, false, ◌&&◌, ◌||◌, List, [], ◌∷◌, inl, inr, ◌==◌, leb,
  if◌then◌else◌, arith, Bool-cases, get_elem?, ◌∙◌, sym,
}
use nibble.Prelude.Bits.{u32_is_bit_set, is_bit_set-set_bit, is_bit_set-zero}
use nibble.Regs.{Target}
use nibble.RegAlloc.State.{RegLoc, in_reg, in_stack, unassigned, Builder, start_of}
use nibble.RegAlloc.Order.{has, IsAscending}
use nibble.RegAlloc.CallSites.{
  intersects, first_intersecting, save_reg_mask, save_reg_masks, add_reg,
}
use mathlib.Core.Option.{some}

abbrev pub holds : ℕ → RegLoc → Bool
holds r (in_reg q) = q == r
holds r _ = false

holds_eq : (r : ℕ) (loc : RegLoc) → holds r loc ≡ true → loc ≡ in_reg r
holds_eq r unassigned h = cc
holds_eq r (in_reg q) h = ground arith
holds_eq r (in_stack o) h = cc

IsAscending-weaken :
    (key : ℕ → ℕ) (low low' : ℕ) (is : List ℕ)
    → low' ≤ low
    → IsAscending key low is
    → IsAscending key low' is
IsAscending-weaken key low low' [] h a = tt
IsAscending-weaken key low low' (i ∷ is) h a = (omega arith, a.1)

module _ (target : Target) (b : Builder) (locs : ℕ → RegLoc) where
  -- Some interval of the list holds `r` across `ino`.
  unfoldable pub crosses : ℕ → ℕ → List ℕ → Bool
  crosses r ino [] = false
  crosses r ino (i ∷ is) = (intersects target b locs ino i && holds r (locs i)) || crosses r ino is

  crosses_late :
      (r ino low : ℕ) (is : List ℕ)
      → ino ≤ low
      → IsAscending (start_of b) low is
      → crosses r ino is ≡ false
  unfolding crosses intersects
  crosses_late r ino low [] h a = refl
  crosses_late r ino low (i ∷ is) h a = ground (arith, crosses_late r ino (start_of b i) is)

  add_reg-holds :
      (r mask : ℕ) (loc : RegLoc)
      → u32_is_bit_set (add_reg target b loc mask) r ≡ (u32_is_bit_set mask r || holds r loc)
  add_reg-holds r mask unassigned = ground arith
  add_reg-holds r mask (in_reg q) = ground (arith, is_bit_set-set_bit mask q r)
  add_reg-holds r mask (in_stack o) = ground arith

  -- The second scan adds the registers held across the site, and stops where no later one is.
  save_reg_mask-crosses :
      (r ino low mask : ℕ) (is : List ℕ)
      → IsAscending (start_of b) low is
      → u32_is_bit_set (save_reg_mask target b locs ino is mask) r
        ≡ (u32_is_bit_set mask r || crosses r ino is)
  unfolding save_reg_mask crosses
  save_reg_mask-crosses r ino low mask [] a = ground arith
  save_reg_mask-crosses r ino low mask (i ∷ is) a =
      let mask' = if intersects target b locs ino i then add_reg target b (locs i) mask else mask in
      ground (
        arith,
        crosses_late r ino (start_of b i) (i ∷ is),
        save_reg_mask-crosses r ino (start_of b i) mask' is a.1,
        add_reg-holds r mask (locs i),
      )

  -- An interval that begins before a site and does not hold a saved register across it does not do
  -- so at a later site.
  passes_on :
      (ino ino' i : ℕ)
      → ino ≤ ino'
      → leb ino (start_of b i) ≡ false
      → intersects target b locs ino i ≡ false
      → intersects target b locs ino' i ≡ false
  unfolding intersects
  passes_on ino ino' i h go passed = ground arith

  -- The first scan passes over intervals that hold no register across this or a later site.
  first_intersecting-crosses :
      (r ino ino' low : ℕ) (is : List ℕ)
      → ino ≤ ino'
      → IsAscending (start_of b) low is
      → (crosses r ino' is ≡ crosses r ino' (first_intersecting target b locs ino is).0)
        × ((first_intersecting target b locs ino is).1 ≡ false
            → crosses r ino (first_intersecting target b locs ino is).0 ≡ false)
        × IsAscending (start_of b) low (first_intersecting target b locs ino is).0
  unfolding first_intersecting crosses
  first_intersecting-crosses r ino ino' low [] h a = (refl, λ f. refl, tt)
  first_intersecting-crosses r ino ino' low (i ∷ is) h a =
      elim (Bool-cases (leb ino (start_of b i))) [
        | inl stop ↦ rw stop (
          refl,
          λ f. crosses_late r ino (start_of b i) (i ∷ is) (ground arith) (omega arith, a.1),
          a,
        )
        | inr go ↦ elim (Bool-cases (intersects target b locs ino i)) [
          | inl here ↦ rw (go, here) (refl, λ f. cc, a)
          | inr passed ↦
              let (same, none_left, asc) =
                first_intersecting-crosses r ino ino' low is h
                  (IsAscending-weaken (start_of b) (start_of b i) low is a.0 a.1) in
              rw (go, passed) (rw (passes_on ino ino' i h go passed) same, none_left, asc)
        ]
      ]

  -- Each mask of the loop holds exactly the registers held across its call site.
  pub save_reg_masks-crosses :
      (sites is : List ℕ) (low : ℕ)
      → IsAscending (λ s. s) low sites
      → IsAscending (start_of b) 0 is
      → (k m s r : ℕ) → get_elem? (save_reg_masks target b locs sites is) k ≡ some m
      → get_elem? sites k ≡ some s
      → (u32_is_bit_set m r ≡ crosses r s is) × (low ≤ s)
  unfolding save_reg_masks
  save_reg_masks-crosses [] is low up a k m s r em es = cc
  save_reg_masks-crosses (ino ∷ sites) is low up a zero m s r em es =
      let same : ino ≡ s = ground arith in
      let (kept, quiet, asc) = first_intersecting-crosses r ino ino 0 is (omega arith) a in
      let rest = (first_intersecting target b locs ino is).0 in
      (
        ground (arith, same, quiet, save_reg_mask-crosses r ino 0 0 rest asc, is_bit_set-zero r),
        omega arith,
      )
  save_reg_masks-crosses (ino ∷ sites) is low up a (suc k) m s r em es =
      let (kept, quiet, asc) = first_intersecting-crosses r ino ino 0 is (omega arith) a in
      let rest = (first_intersecting target b locs ino is).0 in
      let (later, after) = save_reg_masks-crosses sites rest ino up.1 asc k m s r em es in
      let (kept', quiet', asc') = first_intersecting-crosses r ino s 0 is after a in
      (later ∙ sym kept', omega arith)

  -- `crosses` in terms of the intervals of the list.
  pub crosses-of_has :
      (r ino i : ℕ) (is : List ℕ)
      → has i is ≡ true
      → intersects target b locs ino i ≡ true
      → locs i ≡ in_reg r
      → crosses r ino is ≡ true
  unfolding crosses has
  crosses-of_has r ino i [] h x e = cc
  crosses-of_has r ino i (j ∷ js) h x e = ground (arith, crosses-of_has r ino i js)

  pub has-of_crosses :
      (r ino : ℕ) (is : List ℕ)
      → crosses r ino is ≡ true
      → (i : ℕ) × (has i is ≡ true) × (intersects target b locs ino i ≡ true) × (locs i ≡ in_reg r)
  unfolding crosses has
  has-of_crosses r ino [] c = cc
  has-of_crosses r ino (j ∷ js) c =
      elim (Bool-cases (intersects target b locs ino j && holds r (locs j))) [
        | inl here ↦ (j, ground arith, ground arith, holds_eq r (locs j) (ground arith))
        | inr there ↦
            let (i, h, x, e) = has-of_crosses r ino js (rw there at c) in (i, ground arith, x, e)
      ]
