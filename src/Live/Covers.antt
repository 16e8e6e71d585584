-- ===== src/Live/Covers.antt =====
-- What XIR_touch_lreg of src/x64_gen/livevar.c does to the ranges of the roots.
use nibble.Prelude.{
  ℕ, ◌≤◌, ◌<◌, ◌≡◌, ◌≢◌, ◌⊎◌, inl, inr, refl, ap, ◌∙◌, subst, true, false, update, ltb, leb, ◌==◌,
  arith, Bool-cases,
}
use nibble.RegAlloc.State.{RegRange, Builder, Outcome, ok, start_of, end_of}
use nibble.RegAlloc.Aliases.Find.{RootOf, IsForest, find_alias_reg-RootOf}
use nibble.Live.Instrs.{reg_none}
use nibble.Live.Intervals.{touch_range, touch_root, touch_lreg}

-- No range ends behind `p`, and the links of the aliases form a forest of sets of at most `num_regs`.
pub record IsLive (sizes : ℕ → ℕ) (b : Builder) (p : ℕ) : Type 0 where
  pub forest : IsForest b.num_regs b.lreg_aliases sizes
  pub ended : (t : ℕ) → end_of b t ≤ p
  pub ordered : (t : ℕ) → start_of b t ≤ end_of b t

-- What touching leaves: a range that has begun keeps its start, and ends no sooner.
pub record Grows (b b' : Builder) : Type 0 where
  pub regs : b'.num_regs ≡ b.num_regs
  pub roots : (x y : ℕ) → RootOf b.lreg_aliases x y → RootOf b'.lreg_aliases x y
  pub start : (t : ℕ) → 0 < start_of b t → start_of b' t ≡ start_of b t
  pub end : (t : ℕ) → end_of b t ≤ end_of b' t

pub Grows-refl : (b : Builder) → Grows b b
Grows-refl b = record {
  regs = refl;
  roots = λ x y d. d;
  start = λ t h. refl;
  end = λ t. omega arith;
}

pub Grows-trans : {b c d : Builder} → Grows b c → Grows c d → Grows b d
Grows-trans g h = record {
  regs = h.regs ∙ g.regs;
  roots = λ x y r. h.roots x y (g.roots x y r);
  start = λ t pos. h.start t (rw (g.start t pos) pos) ∙ g.start t pos;
  end = λ t. omega (arith, g.end t, h.end t);
}

-- The range of the register's root reaches over the position.
pub record Covers (b : Builder) (lreg pos : ℕ) : Type 0 where
  pub root : ℕ
  pub is_root : RootOf b.lreg_aliases lreg root
  pub begun : 0 < start_of b root
  pub from : start_of b root ≤ pos
  pub to : pos ≤ end_of b root

pub Covers-Grows :
    {b b' : Builder} {lreg pos : ℕ} → Grows b b' → Covers b lreg pos → Covers b' lreg pos
Covers-Grows g c = record {
  root = c.root;
  is_root = g.roots _ _ c.is_root;
  begun = rw (g.start c.root c.begun) c.begun;
  from = rw (g.start c.root c.begun) c.from;
  to = omega (arith, c.to, g.end c.root);
}

-- What touching `t` at `q` makes of its range
pub record Touches (range : RegRange) (q : ℕ) (range' : RegRange) : Type 0 where
  pub ends : range'.end ≡ q
  pub starts : (range'.start ≡ q) ⊎ (range'.start ≡ range.start)
  pub begun : 0 < range'.start
  pub before : range'.start ≤ q
  pub kept : 0 < range.start → range'.start ≡ range.start

touch_range-Touches :
    (range : RegRange) (p q : ℕ)
    → range.start ≤ range.end
    → range.end ≤ p
    → p ≤ q
    → 0 < q
    → (range' : RegRange) × (touch_range range q ≡ ok range') × Touches range q range'
unfolding touch_range
touch_range-Touches range p q order h le pos = elim (Bool-cases (range.start == 0)) [
  | inl new ↦ (
    record range { start = q; end = q },
    rw new refl,
    record {
      ends = refl;
      starts = inl refl;
      begun = pos;
      before = omega arith;
      kept = λ k. absurd (ground arith);
    },
  )
  | inr old ↦
      let later : leb range.end q ≡ true = ground arith in
      (
        record range { end = q },
        rw (old, later) refl,
        record {
          ends = refl;
          starts = inr refl;
          begun = ground arith;
          before = omega arith;
          kept = λ k. refl;
        },
      )
]

module _ (sizes : ℕ → ℕ) (b : Builder) (p q : ℕ) (live : IsLive sizes b p) (le : p ≤ q)
    (pos : 0 < q) where
  live_le : (u : ℕ) → end_of b u ≤ q
  live_le u = omega (arith, live.ended u)

  -- The builder after touching a root
  abbrev with_range : ℕ → (ℕ → ℕ) → RegRange → Builder
  with_range t roots range = record b {
    lreg_ranges = update b.lreg_ranges t range;
    lreg_aliases = roots;
  }

  module _ (t : ℕ) (roots : ℕ → ℕ) (range : RegRange)
      (touched : Touches (b.lreg_ranges t) q range) where
    with_range-Grows :
        ((x y : ℕ) → RootOf b.lreg_aliases x y → RootOf roots x y)
        → Grows b (with_range t roots range)
    with_range-Grows keeps = record {
      regs = refl;
      roots = keeps;
      start = λ u begun. elim (Bool-cases (t == u)) [
        | inl at_t ↦
            let e : t ≡ u = ground arith in
            rw (at_t, start_of) (touched.kept (rw e begun) ∙ ap (λ v. (b.lreg_ranges v).start) e)
        | inr other ↦ rw (other, start_of) refl
      ];
      end = λ u. elim (Bool-cases (t == u)) [
        | inl at_t ↦ rw (at_t, end_of, touched.ends) (live_le u)
        | inr other ↦ rw (other, end_of) (omega arith)
      ];
    }

    with_range-IsLive : IsForest b.num_regs roots sizes → IsLive sizes (with_range t roots range) q
    with_range-IsLive forest = record {
      forest = forest;
      ended = λ u. elim (Bool-cases (t == u)) [
        | inl at_t ↦ rw (at_t, end_of, touched.ends) (omega arith)
        | inr other ↦ rw (other, end_of) (live_le u)
      ];
      ordered = λ u. elim (Bool-cases (t == u)) [
        | inl at_t ↦ rw (at_t, start_of, end_of, touched.ends) touched.before
        | inr other ↦ rw (other, start_of, end_of) (live.ordered u)
      ];
    }

-- The only range that touching `lreg` at `q` may move is that of its root.
pub record Moves (b b' : Builder) (lreg q : ℕ) : Type 0 where
  pub at :
      (u : ℕ)
      → (b'.lreg_ranges u ≡ b.lreg_ranges u)
        ⊎ (RootOf b.lreg_aliases lreg u × Touches (b.lreg_ranges u) q (b'.lreg_ranges u))

-- A register that can be touched
abbrev pub IsLreg : Builder → ℕ → Type 0
IsLreg b lreg = (lreg ≡ reg_none) ⊎ (lreg < b.num_regs)

-- A run that touches `lreg` at `q`
pub record TouchRun (sizes : ℕ → ℕ) (b : Builder) (lreg q : ℕ) (o : Outcome Builder) : Type 0 where
  pub after : Builder
  pub run : o ≡ ok after
  pub live : IsLive sizes after q
  pub grows : Grows b after
  pub covers : lreg ≢ reg_none → Covers after lreg q
  pub moves : Moves b after lreg q

module _ (sizes : ℕ → ℕ) (b : Builder) (p q lreg : ℕ) (live : IsLive sizes b p) (le : p ≤ q)
    (pos : 0 < q) where
  touch_none : lreg ≡ reg_none → TouchRun sizes b lreg q (touch_lreg b lreg q)
  unfolding touch_lreg
  touch_none is_none =
      let test : (lreg == reg_none) ≡ true = ground arith in
      record {
        after = b;
        run = rw test refl;
        live = record {
          forest = live.forest;
          ended = λ t. omega (arith, live.ended t);
          ordered = live.ordered;
        };
        grows = Grows-refl b;
        covers = λ some_reg. absurd (some_reg is_none);
        moves = record { at = λ u. inl refl };
      }

  with_range-Moves :
      (t : ℕ) (roots : ℕ → ℕ) (range : RegRange)
      → RootOf b.lreg_aliases lreg t
      → Touches (b.lreg_ranges t) q range
      → Moves b (with_range sizes b p q live le pos t roots range) lreg q
  with_range-Moves t roots range is_root touched = record {
    at = λ u. elim (Bool-cases (t == u)) [
      | inl at_t ↦
          let e : t ≡ u = ground arith in
          inr (
            subst (λ v. RootOf b.lreg_aliases lreg v) e is_root,
            rw at_t (subst (λ v. Touches (b.lreg_ranges v) q range) e touched),
          )
      | inr other ↦ inl (rw other refl)
    ];
  }

  with_range-Covers :
      (t : ℕ) (roots : ℕ → ℕ) (range : RegRange)
      → RootOf roots lreg t
      → Touches (b.lreg_ranges t) q range
      → Covers (with_range sizes b p q live le pos t roots range) lreg q
  with_range-Covers t roots range is_root touched =
      let same : (t == t) ≡ true = ground arith in
      record {
        root = t;
        is_root = is_root;
        begun = rw (same, start_of) touched.begun;
        from = rw (same, start_of) touched.before;
        to = rw (same, end_of, touched.ends) (omega arith);
      }

  touch_some : lreg ≢ reg_none → lreg < b.num_regs → TouchRun sizes b lreg q (touch_lreg b lreg q)
  unfolding touch_lreg touch_root
  touch_some some_reg inside =
      let test : (lreg == reg_none) ≡ false = ground arith in
      let below : ltb lreg b.num_regs ≡ true = ground arith in
      let (t, roots, find, is_root, keeps, forest) =
        find_alias_reg-RootOf b.num_regs b.num_regs b.lreg_aliases sizes lreg live.forest
          (omega arith) in
      let (range, run, touched) =
        touch_range-Touches (b.lreg_ranges t) p q (live.ordered t) (live.ended t) le pos in
      record {
        after = with_range sizes b p q live le pos t roots range;
        run = rw (test, below, find, run) refl;
        live = with_range-IsLive sizes b p q live le pos t roots range touched forest;
        grows = with_range-Grows sizes b p q live le pos t roots range touched keeps;
        covers = λ h. with_range-Covers t roots range (keeps lreg t is_root) touched;
        moves = with_range-Moves t roots range is_root touched;
      }

  -- Touching a register ends, and no assertion fails.
  pub touch_lreg-TouchRun : IsLreg b lreg → TouchRun sizes b lreg q (touch_lreg b lreg q)
  touch_lreg-TouchRun h = elim (Bool-cases (lreg == reg_none)) [
    | inl is_none ↦ touch_none (ground arith)
    | inr some_reg ↦
        let other : lreg ≢ reg_none = λ e. ground arith in
        touch_some other (elim h [ inl is_none ↦ absurd (other is_none) | inr below ↦ below ])
  ]
