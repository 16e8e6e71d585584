-- ===== src/Live/Spans.antt =====
-- XIR_compute_live_intervals of src/x64_gen/livevar.c: the range of a register reaches from the first
-- instruction that touches it to the last.
use mathlib.Core.Path.{fun_ext}
use nibble.Prelude.{ℕ, ◌+◌, ◌≡◌, ◌≢◌, ◌⊎◌, inl, refl, sym, ap, ◌∙◌, List, [], ◌∷◌, ◌++◌, arith}
use nibble.RegAlloc.State.{Builder, Outcome, ok, failed, aborted, ◌>>=◌, start_of, end_of}
use nibble.RegAlloc.Aliases.Find.{RootOf, IsForest}
use nibble.Live.Instrs.{reg_none, instr_lregs}
use nibble.Live.Intervals.{
  touch_lreg, touch_lregs, NumberedInstr, compute_bblock_live_intervals, compute_bblocks,
  compute_live_intervals,
}
use nibble.Live.Covers.{Grows-refl, Grows-trans, Covers, Covers-Grows, IsLreg, touch_lreg-TouchRun}
use nibble.Live.Touches.{Among, HasLregs, Moves-tight, Reached, Rising, compute-TouchedBy, last_ino}

-- The instructions of all blocks
unfoldable pub all_instrs : List (List NumberedInstr) → List NumberedInstr
all_instrs [] = []
all_instrs (bblock ∷ bblocks) = bblock ++ all_instrs bblocks

abbrev pub NoneEmpty : List (List NumberedInstr) → Type 0
NoneEmpty [] = Unit {0}
NoneEmpty ([] ∷ bblocks) = ⊥
NoneEmpty ((i ∷ bblock) ∷ bblocks) = NoneEmpty bblocks

>>=-assoc :
    {A B C : Type 0} (m : Outcome A) (f : A → Outcome B) (g : B → Outcome C)
    → ((m >>= f) >>= g) ≡ (m >>= λ a. (f a >>= g))
>>=-assoc (ok a) f g = refl
>>=-assoc failed f g = refl
>>=-assoc aborted f g = refl

compute_append :
    (xs ys : List NumberedInstr) (b : Builder) (last : ℕ)
    → compute_bblock_live_intervals b last (xs ++ ys) ≡ (
        compute_bblock_live_intervals b last xs >>= λ r.
        compute_bblock_live_intervals r.builder r.last ys)
unfolding compute_bblock_live_intervals
compute_append [] ys b last = refl
compute_append (x ∷ xs) ys b last =
    ap (λ k. touch_lregs b (instr_lregs x.instr) (x.ino + 1) >>= k)
      (fun_ext (λ b'. compute_append xs ys b' x.ino))
    ∙ sym (
        >>=-assoc (touch_lregs b (instr_lregs x.instr) (x.ino + 1))
          (λ b'. compute_bblock_live_intervals b' x.ino xs)
          (λ r. compute_bblock_live_intervals r.builder r.last ys))

-- Blocks that are not empty may be taken for one.
compute_bblocks-all :
    (bblocks : List (List NumberedInstr)) (b : Builder) (last : ℕ)
    → NoneEmpty bblocks
    → compute_bblocks b last bblocks ≡ compute_bblock_live_intervals b last (all_instrs bblocks)
unfolding compute_bblocks all_instrs compute_bblock_live_intervals
compute_bblocks-all [] b last full = refl
compute_bblocks-all ([] ∷ bblocks) b last full = absurd full
compute_bblocks-all ((i ∷ bblock) ∷ bblocks) b last full =
    ap (λ k. compute_bblock_live_intervals b last (i ∷ bblock) >>= k)
      (fun_ext (λ r. compute_bblocks-all bblocks r.builder r.last full))
    ∙ sym (compute_append (i ∷ bblock) (all_instrs bblocks) b last)

-- Before the computation no range has begun.
pub record IsUntouched (b : Builder) : Type 0 where
  pub starts : (t : ℕ) → start_of b t ≡ 0
  pub ends : (t : ℕ) → end_of b t ≡ 0

-- A touch of a register whose root is `u`, at the position `q`
pub data TouchedAt (b : Builder) (lreg_rbp : ℕ) (instrs : List NumberedInstr) (u q : ℕ)
    : Type 0 where
  by_instr :
      (i : NumberedInstr) (lreg : ℕ)
      → Among i instrs
      → Among lreg (instr_lregs i.instr)
      → RootOf b.lreg_aliases lreg u
      → q ≡ i.ino + 1
      → TouchedAt b lreg_rbp instrs u q
  by_rbp :
      RootOf b.lreg_aliases lreg_rbp u → q ≡ last_ino 0 instrs + 1 → TouchedAt b lreg_rbp instrs u q

-- What the computation comes to
pub record Spans (b : Builder) (lreg_rbp : ℕ) (instrs : List NumberedInstr) (o : Outcome Builder)
    : Type 0 where
  pub after : Builder
  pub run : o ≡ ok after
  pub roots : (x y : ℕ) → RootOf b.lreg_aliases x y → RootOf after.lreg_aliases x y
  pub covers :
      (i : NumberedInstr) (lreg : ℕ)
      → Among i instrs
      → Among lreg (instr_lregs i.instr)
      → lreg ≢ reg_none
      → Covers after lreg (i.ino + 1)
  pub covers_rbp : lreg_rbp ≢ reg_none → Covers after lreg_rbp (last_ino 0 instrs + 1)
  pub tight :
      (u : ℕ)
      → (start_of after u ≡ 0)
        ⊎ (TouchedAt b lreg_rbp instrs u (start_of after u)
            × TouchedAt b lreg_rbp instrs u (end_of after u))

module _ (sizes : ℕ → ℕ) (b : Builder) (lreg_rbp : ℕ) (instrs : List NumberedInstr)
    (forest : IsForest b.num_regs b.lreg_aliases sizes) (untouched : IsUntouched b)
    (rising : Rising 0 instrs) (lregs : HasLregs b instrs) (rbp_valid : IsLreg b lreg_rbp) where
  compute_flat-Spans :
      Spans b lreg_rbp instrs (
        compute_bblock_live_intervals b 0 instrs >>= λ r.
        touch_lreg r.builder lreg_rbp (r.last + 1))
  compute_flat-Spans =
      let P = TouchedAt b lreg_rbp instrs in
      let start : Reached P sizes b b 1 = record {
        live = record {
          forest = forest;
          ended = λ t. omega (arith, untouched.ends t);
          ordered = λ t. omega (arith, untouched.starts t);
        };
        grows = Grows-refl b;
        tight = λ u. inl (untouched.starts u);
      } in
      let c =
        compute-TouchedBy P sizes b forest instrs b 0 start rising lregs.valid
          (λ i lreg u there among root. by_instr i lreg there among root refl) in
      let q = last_ino 0 instrs + 1 in
      let t =
        touch_lreg-TouchRun sizes c.after q q lreg_rbp c.reached.live (omega arith) (omega arith)
          (rw c.reached.grows.regs rbp_valid) in
      record {
        after = t.after;
        run = rw c.run t.run;
        roots = (Grows-trans c.reached.grows t.grows).roots;
        covers = λ i lreg there among some_reg.
            Covers-Grows t.grows (c.covers i lreg there among some_reg);
        covers_rbp = t.covers;
        tight = Moves-tight P sizes b forest c.reached t.moves (λ u root. by_rbp root refl);
      }

-- On blocks none of which is empty, with numbers that do not go down, registers that are the procedure's
-- or none, an alias forest with sets of at most num_regs members and ranges that have not begun:
-- compute_live_intervals ends and no assertion of it fails. Each range of a root then reaches over all
-- instructions with a register of that root, starts and ends at such an instruction, or, for the root of RBP,
-- at the last one, and no register has changed its root.
pub compute_live_intervals-Spans :
    (sizes : ℕ → ℕ) (b : Builder) (lreg_rbp : ℕ) (bblocks : List (List NumberedInstr))
    → IsForest b.num_regs b.lreg_aliases sizes
    → IsUntouched b
    → NoneEmpty bblocks
    → Rising 0 (all_instrs bblocks)
    → HasLregs b (all_instrs bblocks)
    → IsLreg b lreg_rbp
    → Spans b lreg_rbp (all_instrs bblocks) (compute_live_intervals b lreg_rbp bblocks)
unfolding compute_live_intervals
compute_live_intervals-Spans sizes b lreg_rbp bblocks forest untouched full rising lregs rbp_valid =
    rw (compute_bblocks-all bblocks b 0 full) (
      compute_flat-Spans sizes b lreg_rbp (all_instrs bblocks) forest untouched rising lregs
        rbp_valid)
