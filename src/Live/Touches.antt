-- ===== src/Live/Touches.antt =====
-- src/x64_gen/livevar.c: what the touches of the registers of some instructions come to.
use nibble.Prelude.{ℕ, ◌+◌, ◌≤◌, ◌<◌, ◌≡◌, ◌≢◌, ◌⊎◌, inl, inr, refl, subst, List, [], ◌∷◌, arith}
use nibble.RegAlloc.State.{Builder, Outcome, ok, start_of, end_of}
use nibble.RegAlloc.Aliases.Find.{RootOf, RootOf-unique, IsForest, find_alias_reg-RootOf}
use nibble.Live.Instrs.{reg_none, instr_lregs}
use nibble.Live.Intervals.{touch_lregs, NumberedInstr, BblockResult, compute_bblock_live_intervals}
use nibble.Live.Covers.{
  IsLive, Grows, Grows-refl, Grows-trans, Covers, Covers-Grows, Moves, IsLreg, touch_lreg-TouchRun,
}

-- Standing in a list
pub data Among {ℓ} {A : Type ℓ} (x : A) : List A → Type ℓ where
  first : {xs : List A} → Among x (x ∷ xs)
  later : {y : A} {xs : List A} → Among x xs → Among x (y ∷ xs)

-- `b` was reached from `b0` by touches of which `P u q` tells the root and the position.
pub record Reached (P : ℕ → ℕ → Type 0) (sizes : ℕ → ℕ) (b0 b : Builder) (p : ℕ) : Type 0 where
  pub live : IsLive sizes b p
  pub grows : Grows b0 b
  pub tight : (u : ℕ) → (start_of b u ≡ 0) ⊎ (P u (start_of b u) × P u (end_of b u))

-- The roots of the start are those of any later state.
root_back :
    (sizes : ℕ → ℕ) (b0 b : Builder) (x y : ℕ)
    → IsForest b0.num_regs b0.lreg_aliases sizes
    → Grows b0 b
    → RootOf b.lreg_aliases x y
    → RootOf b0.lreg_aliases x y
root_back sizes b0 b x y forest g d =
    let (t, roots, find, is_root, keeps, after) =
      find_alias_reg-RootOf b0.num_regs b0.num_regs b0.lreg_aliases sizes x forest (omega arith) in
    subst (λ z. RootOf b0.lreg_aliases x z) (RootOf-unique (g.roots x t is_root) d) is_root

module _ (P : ℕ → ℕ → Type 0) (sizes : ℕ → ℕ) (b0 : Builder)
    (forest : IsForest b0.num_regs b0.lreg_aliases sizes) where
  pub Moves-tight :
      {b b' : Builder} {lreg p q : ℕ}
      → Reached P sizes b0 b p
      → Moves b b' lreg q
      → ((u : ℕ) → RootOf b0.lreg_aliases lreg u → P u q)
      → (u : ℕ) → (start_of b' u ≡ 0) ⊎ (P u (start_of b' u) × P u (end_of b' u))
  Moves-tight {b} {b'} {lreg} r m touched u = elim (m.at u) [
    | inl same ↦ rw (start_of, end_of, same) (r.tight u)
    | inr (is_root, t) ↦
        let here = touched u (root_back sizes b0 b lreg u forest r.grows is_root) in
        inr (
          elim t.starts [
            | inl now ↦ rw (start_of, now) here
            | inr kept ↦ elim (r.tight u) [
              | inl new ↦ absurd (omega (arith, t.begun, kept, new))
              | inr (starts, ends) ↦ rw (start_of, kept) starts
            ]
          ],
          rw (end_of, t.ends) here,
        )
  ]

  -- What touching a list of registers at `q` leads to
  record TouchedAll (b : Builder) (lregs : List ℕ) (q : ℕ) (o : Outcome Builder) : Type 0 where
    after : Builder
    run : o ≡ ok after
    reached : Reached P sizes b0 after q
    grows : Grows b after
    covers : (lreg : ℕ) → Among lreg lregs → lreg ≢ reg_none → Covers after lreg q

  Covers-both :
      {after : Builder} {q l : ℕ} {lregs : List ℕ}
      → (l ≢ reg_none → Covers after l q)
      → ((lreg : ℕ) → Among lreg lregs → lreg ≢ reg_none → Covers after lreg q)
      → (lreg : ℕ) → Among lreg (l ∷ lregs)
      → lreg ≢ reg_none
      → Covers after lreg q
  Covers-both head rest lreg first some_reg = head some_reg
  Covers-both head rest lreg (later among) some_reg = rest lreg among some_reg

  touch_lregs-TouchedAll :
      (lregs : List ℕ) (b : Builder) (p q : ℕ)
      → Reached P sizes b0 b p
      → p ≤ q
      → 0 < q
      → ((lreg : ℕ) → Among lreg lregs → IsLreg b0 lreg)
      → ((lreg u : ℕ) → Among lreg lregs → RootOf b0.lreg_aliases lreg u → P u q)
      → TouchedAll b lregs q (touch_lregs b lregs q)
  unfolding touch_lregs
  touch_lregs-TouchedAll [] b p q r le pos valid touched = record {
    after = b;
    run = refl;
    reached = record {
      live = record {
        forest = r.live.forest;
        ended = λ t. omega (arith, r.live.ended t);
        ordered = r.live.ordered;
      };
      grows = r.grows;
      tight = r.tight;
    };
    grows = Grows-refl b;
    covers = λ lreg among. elim among [ ];
  }
  touch_lregs-TouchedAll (l ∷ lregs) b p q r le pos valid touched =
      let t = touch_lreg-TouchRun sizes b p q l r.live le pos (rw r.grows.regs (valid l first)) in
      let r' : Reached P sizes b0 t.after q = record {
        live = t.live;
        grows = Grows-trans r.grows t.grows;
        tight = Moves-tight r t.moves (λ u. touched l u first);
      } in
      let rest =
        touch_lregs-TouchedAll lregs t.after q q r' (omega arith) pos
          (λ lreg among. valid lreg (later among)) (λ lreg u among. touched lreg u (later among)) in
      record {
        after = rest.after;
        run = rw t.run rest.run;
        reached = rest.reached;
        grows = Grows-trans t.grows rest.grows;
        covers = Covers-both (λ some_reg. Covers-Grows rest.grows (t.covers some_reg)) rest.covers;
      }

-- The numbers of the instructions do not go down.
abbrev pub Rising : ℕ → List NumberedInstr → Type 0
Rising last [] = Unit {0}
Rising last (i ∷ instrs) = (last ≤ i.ino) × Rising i.ino instrs

abbrev pub last_ino : ℕ → List NumberedInstr → ℕ
last_ino last [] = last
last_ino last (i ∷ instrs) = last_ino i.ino instrs

-- Each register of an instruction is one of the procedure's, or none.
pub record HasLregs (b : Builder) (instrs : List NumberedInstr) : Type 0 where
  pub valid :
      (i : NumberedInstr) (lreg : ℕ)
      → Among i instrs
      → Among lreg (instr_lregs i.instr)
      → IsLreg b lreg

module _ (P : ℕ → ℕ → Type 0) (sizes : ℕ → ℕ) (b0 : Builder)
    (forest : IsForest b0.num_regs b0.lreg_aliases sizes) where
  -- What going through a list of instructions leads to
  pub record TouchedBy (b : Builder) (last : ℕ) (instrs : List NumberedInstr)
      (o : Outcome BblockResult) : Type 0 where
    pub after : Builder
    pub run : o ≡ ok (record { builder = after; last = last_ino last instrs })
    pub reached : Reached P sizes b0 after (last_ino last instrs + 1)
    pub grows : Grows b after
    pub covers :
        (i : NumberedInstr) (lreg : ℕ)
        → Among i instrs
        → Among lreg (instr_lregs i.instr)
        → lreg ≢ reg_none
        → Covers after lreg (i.ino + 1)

  Covers-instrs :
      {after : Builder} {j : NumberedInstr} {instrs : List NumberedInstr}
      → ((lreg : ℕ)
          → Among lreg (instr_lregs j.instr)
          → lreg ≢ reg_none
          → Covers after lreg (j.ino + 1))
      → ((i : NumberedInstr) (lreg : ℕ)
          → Among i instrs
          → Among lreg (instr_lregs i.instr)
          → lreg ≢ reg_none
          → Covers after lreg (i.ino + 1))
      → (i : NumberedInstr) (lreg : ℕ) → Among i (j ∷ instrs)
      → Among lreg (instr_lregs i.instr)
      → lreg ≢ reg_none
      → Covers after lreg (i.ino + 1)
  Covers-instrs head rest i lreg first among some_reg = head lreg among some_reg
  Covers-instrs head rest i lreg (later there) among some_reg = rest i lreg there among some_reg

  pub compute-TouchedBy :
      (instrs : List NumberedInstr) (b : Builder) (last : ℕ)
      → Reached P sizes b0 b (last + 1)
      → Rising last instrs
      → ((i : NumberedInstr) (lreg : ℕ)
          → Among i instrs
          → Among lreg (instr_lregs i.instr)
          → IsLreg b0 lreg)
      → ((i : NumberedInstr) (lreg u : ℕ)
          → Among i instrs
          → Among lreg (instr_lregs i.instr)
          → RootOf b0.lreg_aliases lreg u
          → P u (i.ino + 1))
      → TouchedBy b last instrs (compute_bblock_live_intervals b last instrs)
  unfolding compute_bblock_live_intervals
  compute-TouchedBy [] b last r rising valid touched = record {
    after = b;
    run = refl;
    reached = r;
    grows = Grows-refl b;
    covers = λ i lreg among. elim among [ ];
  }
  compute-TouchedBy (i ∷ instrs) b last r (le, rising) valid touched =
      let t =
        touch_lregs-TouchedAll P sizes b0 forest (instr_lregs i.instr) b (last + 1) (i.ino + 1) r
          (omega arith) (omega arith) (λ lreg among. valid i lreg first among)
          (λ lreg u among. touched i lreg u first among) in
      let rest =
        compute-TouchedBy instrs t.after i.ino t.reached rising
          (λ j lreg there. valid j lreg (later there))
          (λ j lreg u there. touched j lreg u (later there)) in
      record {
        after = rest.after;
        run = rw t.run rest.run;
        reached = rest.reached;
        grows = Grows-trans t.grows rest.grows;
        covers =
            Covers-instrs
              (λ lreg among some_reg. Covers-Grows rest.grows (t.covers lreg among some_reg))
              rest.covers;
      }
