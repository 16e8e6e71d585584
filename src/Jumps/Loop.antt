-- ===== src/Jumps/Loop.antt =====
-- The iterations of the loop of X64_elf_gen_instrs in src/x64_gen/machine_code.c, and that they come to an end.
use nibble.Prelude.{
  ℕ, zero, suc, ◌+◌, ◌≤◌, ◌<◌, ◌≡◌, refl, sym, ◌∙◌, subst, Bool, true, false, ◌||◌, Option, some,
  ◌==◌, arith, inl, inr, Bool-cases, update,
}
use mathlib.Core.Path.{fun_ext}
use nibble.Jumps.Relax.{TextBBlock, JmpUpdate, update_jmp, Pass, update_all}
use nibble.Jumps.Bounds.{IsSmall, IsSmall-Grows, IsSmall-IsInRange}
use nibble.Jumps.Offsets.{block_size, sum_sizes, sizes_of}
use nibble.Jumps.Offsets.{sum_sizes_mono}
use nibble.Jumps.Steps.{is_short}
use nibble.Jumps.Passes.{
  AllBlocks, IsExact, Grows, Grows-refl, Grows-trans, Replaces, update_elim, update-Grows,
  update-AllBlocks, kept, made_long, update_jmp-Stepped,
}

abbrev pub one_if : Bool → ℕ
one_if true = 1
one_if false = 0

-- The number of short jumps, and of blocks without one, below an index
abbrev pub shorts : ℕ → (ℕ → TextBBlock) → ℕ
shorts n f = sum_sizes (λ k. one_if (is_short (f k))) 0 n

one_if_mono : (s t : Bool) → (s ≡ true → t ≡ true) → one_if s ≤ one_if t
one_if_mono false t h = omega arith
one_if_mono true true h = omega arith
one_if_mono true false h = absurd (cc (h refl))

shorts-Grows : (n : ℕ) (f g : ℕ → TextBBlock) → Grows f g → shorts n g ≤ shorts n f
shorts-Grows n f g grows =
    sum_sizes_mono (λ k. one_if (is_short (g k))) (λ k. one_if (is_short (f k)))
      (λ k. one_if_mono (is_short (g k)) (is_short (f k)) (grows.short k)) 0 n

sum_sizes-less :
    (s t : ℕ → ℕ)
    → ((k : ℕ) → s k ≤ t k)
    → (i from count : ℕ) → from ≤ i
    → i < from + count
    → s i + 1 ≤ t i
    → sum_sizes s from count + 1 ≤ sum_sizes t from count
unfolding sum_sizes
sum_sizes-less s t h i from zero low high less = absurd (omega (arith, low, high))
sum_sizes-less s t h i from (suc count) low high less = elim (Bool-cases (from == i)) [
  | inl e ↦
      let same : i ≡ from = ground (arith, e) in
      let here : s from + 1 ≤ t from = subst (λ k. s k + 1 ≤ t k) same less in
      omega (arith, here, sum_sizes_mono s t h (suc from) count)
  | inr e ↦
      let past : suc from ≤ i = ground (arith, e, low) in
      omega (arith, h from, sum_sizes-less s t h i (suc from) count past (omega (arith, high)) less)
]

-- What an iteration gives: blocks that have grown. Where no size has changed, each jump has the offset that the sizes
-- ask for; otherwise a jump has become long.
pub data PassOk (f : ℕ → TextBBlock) (i count : ℕ) (changed : Bool) (o : Option Pass) : Type 0 where
  pass_ok :
      (g : ℕ → TextBBlock) (t : Bool)
      → o ≡ some (record { bblocks = g; update_jmps = t })
      → AllBlocks g
      → Grows f g
      → ((k : ℕ) → k < i → g k ≡ f k)
      → (t ≡ false
          → (changed ≡ false)
            × ((k : ℕ) → sizes_of g k ≡ sizes_of f k)
            × ((k : ℕ) → i ≤ k → k < i + count → IsExact (sizes_of g) k (g k)))
      → ((n : ℕ) → i + count ≤ n → shorts n g + one_if t ≤ shorts n f + one_if changed)
      → PassOk f i count changed o

update_self : (f : ℕ → TextBBlock) (i : ℕ) (b : TextBBlock) → update f i b i ≡ b
update_self f i b = let e : (i == i) ≡ true = ground arith in rw e refl

update-other : (f : ℕ → TextBBlock) (i k : ℕ) (b : TextBBlock) → k < i → update f i b k ≡ f k
update-other f i k b h = let e : (i == k) ≡ false = ground arith in rw e refl

update-long :
    (f : ℕ → TextBBlock) (i : ℕ) (b : TextBBlock) (n : ℕ)
    → Replaces f i b
    → is_short (f i) ≡ true
    → is_short b ≡ false
    → i < n
    → shorts n (update f i b) + 1 ≤ shorts n f
update-long f i b n r was now h =
    let g = update f i b in
    let grows = update-Grows f i b r in
    let self = update_self f i b in
    sum_sizes-less (λ k. one_if (is_short (g k))) (λ k. one_if (is_short (f k)))
      (λ k. one_if_mono (is_short (g k)) (is_short (f k)) (grows.short k)) i 0 n (omega arith)
      (omega (arith, h)) (rw (self, now, was) (omega arith))

update_all-suc :
    (count i : ℕ) (f : ℕ → TextBBlock) (changed : Bool) (u : JmpUpdate)
    → update_jmp f i (f i) (f i).jmp_instr ≡ some u
    → update_all (suc count) i f changed
      ≡ update_all count (suc i) (update f i u.bblock) (u.changed_size || changed)
unfolding update_all
update_all-suc count i f changed u e = rw (update_all, e) refl

update-sizes :
    (f : ℕ → TextBBlock) (i : ℕ) (b : TextBBlock)
    → block_size b ≡ sizes_of f i
    → (k : ℕ) → sizes_of (update f i b) k ≡ sizes_of f k
unfolding sizes_of
update-sizes f i b same = update_elim (λ k c. block_size c ≡ sizes_of f k) f i b same (λ k. refl)

-- The block of an index has kept its sizes, and so have the ones behind it.
IsExact-here :
    (f g : ℕ → TextBBlock) (i count : ℕ) (b : TextBBlock)
    → IsExact (sizes_of f) i b
    → g i ≡ b
    → ((k : ℕ) → sizes_of g k ≡ sizes_of f k)
    → ((k : ℕ) → suc i ≤ k → k < suc i + count → IsExact (sizes_of g) k (g k))
    → (k : ℕ) → i ≤ k
    → k < i + suc count
    → IsExact (sizes_of g) k (g k)
IsExact-here f g i count b exact here same behind k low high = elim (Bool-cases (i == k)) [
  | inl e ↦
      let at_k : i ≡ k = ground (arith, e) in
      let sizes : sizes_of f ≡ sizes_of g = fun_ext (λ k. sym (same k)) in
      subst (λ j. IsExact (sizes_of g) j (g j)) at_k
        (subst (λ c. IsExact (sizes_of g) i c) (sym here) (subst (λ s. IsExact s i b) sizes exact))
  | inr e ↦ behind k (ground (arith, e, low)) (omega (arith, high))
]

pub update_all-PassOk :
    (n count i : ℕ) (f : ℕ → TextBBlock) (changed : Bool)
    → AllBlocks f
    → IsSmall n f
    → i + count ≤ n
    → PassOk f i count changed (update_all count i f changed)
unfolding update_all
update_all-PassOk n zero i f changed all small low =
    pass_ok f changed refl all (Grows-refl f) (λ k h. refl)
      (λ e. (e, λ k. refl, λ k low high. absurd (omega (arith, low, high)))) (λ n h. omega arith)
update_all-PassOk n (suc count) i f changed all small low =
    elim (update_jmp-Stepped f i (all i) (IsSmall-IsInRange n f all small i (omega (arith, low)))) [
      | kept b run r same exact ↦
          let f' = update f i b in
          let grows' = update-Grows f i b r in
          elim (update_all-PassOk n count (suc i) f' changed (update-AllBlocks f i b all r)
            (IsSmall-Grows n small grows') (omega (arith, low))) [
              | pass_ok g t rest all' grows before quiet fewer ↦
                  pass_ok g t
                    (update_all-suc count i f changed (record { bblock = b; changed_size = false })
                        run
                      ∙ rest)
                    all' (Grows-trans grows' grows)
                    (λ k h. before k (omega (arith, h)) ∙ update-other f i k b h)
                    (λ e.
                      let q = quiet e in
                      let sizes : (k : ℕ) → sizes_of g k ≡ sizes_of f k =
                        λ k. q.1 k ∙ update-sizes f i b same k in
                      (
                        q.0,
                        sizes,
                        IsExact-here f g i count b exact
                            (before i (omega arith) ∙ update_self f i b) sizes q.2,
                      ))
                    (λ n h. omega (arith, fewer n (omega (arith, h)), shorts-Grows n f f' grows'))
            ]
      | made_long b run r was now ↦
          let f' = update f i b in
          let grows' = update-Grows f i b r in
          elim (update_all-PassOk n count (suc i) f' true (update-AllBlocks f i b all r)
            (IsSmall-Grows n small grows') (omega (arith, low))) [
              | pass_ok g t rest all' grows before quiet fewer ↦
                  pass_ok g t
                    (update_all-suc count i f changed (record { bblock = b; changed_size = true })
                        run
                      ∙ rest)
                    all' (Grows-trans grows' grows)
                    (λ k h. before k (omega (arith, h)) ∙ update-other f i k b h)
                    (λ e. absurd (let q = (quiet e).0 in cc q))
                    (λ n h. omega (
                      arith,
                      fewer n (omega (arith, h)),
                      update-long f i b n r was now (omega (arith, h)),
                    ))
            ]
    ]
