-- ===== src/Jumps/Bounds.antt =====
-- The sizes and offsets of X64_update_jmp, in src/x64_gen/machine_code.c, for blocks that stay below 2 ^ 31 bytes: no s32
-- wraps around, and the assertion of the sign holds.
use nibble.Prelude.{
  ℕ, zero, suc, ◌+◌, ◌-◌, ◌%◌, ◌^◌, ◌≤◌, ◌<◌, ◌≡◌, refl, sym, ap, ◌∙◌, subst, Bool, true, false,
  some, ltb, leb, if◌then◌else◌, arith, inl, inr, Bool-cases,
}
use nibble.Jumps.Relax.{
  Jmp, forward, backward, TextBBlock, has_jmp, get_bblock_best_case_size, to_s32, to_u32, minus,
  sum_s32, is_at_most_0, leaves_short, minus_own, offset_from, best_case_sizes,
}
use nibble.Jumps.Offsets.{
  block_size, sizes_of, sum_sizes, exact_offset, sum_sizes_mono, sum_sizes-split,
}
use nibble.Jumps.Steps.{jmp_len, is_short, no_jmp, with_jmp, size-jmp}
use nibble.Jumps.Passes.{AllBlocks, Grows, IsInRange}

-- Blocks below an index whose bytes, with the longest jump for each, are less than 2 ^ 31, with jumps to one another
pub record IsSmall (n : ℕ) (f : ℕ → TextBBlock) : Type 0 where
  pub total : sum_sizes (λ k. (f k).buffer_len + 6) 0 n < 2 ^ 31
  pub target : (k : ℕ) (jmp : Jmp) → k < n → (f k).jmp_instr ≡ some jmp → jmp.target < n

pub IsSmall-Grows : (n : ℕ) {f g : ℕ → TextBBlock} → IsSmall n f → Grows f g → IsSmall n g
IsSmall-Grows n {f = f} {g = g} small grows = record {
  total =
      let same =
        sum_sizes_mono (λ k. (g k).buffer_len + 6) (λ k. (f k).buffer_len + 6)
          (λ k. omega (arith, grows.len k)) 0 n in
      omega (arith, same, small.total);
  target = λ k jmp h has. small.target k jmp h (sym (grows.jmp k) ∙ has);
}

block-below : (f : ℕ → TextBBlock) → AllBlocks f → (k : ℕ) → sizes_of f k ≤ (f k).buffer_len + 6
unfolding sizes_of block_size has_jmp
block-below f all k = elim (all k) [
  | no_jmp e op_len off_len ↦ rw (op_len, off_len, e) (omega arith)
  | with_jmp jmp e is ↦
      let size = size-jmp (sizes_of f) k jmp (f k) e is in
      let len : jmp_len jmp (is_short (f k)) ≤ 6 = ground arith in
      subst (λ t. t ≤ (f k).buffer_len + 6) (sym size) (omega (arith, len))
]

-- A part of a sum
part-below :
    (s : ℕ → ℕ) (from count n : ℕ) → from + count ≤ n → sum_sizes s from count ≤ sum_sizes s 0 n
part-below s from count n h =
    let at : 0 + from ≡ from = omega arith in
    let whole : from + (count + (n - (from + count))) ≡ n = omega arith in
    let first : sum_sizes s 0 (from + (count + (n - (from + count))))
        ≡ sum_sizes s 0 from + sum_sizes s from (count + (n - (from + count))) =
      subst
        (λ t.
          sum_sizes s 0 (from + (count + (n - (from + count))))
          ≡ sum_sizes s 0 from + sum_sizes s t (count + (n - (from + count))))
        at (sum_sizes-split s 0 from (count + (n - (from + count)))) in
    let all : sum_sizes s 0 n
        ≡ sum_sizes s 0 from + sum_sizes s from (count + (n - (from + count))) =
      subst
        (λ t.
          sum_sizes s 0 t ≡ sum_sizes s 0 from + sum_sizes s from (count + (n - (from + count))))
        whole first in
    omega (arith, all, sum_sizes-split s from count (n - (from + count)))

best_case-sizes : (f : ℕ → TextBBlock) (k : ℕ) → best_case_sizes f k ≡ sizes_of f k % 2 ^ 32
unfolding best_case_sizes get_bblock_best_case_size sizes_of block_size
best_case-sizes f k = refl

sum_s32-exact :
    (f : ℕ → TextBBlock) (from count : ℕ)
    → sum_sizes (sizes_of f) from count < 2 ^ 32
    → sum_s32 (best_case_sizes f) from count ≡ sum_sizes (sizes_of f) from count
unfolding sum_s32 sum_sizes
sum_s32-exact f from zero h = refl
sum_s32-exact f from (suc count) h =
    omega (arith, best_case-sizes f from, sum_s32-exact f (suc from) count (omega (arith, h)))

to_s32-forward : (n : ℕ) → n < 2 ^ 31 → to_s32 n ≡ forward n
unfolding to_s32
to_s32-forward n h =
    let low : n % 2 ^ 32 ≡ n = omega arith in
    let small : ltb n (2 ^ 31) ≡ true = ground arith in rw (low, small) refl

to_s32_mod : (m n : ℕ) → m % 2 ^ 32 ≡ n → to_s32 m ≡ to_s32 n
unfolding to_s32
to_s32_mod m n h = let low : n % 2 ^ 32 ≡ n = omega (arith, h) in rw (h, low) refl

to_s32-backward : (n : ℕ) → 0 < n → n < 2 ^ 31 → to_s32 (2 ^ 32 - n) ≡ backward n
unfolding to_s32
to_s32-backward n more h =
    let low : (2 ^ 32 - n) % 2 ^ 32 ≡ 2 ^ 32 - n = omega arith in
    let large : ltb (2 ^ 32 - n) (2 ^ 31) ≡ false = ground arith in
    let back : 2 ^ 32 - (2 ^ 32 - n) ≡ n = omega arith in rw (low, large, back) refl

minus-backward : (n k : ℕ) → 0 < k → n + k < 2 ^ 31 → minus (backward n) k ≡ backward (n + k)
unfolding minus to_u32
minus-backward n k more h =
    let same : (2 ^ 32 - n + (2 ^ 32 - k % 2 ^ 32)) % 2 ^ 32 ≡ 2 ^ 32 - (n + k) = omega arith in
    to_s32_mod (2 ^ 32 - n + (2 ^ 32 - k % 2 ^ 32)) (2 ^ 32 - (n + k)) same
    ∙ to_s32-backward (n + k) (omega arith) h

minus_own-none_before : (cc : Bool) → minus_own (to_s32 (2 ^ 32)) cc ≡ some (backward 2)
unfolding minus_own minus to_s32 to_u32 is_at_most_0 leaves_short
minus_own-none_before cc = refl

-- The lengths of the jump itself, behind `back` bytes
minus_own-backward :
    (back : ℕ) (cc : Bool)
    → back + 6 < 2 ^ 31
    → minus_own (to_s32 (2 ^ 32 - back % 2 ^ 32)) cc
      ≡ some (backward (back + (if leb back 126 then 2 else if cc then 6 else 5)))
unfolding minus_own is_at_most_0 leaves_short
minus_own-backward zero cc h = minus_own-none_before cc
minus_own-backward (suc back) cc h =
    let low : suc back % 2 ^ 32 ≡ suc back = omega arith in
    let own : ℕ = if leb (suc back) 126 then 2 else if cc then 6 else 5 in
    let own_more : 0 < own = ground arith in
    let own_less : own ≤ 6 = ground arith in
    rw (low, to_s32-backward (suc back) (omega arith) (omega (arith, h)))
      (ap some (minus-backward (suc back) own own_more (omega (arith, own_less, h))))

last_of_sum :
    (s : ℕ → ℕ) (from count : ℕ)
    → sum_sizes s from (count + 1) ≡ sum_sizes s from count + s (from + count)
unfolding sum_sizes
last_of_sum s from count = omega (arith, sum_sizes-split s from count 1)

-- In blocks that are small, no offset wraps around.
pub IsSmall-IsInRange :
    (n : ℕ) (f : ℕ → TextBBlock) → AllBlocks f → IsSmall n f → (i : ℕ) → i < n → IsInRange f i
unfolding offset_from exact_offset
IsSmall-IsInRange n f all small i h = record {
  exact = λ jmp has.
      let len = (f i).buffer_len in
      let bound : ℕ → ℕ = λ k. (f k).buffer_len + 6 in
      let target = small.target i jmp h has in
      let below = sum_sizes_mono (sizes_of f) bound (block-below f all) in
      elim (Bool-cases (ltb i jmp.target)) [
        | inl e ↦
            let count = jmp.target - (i + 1) in
            let part = part-below bound (i + 1) count n (ground (arith, e, target)) in
            let less : sum_sizes (sizes_of f) (i + 1) count < 2 ^ 31 =
              omega (arith, below (i + 1) count, part, small.total) in
            let exact = sum_s32-exact f (i + 1) count (omega (arith, less)) in
            rw e (rw (exact, to_s32-forward (sum_sizes (sizes_of f) (i + 1) count) less) refl)
        | inr e ↦
            let count = i - jmp.target in
            let at : jmp.target + count ≡ i = ground (arith, e) in
            let part = part-below bound jmp.target (count + 1) n (omega (arith, at, h)) in
            let last : sum_sizes bound jmp.target (count + 1)
                ≡ sum_sizes bound jmp.target count + (len + 6) =
              last_of_sum bound jmp.target count
              ∙ ap (λ t. sum_sizes bound jmp.target count + bound t) at in
            let less : sum_sizes (sizes_of f) jmp.target count + len + 6 < 2 ^ 31 =
              omega (arith, below jmp.target count, part, last, small.total) in
            let exact = sum_s32-exact f jmp.target count (omega (arith, less)) in
            rw e (
              rw exact (
                minus_own-backward (sum_sizes (sizes_of f) jmp.target count + len) jmp.is_jmpcc
                  less))
      ];
}
