-- ===== src/Jumps/Lands.antt =====
-- Where the jumps of X64_elf_gen_instrs, in src/x64_gen/machine_code.c, lead when the loop has ended.
use nibble.Prelude.{
  ℕ, zero, suc, ◌+◌, ◌-◌, ◌≤◌, ◌<◌, ◌≡◌, refl, sym, ap, ◌∙◌, subst, Bool, true, false, some, ltb,
  leb, ◌==◌, if◌then◌else◌, arith, inl, inr, Bool-cases,
}
use nibble.Jumps.Relax.{
  Jmp, Offset, forward, backward, TextBBlock, has_jmp, fits_in_byte, opcode_len_of, offset_len_of,
}
use nibble.Jumps.Offsets.{block_size, sum_sizes, exact_offset, sizes_of}
use nibble.Jumps.Offsets.{sum_sizes-split}
use nibble.Jumps.Steps.{jmp_len, IsBlock, no_jmp, with_jmp}
use nibble.Jumps.Passes.{AllBlocks, IsExact}

-- The bytes of a block in the text
unfoldable pub written_len : TextBBlock → ℕ
written_len b = b.buffer_len + b.jmp_opcode_len + b.jmp_offset_len

-- Where a block starts in the text
unfoldable pub start_of_block : (ℕ → TextBBlock) → ℕ → ℕ
unfolding sum_sizes written_len
start_of_block g k = sum_sizes (λ j. written_len (g j)) 0 k

-- From the instruction behind a jump, an offset leads to a position.
unfoldable pub Leads : Offset → ℕ → ℕ → Type 0
Leads (forward m) next position = position ≡ next + m
Leads (backward m) next position = position + m ≡ next

-- The offset of the jump of a block leads to the start of its target, in one byte where it fits and in four
-- otherwise, with the opcode that this asks for.
pub record LandsAt (n : ℕ) (g : ℕ → TextBBlock) (k : ℕ) (jmp : Jmp) : Type 0 where
  pub leads : Leads (g k).jmp_offset (start_of_block g (k + 1)) (start_of_block g jmp.target)
  pub opcode_len : (g k).jmp_opcode_len ≡ opcode_len_of jmp (fits_in_byte (g k).jmp_offset)
  pub offset_len : (g k).jmp_offset_len ≡ offset_len_of (fits_in_byte (g k).jmp_offset)

sum_sizes-cong :
    (s t : ℕ → ℕ) (from count : ℕ)
    → ((k : ℕ) → k < from + count → s k ≡ t k)
    → sum_sizes s from count ≡ sum_sizes t from count
unfolding sum_sizes
sum_sizes-cong s t from zero h = refl
sum_sizes-cong s t from (suc count) h = omega (
  arith,
  h from (omega arith),
  sum_sizes-cong s t (suc from) count (λ k low. h k (omega (arith, low))),
)

sum_one : (s : ℕ → ℕ) (from : ℕ) → sum_sizes s from 1 ≡ s from
unfolding sum_sizes
sum_one s from = omega arith

-- A backward offset fits in a byte exactly when the short form was assumed for it.
fits_back :
    (back : ℕ) (cc : Bool)
    → fits_in_byte (backward (back + (if leb back 126 then 2 else if cc then 6 else 5)))
      ≡ leb back 126
unfolding fits_in_byte
fits_back back cc = ground arith

-- The length of a block with a jump of these lengths
written_len-jmp :
    (b : TextBBlock) (jmp : Jmp) (fits : Bool)
    → b.jmp_opcode_len ≡ opcode_len_of jmp fits
    → b.jmp_offset_len ≡ offset_len_of fits
    → written_len b ≡ b.buffer_len + jmp_len jmp fits
unfolding written_len opcode_len_of offset_len_of
written_len-jmp b jmp true op_len off_len = rw (op_len, off_len) (omega arith)
written_len-jmp b jmp false op_len off_len = elim (Bool-cases jmp.is_jmpcc) [
  | inl c ↦ rw (op_len, off_len, c) (omega arith)
  | inr c ↦ rw (op_len, off_len, c) (omega arith)
]

sum_behind :
    (s : ℕ → ℕ) (t r : ℕ)
    → t ≤ r
    → sum_sizes s 0 (r + 1) ≡ sum_sizes s 0 t + (sum_sizes s t (r - t) + s r)
sum_behind s t r h =
    let zero_plus : 0 + t ≡ t = omega arith in
    let at_r : t + (r - t) ≡ r = omega arith in
    let whole : t + (r - t + 1) ≡ r + 1 = omega arith in
    let first : sum_sizes s 0 (t + (r - t + 1)) ≡ sum_sizes s 0 t + sum_sizes s t (r - t + 1) =
      subst (λ u. sum_sizes s 0 (t + (r - t + 1)) ≡ sum_sizes s 0 t + sum_sizes s u (r - t + 1))
        zero_plus (sum_sizes-split s 0 t (r - t + 1)) in
    let second : sum_sizes s t (r - t + 1) ≡ sum_sizes s t (r - t) + s r =
      subst (λ u. sum_sizes s t (r - t + 1) ≡ sum_sizes s t (r - t) + u)
        (sum_one s (t + (r - t)) ∙ ap s at_r) (sum_sizes-split s t (r - t) 1) in
    ap (sum_sizes s 0) (sym whole) ∙ (first ∙ ap (λ u. sum_sizes s 0 t + u) second)

-- The offset that some sizes ask for leads to the target, in a text of these sizes.
exact_offset-Leads :
    (s : ℕ → ℕ) (len src : ℕ) (jmp : Jmp)
    → s src ≡ len + jmp_len jmp (fits_in_byte (exact_offset s len src jmp))
    → Leads (exact_offset s len src jmp) (sum_sizes s 0 (src + 1)) (sum_sizes s 0 jmp.target)
unfolding exact_offset Leads
exact_offset-Leads s len src jmp own = elim (Bool-cases (ltb src jmp.target)) [
  | inl e ↦
      let whole : src + 1 + (jmp.target - (src + 1)) ≡ jmp.target = ground (arith, e) in
      let start : 0 + (src + 1) ≡ src + 1 = omega arith in
      let split = sum_sizes-split s 0 (src + 1) (jmp.target - (src + 1)) in
      rw e (
        subst
          (λ t.
            sum_sizes s 0 t
            ≡ sum_sizes s 0 (src + 1) + sum_sizes s (src + 1) (jmp.target - (src + 1)))
          whole
          (subst
            (λ t.
              sum_sizes s 0 (src + 1 + (jmp.target - (src + 1)))
              ≡ sum_sizes s 0 (src + 1) + sum_sizes s t (jmp.target - (src + 1)))
            start split))
  | inr e ↦
      let back = sum_sizes s jmp.target (src - jmp.target) + len in
      let own_len : ℕ = if leb back 126 then 2 else if jmp.is_jmpcc then 6 else 5 in
      let offset_is : exact_offset s len src jmp ≡ backward (back + own_len) = rw e refl in
      let src_len : s src ≡ len + own_len =
        own
        ∙ (ap (λ o. len + jmp_len jmp (fits_in_byte o)) offset_is
            ∙ ap (λ t. len + jmp_len jmp t) (fits_back back jmp.is_jmpcc)) in
      let behind = sum_behind s jmp.target src (ground (arith, e)) in
      rw e (omega (arith, behind, src_len))
]

some_lens :
    (jmp : Jmp) (fits : Bool)
    → ((opcode_len_of jmp fits == 0) ≡ false) × ((offset_len_of fits == 0) ≡ false)
unfolding opcode_len_of offset_len_of
some_lens jmp fits = (ground arith, ground arith)

-- Once its jump is written, a block has its best size.
sizes_written :
    (g : ℕ → TextBBlock) (j : ℕ)
    → IsBlock (sizes_of g) j (g j)
    → IsExact (sizes_of g) j (g j)
    → sizes_of g j ≡ written_len (g j)
unfolding sizes_of block_size written_len has_jmp IsExact
sizes_written g j (no_jmp e op_len off_len) exact = rw (op_len, off_len) (rw e refl)
sizes_written g j (with_jmp jmp e is) exact =
    let lens = exact jmp e in
    let nonzero = some_lens jmp (fits_in_byte (g j).jmp_offset) in
    let no_first : ((g j).jmp_opcode_len == 0) ≡ false = rw lens.1 nonzero.0 in
    let no_second : ((g j).jmp_offset_len == 0) ≡ false = rw lens.2 nonzero.1 in
    rw (no_first, no_second) refl

-- Blocks that have their sizes, and the jumps the offsets that these ask for
pub settled-LandsAt :
    (n : ℕ) (g : ℕ → TextBBlock)
    → AllBlocks g
    → ((k : ℕ) → k < n → IsExact (sizes_of g) k (g k))
    → (k : ℕ) (jmp : Jmp) → k < n
    → jmp.target < n
    → (g k).jmp_instr ≡ some jmp
    → LandsAt n g k jmp
unfolding IsExact start_of_block
settled-LandsAt n g all exact k jmp h target has =
    let here = exact k h jmp has in
    let sizes : (j : ℕ) → j < n → sizes_of g j ≡ written_len (g j) =
      λ j below. sizes_written g j (all j) (exact j below) in
    let own : sizes_of g k
        ≡ (g k).buffer_len
          + jmp_len jmp (fits_in_byte (exact_offset (sizes_of g) (g k).buffer_len k jmp)) =
      sizes k h
      ∙ (written_len-jmp (g k) jmp (fits_in_byte (g k).jmp_offset) here.1 here.2
          ∙ ap (λ o. (g k).buffer_len + jmp_len jmp (fits_in_byte o)) here.0) in
    let leads = exact_offset-Leads (sizes_of g) (g k).buffer_len k jmp own in
    let next : sum_sizes (sizes_of g) 0 (k + 1) ≡ start_of_block g (k + 1) =
      sum_sizes-cong (sizes_of g) (λ j. written_len (g j)) 0 (k + 1)
        (λ j low. sizes j (omega (arith, low, h))) in
    let position : sum_sizes (sizes_of g) 0 jmp.target ≡ start_of_block g jmp.target =
      sum_sizes-cong (sizes_of g) (λ j. written_len (g j)) 0 jmp.target
        (λ j low. sizes j (omega (arith, low, target))) in
    record {
      leads =
          subst (λ o. Leads o (start_of_block g (k + 1)) (start_of_block g jmp.target)) (sym here.0)
            (subst
              (λ t.
                Leads (exact_offset (sizes_of g) (g k).buffer_len k jmp) (start_of_block g (k + 1))
                  t)
              position
              (subst
                (λ t.
                  Leads (exact_offset (sizes_of g) (g k).buffer_len k jmp) t
                    (sum_sizes (sizes_of g) 0 jmp.target))
                next leads));
      opcode_len = here.1;
      offset_len = here.2;
    }
