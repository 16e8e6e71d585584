-- ===== src/Jumps/Passes.antt =====
-- What an iteration of the loop of X64_elf_gen_instrs, in src/x64_gen/machine_code.c, does to the blocks.
use nibble.Prelude.{
  ℕ, ◌≤◌, ◌≡◌, refl, sym, ap, ◌∙◌, subst, Bool, true, false, Option, none, some, ◌==◌, arith, inl,
  inr, Bool-cases, update,
}
use nibble.Jumps.Relax.{
  offset_from, best_case_sizes, set_some, Jmp, Offset, TextBBlock, fits_in_byte, JmpUpdate, differ,
  update_jmp, set_offset, opcode_len_of, offset_len_of,
}
use nibble.Jumps.Offsets.{block_size, exact_offset, sizes_of}
use nibble.Jumps.Offsets.{FurtherThan-refl, FurtherThan-trans, exact_offset-FurtherThan}
use nibble.Jumps.Steps.{
  jmp_len, unwritten, written, IsBlock, no_jmp, with_jmp, with_offset, is_short,
  set_offset-with_offset, long_stays, size-jmp, size-with_offset,
}

abbrev pub AllBlocks : (ℕ → TextBBlock) → Type 0
AllBlocks f = (k : ℕ) → IsBlock (sizes_of f) k (f k)

-- A jump with the offset and the lengths that these sizes ask for
unfoldable pub IsExact : (ℕ → ℕ) → ℕ → TextBBlock → Type 0
IsExact sizes k b =
    (jmp : Jmp)
    → b.jmp_instr ≡ some jmp
    → (b.jmp_offset ≡ exact_offset sizes b.buffer_len k jmp)
      × (b.jmp_opcode_len ≡ opcode_len_of jmp (fits_in_byte b.jmp_offset))
      × (b.jmp_offset_len ≡ offset_len_of (fits_in_byte b.jmp_offset))

-- Blocks that have only grown
pub record Grows (f g : ℕ → TextBBlock) : Type 0 where
  pub len : (k : ℕ) → (g k).buffer_len ≡ (f k).buffer_len
  pub jmp : (k : ℕ) → (g k).jmp_instr ≡ (f k).jmp_instr
  pub size : (k : ℕ) → sizes_of f k ≤ sizes_of g k
  pub short : (k : ℕ) → is_short (g k) ≡ true → is_short (f k) ≡ true

pub Grows-refl : (f : ℕ → TextBBlock) → Grows f f
Grows-refl f = record {
  len = λ k. refl;
  jmp = λ k. refl;
  size = λ k. omega arith;
  short = λ k h. h;
}

pub Grows-trans : {f g h : ℕ → TextBBlock} → Grows f g → Grows g h → Grows f h
Grows-trans a b = record {
  len = λ k. b.len k ∙ a.len k;
  jmp = λ k. b.jmp k ∙ a.jmp k;
  size = λ k. omega (arith, a.size k, b.size k);
  short = λ k h. a.short k (b.short k h);
}

IsBlock-mono :
    (s t : ℕ → ℕ) → ((k : ℕ) → s k ≤ t k) → (i : ℕ) (b : TextBBlock) → IsBlock s i b → IsBlock t i b
IsBlock-mono s t h i b (no_jmp e op_len off_len) = no_jmp e op_len off_len
IsBlock-mono s t h i b (with_jmp jmp e (unwritten op_len off_len off)) =
    with_jmp jmp e (unwritten op_len off_len off)
IsBlock-mono s t h i b (with_jmp jmp e (written op_len off_len further)) = with_jmp jmp e (
    written op_len off_len
      (FurtherThan-trans further (exact_offset-FurtherThan s t h b.buffer_len i jmp)))

-- A block that may take the place of another
pub record Replaces (f : ℕ → TextBBlock) (i : ℕ) (b : TextBBlock) : Type 0 where
  pub len : b.buffer_len ≡ (f i).buffer_len
  pub jmp : b.jmp_instr ≡ (f i).jmp_instr
  pub size : sizes_of f i ≤ block_size b
  pub short : is_short b ≡ true → is_short (f i) ≡ true
  pub block : IsBlock (sizes_of f) i b

-- What holds of the new block and of the others holds of all.
pub update_elim :
    (P : ℕ → TextBBlock → Type 0) (f : ℕ → TextBBlock) (i : ℕ) (b : TextBBlock)
    → P i b
    → ((k : ℕ) → P k (f k))
    → (k : ℕ) → P k (update f i b k)
update_elim P f i b new others k = elim (Bool-cases (i == k)) [
  | inl e ↦ let same : i ≡ k = ground (arith, e) in rw e (subst (λ t. P t b) same new)
  | inr e ↦ rw e (others k)
]

pub update-Grows :
    (f : ℕ → TextBBlock) (i : ℕ) (b : TextBBlock) → Replaces f i b → Grows f (update f i b)
unfolding sizes_of
update-Grows f i b r = record {
  len = update_elim (λ k c. c.buffer_len ≡ (f k).buffer_len) f i b r.len (λ k. refl);
  jmp = update_elim (λ k c. c.jmp_instr ≡ (f k).jmp_instr) f i b r.jmp (λ k. refl);
  size = update_elim (λ k c. sizes_of f k ≤ block_size c) f i b r.size (λ k. omega arith);
  short = update_elim (λ k c. is_short c ≡ true → is_short (f k) ≡ true) f i b r.short (λ k h. h);
}

pub update-AllBlocks :
    (f : ℕ → TextBBlock) (i : ℕ) (b : TextBBlock)
    → AllBlocks f
    → Replaces f i b
    → AllBlocks (update f i b)
update-AllBlocks f i b all r =
    let g = update f i b in
    let grows = update-Grows f i b r in
    update_elim (λ k c. IsBlock (sizes_of g) k c) f i b
      (IsBlock-mono (sizes_of f) (sizes_of g) grows.size i b r.block)
      (λ k. IsBlock-mono (sizes_of f) (sizes_of g) grows.size k (f k) (all k))

-- What X64_update_jmp makes of a block: it either keeps the sizes, and the offset is then the one that they ask for,
-- or makes the jump long.
pub data Stepped (f : ℕ → TextBBlock) (i : ℕ) (o : Option JmpUpdate) : Type 0 where
  kept :
      (b : TextBBlock)
      → o ≡ some (record { bblock = b; changed_size = false })
      → Replaces f i b
      → block_size b ≡ sizes_of f i
      → IsExact (sizes_of f) i b
      → Stepped f i o
  made_long :
      (b : TextBBlock)
      → o ≡ some (record { bblock = b; changed_size = true })
      → Replaces f i b
      → is_short (f i) ≡ true
      → is_short b ≡ false
      → Stepped f i o

is_short-with_offset :
    (b : TextBBlock) (jmp : Jmp) (o : Offset) → is_short (with_offset b jmp o) ≡ fits_in_byte o
unfolding offset_len_of
is_short-with_offset b jmp o = elim (Bool-cases (fits_in_byte o)) [
  | inl e ↦ rw e refl
  | inr e ↦ rw e refl
]

jmp_len_mono : (jmp : Jmp) (s t : Bool) → (t ≡ true → s ≡ true) → jmp_len jmp s ≤ jmp_len jmp t
jmp_len_mono jmp true t h = ground arith
jmp_len_mono jmp false true h = absurd (cc (h refl))
jmp_len_mono jmp false false h = omega arith

some-injective : {a b : Jmp} → some a ≡ some b → a ≡ b
some-injective e = cc

set_lens :
    (b : TextBBlock) (x y : ℕ)
    → x ≡ b.jmp_opcode_len
    → y ≡ b.jmp_offset_len
    → record b { jmp_opcode_len = x; jmp_offset_len = y } ≡ b
set_lens b x y h k = rw (h, k) refl

update_jmp-none :
    (f : ℕ → TextBBlock) (i : ℕ) (b : TextBBlock) (j : Option Jmp)
    → j ≡ none
    → update_jmp f i b j
      ≡ some (record {
        bblock = record b { jmp_opcode_len = 0; jmp_offset_len = 0 };
        changed_size = false;
      })
unfolding update_jmp
update_jmp-none f i b j e = rw e refl

update_jmp-some :
    (f : ℕ → TextBBlock) (i : ℕ) (b : TextBBlock) (j : Option Jmp) (jmp : Jmp)
    → j ≡ some jmp
    → offset_from (best_case_sizes f) b.buffer_len i jmp
      ≡ some (exact_offset (sizes_of f) b.buffer_len i jmp)
    → update_jmp f i b j ≡ set_offset b jmp (exact_offset (sizes_of f) b.buffer_len i jmp)
unfolding update_jmp set_some
update_jmp-some f i b j jmp e exact = rw (e, exact) refl

differ_self_true : differ true true ≡ false
unfolding differ
differ_self_true = refl

differ_self_false : differ false false ≡ false
unfolding differ
differ_self_false = refl

differ-long : differ true false ≡ true
unfolding differ
differ-long = refl

-- No offset of the block wraps around.
pub record IsInRange (f : ℕ → TextBBlock) (i : ℕ) : Type 0 where
  pub exact :
      (jmp : Jmp)
      → (f i).jmp_instr ≡ some jmp
      → offset_from (best_case_sizes f) (f i).buffer_len i jmp
        ≡ some (exact_offset (sizes_of f) (f i).buffer_len i jmp)

pub update_jmp-Stepped :
    (f : ℕ → TextBBlock) (i : ℕ)
    → IsBlock (sizes_of f) i (f i)
    → IsInRange f i
    → Stepped f i (update_jmp f i (f i) (f i).jmp_instr)
unfolding sizes_of IsExact
update_jmp-Stepped f i (no_jmp e op_len off_len) in_range =
    kept (f i)
      (update_jmp-none f i (f i) (f i).jmp_instr e
        ∙ ap (λ t. some (record { bblock = t; changed_size = false }))
            (set_lens (f i) 0 0 (sym op_len) (sym off_len)))
      (record {
        len = refl;
        jmp = refl;
        size = omega arith;
        short = λ h. h;
        block = no_jmp e op_len off_len;
      })
      refl (λ jmp some_jmp. absurd (cc (e, some_jmp)))
update_jmp-Stepped f i (with_jmp jmp e is) in_range =
    let b = f i in
    let o = exact_offset (sizes_of f) b.buffer_len i jmp in
    let c = with_offset b jmp o in
    let new_size = size-with_offset jmp b o e in
    let old_size = size-jmp (sizes_of f) i jmp b e is in
    let short_is = is_short-with_offset b jmp o in
    let stays : fits_in_byte o ≡ true → is_short b ≡ true = λ fits. elim (Bool-cases (is_short b)) [
      | inl h ↦ h
      | inr h ↦ let far = long_stays (sizes_of f) i jmp b is h in absurd (cc (fits, far))
    ] in
    let longer = jmp_len_mono jmp (is_short b) (fits_in_byte o) stays in
    let replaces : Replaces f i c = record {
      len = refl;
      jmp = refl;
      size = omega (arith, new_size, old_size, longer);
      short = λ h. stays (sym short_is ∙ h);
      block = with_jmp jmp e (written refl refl (FurtherThan-refl o));
    } in
    let exact : IsExact (sizes_of f) i c = λ other some_other.
      let same : jmp ≡ other = some-injective (sym e ∙ some_other) in
      subst
        (λ t.
          (o ≡ exact_offset (sizes_of f) b.buffer_len i t)
          × (opcode_len_of jmp (fits_in_byte o) ≡ opcode_len_of t (fits_in_byte o))
          × (offset_len_of (fits_in_byte o) ≡ offset_len_of (fits_in_byte o)))
        same (refl, refl, refl) in
    let run =
      update_jmp-some f i b b.jmp_instr jmp e (in_range.exact jmp e)
      ∙ set_offset-with_offset (sizes_of f) i jmp b is in
    elim (Bool-cases (fits_in_byte o)) [
      | inl fits ↦
          let was = stays fits in
          kept c ((run ∙ rw (was, fits, differ_self_true) refl)) replaces
            (new_size ∙ (rw (fits, was) refl ∙ sym old_size)) exact
      | inr far ↦ elim (Bool-cases (is_short b)) [
        | inl was ↦
            made_long c ((run ∙ rw (was, far, differ-long) refl)) replaces was (short_is ∙ far)
        | inr was ↦
            kept c ((run ∙ rw (was, far, differ_self_false) refl)) replaces
              (new_size ∙ (rw (far, was) refl ∙ sym old_size)) exact
      ]
    ]
