-- ===== src/Jumps/Steps.antt =====
-- What X64_update_jmp of src/x64_gen/machine_code.c does to a block.
use nibble.Prelude.{
  ℕ, ◌+◌, ◌≡◌, refl, sym, ◌∙◌, Bool, true, false, none, some, leb, ◌==◌, if◌then◌else◌, arith, inl,
  inr, Bool-cases,
}
use nibble.Jumps.Relax.{
  Jmp, Offset, forward, TextBBlock, has_jmp, fits_in_byte, equals, opcode_len_of, offset_len_of,
  differ, set_offset,
}
use nibble.Jumps.Offsets.{block_size, exact_offset}
use nibble.Jumps.Offsets.{FurtherThan, fits_in_byte-FurtherThan, equals-FurtherThan}

-- The length of a jump
abbrev pub jmp_len : Jmp → Bool → ℕ
jmp_len jmp fits = if fits then 2 else if jmp.is_jmpcc then 6 else 5

-- A jump that has not been written, or one that is written with the lengths that its offset asks for, and that is no
-- further than the sizes of the blocks ask for
pub data IsJmp (sizes : ℕ → ℕ) (i : ℕ) (jmp : Jmp) (b : TextBBlock) : Type 0 where
  unwritten :
      b.jmp_opcode_len ≡ 0 → b.jmp_offset_len ≡ 0 → b.jmp_offset ≡ forward 0 → IsJmp sizes i jmp b
  written :
      b.jmp_opcode_len ≡ opcode_len_of jmp (fits_in_byte b.jmp_offset)
      → b.jmp_offset_len ≡ offset_len_of (fits_in_byte b.jmp_offset)
      → FurtherThan b.jmp_offset (exact_offset sizes b.buffer_len i jmp)
      → IsJmp sizes i jmp b

-- A block with the jump at its end in this form, or without one
pub data IsBlock (sizes : ℕ → ℕ) (i : ℕ) (b : TextBBlock) : Type 0 where
  no_jmp : b.jmp_instr ≡ none → b.jmp_opcode_len ≡ 0 → b.jmp_offset_len ≡ 0 → IsBlock sizes i b
  with_jmp : (jmp : Jmp) → b.jmp_instr ≡ some jmp → IsJmp sizes i jmp b → IsBlock sizes i b

-- The block that X64_update_jmp leaves
abbrev pub with_offset : TextBBlock → Jmp → Offset → TextBBlock
with_offset b jmp offset = record b {
  jmp_opcode_len = opcode_len_of jmp (fits_in_byte offset);
  jmp_offset_len = offset_len_of (fits_in_byte offset);
  jmp_offset = offset;
}

abbrev pub is_short : TextBBlock → Bool
is_short b = leb b.jmp_offset_len 1

short_fits :
    (b : TextBBlock)
    → b.jmp_offset_len ≡ offset_len_of (fits_in_byte b.jmp_offset)
    → is_short b ≡ fits_in_byte b.jmp_offset
unfolding offset_len_of
short_fits b e = elim (Bool-cases (fits_in_byte b.jmp_offset)) [
  | inl f ↦ rw (e, f) refl
  | inr f ↦ rw (e, f) refl
]

some_opcode : (jmp : Jmp) (fits : Bool) → (opcode_len_of jmp fits == 0) ≡ false
unfolding opcode_len_of
some_opcode jmp fits = ground arith

some_offset : (fits : Bool) → (offset_len_of fits == 0) ≡ false
unfolding offset_len_of
some_offset fits = ground arith

differ_self : (t : Bool) → differ t t ≡ false
unfolding differ
differ_self true = refl
differ_self false = refl

-- A block with these lengths and this offset is the one that is left.
with_offset-same :
    (b : TextBBlock) (jmp : Jmp) (o : Offset)
    → b.jmp_offset ≡ o
    → b.jmp_opcode_len ≡ opcode_len_of jmp (fits_in_byte b.jmp_offset)
    → b.jmp_offset_len ≡ offset_len_of (fits_in_byte b.jmp_offset)
    → with_offset b jmp o ≡ b
with_offset-same b jmp o e op_len off_len = rw (sym e, sym op_len, sym off_len) refl

set_written :
    (b : TextBBlock) (jmp : Jmp) (o : Offset)
    → b.jmp_opcode_len ≡ opcode_len_of jmp (fits_in_byte b.jmp_offset)
    → b.jmp_offset_len ≡ offset_len_of (fits_in_byte b.jmp_offset)
    → FurtherThan b.jmp_offset o
    → set_offset b jmp o
      ≡ some (record {
        bblock = with_offset b jmp o;
        changed_size = differ (is_short b) (fits_in_byte o);
      })
unfolding set_offset
set_written b jmp o op_len off_len further =
    let no_first : (b.jmp_opcode_len == 0) ≡ false =
      rw op_len (some_opcode jmp (fits_in_byte b.jmp_offset)) in
    let no_second : (b.jmp_offset_len == 0) ≡ false =
      rw off_len (some_offset (fits_in_byte b.jmp_offset)) in
    let short = short_fits b off_len in
    elim (Bool-cases (equals b.jmp_offset o)) [
      | inl e ↦
          let same = equals-FurtherThan further e in
          let no_change : differ (is_short b) (fits_in_byte o) ≡ false =
            rw (short, sym same) (differ_self (fits_in_byte b.jmp_offset)) in
          rw (no_first, no_second, e, no_change, with_offset-same b jmp o same op_len off_len) refl
      | inr e ↦ elim (Bool-cases (fits_in_byte b.jmp_offset)) [
        | inl f ↦ rw (no_first, no_second, e, short, f) refl
        | inr f ↦ rw (no_first, no_second, e, short, f) refl
      ]
    ]

-- X64_update_jmp on a jump writes its offset, and says whether it no longer fits in a byte.
pub set_offset-with_offset :
    (sizes : ℕ → ℕ) (i : ℕ) (jmp : Jmp) (b : TextBBlock)
    → IsJmp sizes i jmp b
    → set_offset b jmp (exact_offset sizes b.buffer_len i jmp)
      ≡ some (record {
        bblock = with_offset b jmp (exact_offset sizes b.buffer_len i jmp);
        changed_size = differ (is_short b) (fits_in_byte (exact_offset sizes b.buffer_len i jmp));
      })
unfolding set_offset fits_in_byte
set_offset-with_offset sizes i jmp b (unwritten op_len off_len off) = rw (op_len, off_len, off) refl
set_offset-with_offset sizes i jmp b (written op_len off_len further) =
    set_written b jmp (exact_offset sizes b.buffer_len i jmp) op_len off_len further

-- A jump that is long stays long.
pub long_stays :
    (sizes : ℕ → ℕ) (i : ℕ) (jmp : Jmp) (b : TextBBlock)
    → IsJmp sizes i jmp b
    → is_short b ≡ false
    → fits_in_byte (exact_offset sizes b.buffer_len i jmp) ≡ false
long_stays sizes i jmp b (unwritten op_len off_len off) e = cc
long_stays sizes i jmp b (written op_len off_len further) e =
    fits_in_byte-FurtherThan further (sym (short_fits b off_len) ∙ e)

-- The size of a block with a jump
pub size-jmp :
    (sizes : ℕ → ℕ) (i : ℕ) (jmp : Jmp) (b : TextBBlock)
    → b.jmp_instr ≡ some jmp
    → IsJmp sizes i jmp b
    → block_size b ≡ b.buffer_len + jmp_len jmp (is_short b)
unfolding block_size has_jmp opcode_len_of offset_len_of
size-jmp sizes i jmp b some_jmp (unwritten op_len off_len off) =
    rw (op_len, off_len, some_jmp) (omega arith)
size-jmp sizes i jmp b some_jmp (written op_len off_len further) =
    elim (Bool-cases (fits_in_byte b.jmp_offset)) [
      | inl f ↦ rw (op_len, off_len, f) (omega arith)
      | inr f ↦ elim (Bool-cases jmp.is_jmpcc) [
        | inl c ↦ rw (op_len, off_len, f, c) (omega arith)
        | inr c ↦ rw (op_len, off_len, f, c) (omega arith)
      ]
    ]

pub size-with_offset :
    (jmp : Jmp) (b : TextBBlock) (o : Offset)
    → b.jmp_instr ≡ some jmp
    → block_size (with_offset b jmp o) ≡ b.buffer_len + jmp_len jmp (fits_in_byte o)
unfolding block_size has_jmp opcode_len_of offset_len_of
size-with_offset jmp b o some_jmp = elim (Bool-cases (fits_in_byte o)) [
  | inl f ↦ rw f (omega arith)
  | inr f ↦ elim (Bool-cases jmp.is_jmpcc) [
    | inl c ↦ rw (f, c) (omega arith)
    | inr c ↦ rw (f, c) (omega arith)
  ]
]
