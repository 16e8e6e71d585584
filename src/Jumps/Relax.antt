-- ===== src/Jumps/Relax.antt =====
-- X64_get_bblock_best_case_size, X64_update_jmp, and the loop of X64_elf_gen_instrs, in src/x64_gen/machine_code.c.
--
-- A block is known by the length of its buffer and by its jump. Sizes are s32, as their two's complements below
-- 2 ^ 32; an offset, an s32 too, has its sign apart. Sums wrap around.
use nibble.Prelude.{
  ℕ, zero, suc, ◌+◌, ◌-◌, ◌%◌, ◌^◌, Bool, true, false, not, ◌&&◌, ◌||◌, Option, none, some, ltb,
  leb, ◌==◌, if◌then◌else◌, update,
}

-- A jump, JMP or JMPCC, to the start of a block
pub record Jmp : Type 0 where
  pub target : ℕ
  pub is_jmpcc : Bool

-- An offset from the next instruction
pub data Offset : Type 0 where
  forward : ℕ → Offset
  backward : ℕ → Offset

-- X64_TextBBlock
pub record TextBBlock : Type 0 where
  pub buffer_len : ℕ
  pub jmp_instr : Option Jmp
  pub jmp_opcode_len : ℕ
  pub jmp_offset_len : ℕ
  pub jmp_offset : Offset

unfoldable pub has_jmp : TextBBlock → Bool
has_jmp b = elim b.jmp_instr [ none ↦ false | some jmp ↦ true ]

-- X64_get_bblock_best_case_size
unfoldable pub get_bblock_best_case_size : TextBBlock → ℕ
unfolding has_jmp
get_bblock_best_case_size b =
    let jmp_opcode_len = if b.jmp_opcode_len == 0 && has_jmp b then 1 else b.jmp_opcode_len in
    let jmp_offset_len = if b.jmp_offset_len == 0 && has_jmp b then 1 else b.jmp_offset_len in
    (b.buffer_len + jmp_opcode_len + jmp_offset_len) % 2 ^ 32

-- A number below 2 ^ 32 as an s32, and an s32 as its two's complement
unfoldable pub to_s32 : ℕ → Offset
to_s32 n =
    if ltb (n % 2 ^ 32) (2 ^ 31) then forward (n % 2 ^ 32) else backward (2 ^ 32 - n % 2 ^ 32)

unfoldable pub to_u32 : Offset → ℕ
to_u32 (forward n) = n
to_u32 (backward n) = 2 ^ 32 - n

-- `offset - k`; where a signed difference overflows, which C leaves undefined, it wraps around.
unfoldable pub minus : Offset → ℕ → Offset
unfolding to_s32 to_u32
minus offset k = to_s32 (to_u32 offset + (2 ^ 32 - k % 2 ^ 32))

-- The sum of `count` sizes from an index on
unfoldable pub sum_s32 : (ℕ → ℕ) → ℕ → ℕ → ℕ
sum_s32 sizes from zero = 0
sum_s32 sizes from (suc count) = (sizes from + sum_s32 sizes (suc from) count) % 2 ^ 32

-- `offset <= 0`
unfoldable pub is_at_most_0 : Offset → Bool
is_at_most_0 (forward n) = n == 0
is_at_most_0 (backward n) = true

-- `offset >= (-128 + 2)`
unfoldable pub leaves_short : Offset → Bool
leaves_short (forward n) = true
leaves_short (backward n) = leb n 126

-- The lengths of the jump itself, in a backward offset; none where the assertion fails.
unfoldable pub minus_own : Offset → Bool → Option Offset
unfolding minus is_at_most_0 leaves_short
minus_own offset is_jmpcc =
    if is_at_most_0 offset
    then some (minus offset (if leaves_short offset then 2 else if is_jmpcc then 6 else 5))
    else none

-- The offset of a jump behind `buffer_len` bytes of the block `src`
unfoldable pub offset_from : (ℕ → ℕ) → ℕ → ℕ → Jmp → Option Offset
unfolding sum_s32 to_s32 minus_own
offset_from sizes buffer_len src jmp =
    if ltb src jmp.target
    then some (to_s32 (sum_s32 sizes (src + 1) (jmp.target - (src + 1))))
    else minus_own
        (to_s32 (2 ^ 32 - (sum_s32 sizes jmp.target (src - jmp.target) + buffer_len) % 2 ^ 32))
        jmp.is_jmpcc

unfoldable pub fits_in_byte : Offset → Bool
fits_in_byte (forward n) = leb n 127
fits_in_byte (backward n) = leb n 128

unfoldable pub equals : Offset → Offset → Bool
equals (forward m) (forward n) = m == n
equals (backward m) (backward n) = m == n
equals (forward m) (backward n) = m == 0 && n == 0
equals (backward m) (forward n) = m == 0 && n == 0

unfoldable pub opcode_len_of : Jmp → Bool → ℕ
opcode_len_of jmp fits = if fits then 1 else if jmp.is_jmpcc then 2 else 1

unfoldable pub offset_len_of : Bool → ℕ
offset_len_of fits = if fits then 1 else 4

pub record JmpUpdate : Type 0 where
  pub bblock : TextBBlock
  pub changed_size : Bool

unfoldable pub differ : Bool → Bool → Bool
differ true b = not b
differ false b = b

-- A new offset of the jump; none where the assertion fails.
unfoldable pub set_offset : TextBBlock → Jmp → Offset → Option JmpUpdate
unfolding fits_in_byte equals opcode_len_of offset_len_of differ
set_offset b jmp offset =
    if b.jmp_opcode_len == 0 || b.jmp_offset_len == 0 || not (equals b.jmp_offset offset)
    then (if not (leb b.jmp_offset_len 1) || fits_in_byte b.jmp_offset
        then some (record {
          bblock = record b {
            jmp_opcode_len = opcode_len_of jmp (fits_in_byte offset);
            jmp_offset_len = offset_len_of (fits_in_byte offset);
            jmp_offset = offset;
          };
          changed_size = differ (leb b.jmp_offset_len 1) (fits_in_byte offset);
        })
        else none)
    else some (record { bblock = b; changed_size = false })

unfoldable pub best_case_sizes : (ℕ → TextBBlock) → ℕ → ℕ
unfolding get_bblock_best_case_size
best_case_sizes bblocks i = get_bblock_best_case_size (bblocks i)

unfoldable pub set_some : TextBBlock → Jmp → Option Offset → Option JmpUpdate
unfolding set_offset
set_some b jmp none = none
set_some b jmp (some offset) = set_offset b jmp offset

-- X64_update_jmp on the block of an index
unfoldable pub update_jmp : (ℕ → TextBBlock) → ℕ → TextBBlock → Option Jmp → Option JmpUpdate
unfolding set_offset offset_from best_case_sizes set_some
update_jmp bblocks i b none =
    some (record {
      bblock = record b { jmp_opcode_len = 0; jmp_offset_len = 0 };
      changed_size = false;
    })
update_jmp bblocks i b (some jmp) =
    set_some b jmp (offset_from (best_case_sizes bblocks) b.buffer_len i jmp)

pub record Pass : Type 0 where
  pub bblocks : ℕ → TextBBlock
  pub update_jmps : Bool

-- One iteration of the loop, from the block of an index on
unfoldable pub update_all : (count i : ℕ) → (ℕ → TextBBlock) → Bool → Option Pass
unfolding update_jmp
update_all zero i bblocks changed = some (record { bblocks = bblocks; update_jmps = changed })
update_all (suc count) i bblocks changed =
    elim (update_jmp bblocks i (bblocks i) (bblocks i).jmp_instr) [
      | none ↦ none
      | some u ↦ update_all count (suc i) (update bblocks i u.bblock) (u.changed_size || changed)
    ]

-- The loop of X64_elf_gen_instrs; none where the fuel runs out or an assertion fails.
unfoldable pub relax : (fuel num_bblocks : ℕ) → (ℕ → TextBBlock) → Option (ℕ → TextBBlock)
unfolding update_all
relax zero num_bblocks bblocks = none
relax (suc fuel) num_bblocks bblocks = elim (update_all num_bblocks 0 bblocks false) [
  | none ↦ none
  | some p ↦
      let again = relax fuel num_bblocks p.bblocks in
      elim p.update_jmps [ true ↦ again | false ↦ some p.bblocks ]
]
