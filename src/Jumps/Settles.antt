-- ===== src/Jumps/Settles.antt =====
-- The loop of X64_elf_gen_instrs in src/x64_gen/machine_code.c ends, and all jumps lead to their targets.
use nibble.Prelude.{ℕ, ◌<◌, ◌≡◌, Option, some}
use nibble.Jumps.Relax.{Jmp, forward, TextBBlock}
use nibble.Jumps.Lands.{LandsAt}

-- The blocks as they are allocated: no jump is written.
pub record AreUnwritten (f : ℕ → TextBBlock) : Type 0 where
  pub opcode_len : (k : ℕ) → (f k).jmp_opcode_len ≡ 0
  pub offset_len : (k : ℕ) → (f k).jmp_offset_len ≡ 0
  pub offset : (k : ℕ) → (f k).jmp_offset ≡ forward 0

-- The loop ends with the same instructions and jumps, and each jump lands at its target.
pub record Settles (n : ℕ) (f : ℕ → TextBBlock) (o : Option (ℕ → TextBBlock)) : Type 0 where
  pub final : ℕ → TextBBlock
  pub run : o ≡ some final
  pub same_len : (k : ℕ) → (final k).buffer_len ≡ (f k).buffer_len
  pub same_jmp : (k : ℕ) → (final k).jmp_instr ≡ (f k).jmp_instr
  pub lands : (k : ℕ) (jmp : Jmp) → k < n → (f k).jmp_instr ≡ some jmp → LandsAt n final k jmp
