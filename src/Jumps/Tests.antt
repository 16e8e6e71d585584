-- ===== src/Jumps/Tests.antt =====
-- A run of the relaxation of jumps, and an application of its theorem.
use nibble.Prelude.{ℕ, zero, suc, ◌≡◌, refl, true, false, Option, none, some}
use nibble.Jumps.Relax.{Jmp, forward, backward, Offset, TextBBlock, relax}
use nibble.Jumps.Settles.{Settles}

abbrev bblock : ℕ → Option Jmp → TextBBlock
bblock len jmp = record {
  buffer_len = len;
  jmp_instr = jmp;
  jmp_opcode_len = 0;
  jmp_offset_len = 0;
  jmp_offset = forward 0;
}

-- A jump over 126 bytes, whose block has a jump back: the second is long, and makes the first long too.
abbrev two_jumps : ℕ → TextBBlock
two_jumps zero = bblock 10 (some (record { target = 2; is_jmpcc = true }))
two_jumps (suc zero) = bblock 126 (some (record { target = 0; is_jmpcc = false }))
two_jumps (suc (suc k)) = bblock 0 none

-- 126 + 5 bytes are further than one byte reaches.
both_long :
    elim (relax 4 3 two_jumps) as (λ o. Option Offset) [
      | none ↦ none
      | some g ↦ some (g 0).jmp_offset
    ]
    ≡ some (forward 131)
unfolding relax
both_long = refl

back_over_both :
    elim (relax 4 3 two_jumps) as (λ o. Option Offset) [
      | none ↦ none
      | some g ↦ some (g 1).jmp_offset
    ]
    ≡ some (backward 147)
unfolding relax
back_over_both = refl
