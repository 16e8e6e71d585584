-- ===== src/Regs.antt =====
-- src/x64_gen/regs.h and regs.c: the physical registers, their classes and the Linux target.
-- A register is its number in the enumeration X64_Reg, from RAX = 0 to XMM15 = 31.
use nibble.Prelude.{ℕ, ◌+◌, List, [], ◌∷◌, Bool, not, ltb, if◌then◌else◌}
use nibble.Prelude.Bits.{u32_is_bit_set}

abbrev pub rax : ℕ
rax = 0

abbrev pub rcx : ℕ
rcx = 1

abbrev pub rdx : ℕ
rdx = 2

abbrev pub rbx : ℕ
rbx = 3

abbrev pub rsp : ℕ
rsp = 4

abbrev pub rbp : ℕ
rbp = 5

abbrev pub rsi : ℕ
rsi = 6

abbrev pub rdi : ℕ
rdi = 7

abbrev pub r8 : ℕ
r8 = 8

abbrev pub r9 : ℕ
r9 = 9

abbrev pub r10 : ℕ
r10 = 10

abbrev pub r11 : ℕ
r11 = 11

abbrev pub r12 : ℕ
r12 = 12

abbrev pub r13 : ℕ
r13 = 13

abbrev pub r14 : ℕ
r14 = 14

abbrev pub r15 : ℕ
r15 = 15

-- XMM0 to XMM15 follow the integer registers.
abbrev pub xmm : ℕ → ℕ
xmm n = 16 + n

-- X64_REG_COUNT, which also stands for "no register".
abbrev pub reg_count : ℕ
reg_count = 32

-- X64_RegClass
pub data RegClass : Type 0 where
  int_class : RegClass
  float_class : RegClass

-- x64_reg_classes
unfoldable pub reg_classes : ℕ → RegClass
reg_classes reg = if ltb reg 16 then int_class else float_class

-- The part of X64_Target that the register allocator reads.
pub record Target : Type 0 where
  pub caller_saved_reg_mask : ℕ

-- X64_is_caller_saved_reg
unfoldable pub is_caller_saved_reg : Target → ℕ → Bool
is_caller_saved_reg target reg = u32_is_bit_set target.caller_saved_reg_mask reg

-- X64_is_callee_saved_reg
unfoldable pub is_callee_saved_reg : Target → ℕ → Bool
is_callee_saved_reg target reg = not (u32_is_bit_set target.caller_saved_reg_mask reg)

-- The target that x64_init_target sets up for Linux.
abbrev pub linux_target : Target
linux_target = record { caller_saved_reg_mask = 0xFFFF0FC7 }

-- x64_linux_leaf_scratch_regs
abbrev pub linux_leaf_scratch_regs : RegClass → List ℕ
linux_leaf_scratch_regs int_class =
    r10 ∷ r11 ∷ rax ∷ rdi ∷ rsi ∷ rdx ∷ rcx ∷ r8 ∷ r9 ∷ r12 ∷ r13 ∷ r14 ∷ r15 ∷ rbx ∷ []
linux_leaf_scratch_regs float_class =
    xmm 0
    ∷ xmm 1
    ∷ xmm 2
    ∷ xmm 3
    ∷ xmm 4
    ∷ xmm 5
    ∷ xmm 6
    ∷ xmm 7
    ∷ xmm 8
    ∷ xmm 9
    ∷ xmm 10
    ∷ xmm 11
    ∷ xmm 12
    ∷ xmm 13
    ∷ xmm 14
    ∷ xmm 15
    ∷ []

-- x64_linux_nonleaf_scratch_regs
abbrev pub linux_nonleaf_scratch_regs : RegClass → List ℕ
linux_nonleaf_scratch_regs int_class =
    r12 ∷ r13 ∷ r14 ∷ r15 ∷ rbx ∷ r10 ∷ r11 ∷ rax ∷ rdi ∷ rsi ∷ rdx ∷ rcx ∷ r8 ∷ r9 ∷ []
linux_nonleaf_scratch_regs float_class =
    xmm 10
    ∷ xmm 11
    ∷ xmm 12
    ∷ xmm 13
    ∷ xmm 14
    ∷ xmm 15
    ∷ xmm 0
    ∷ xmm 1
    ∷ xmm 2
    ∷ xmm 3
    ∷ xmm 4
    ∷ xmm 5
    ∷ xmm 6
    ∷ xmm 7
    ∷ xmm 8
    ∷ xmm 9
    ∷ []
