-- ===== src/Live/Instrs.antt =====
-- The instructions of src/x64_gen/xir.h, and the registers of each that src/x64_gen/livevar.c touches.
--
-- A constructor stands for the struct that the code casts an instruction to; the kinds that share one
-- have the same registers.
use nibble.Prelude.{ℕ, List, [], ◌∷◌, ◌++◌, Option, none, some, ◌==◌, if◌then◌else◌}

-- XIR_REG_COUNT, no register
abbrev pub reg_none : ℕ
reg_none = 0xFFFFFFFF

-- XIR_MemAddr; only the kind XIR_ADDR_SIBD has registers.
pub data MemAddr : Type 0 where
  sibd : (base_reg index_reg scale : ℕ) → MemAddr
  other_addr : MemAddr

-- XIR_CallValue: the address of an object, or a register
pub data CallValue : Type 0 where
  in_addr : MemAddr → CallValue
  in_lreg : ℕ → CallValue

pub data Instr : Type 0 where
  binary_r_r : (dst src : ℕ) → Instr
  binary_r_i : (dst : ℕ) → Instr
  binary_r_m : (dst : ℕ) (src : MemAddr) → Instr
  binary_flt_r_r : (dst src : ℕ) → Instr
  binary_flt_r_m : (dst : ℕ) (src : MemAddr) → Instr
  div_mul_r : (rdx rax src : ℕ) → Instr
  div_mul_m : (rdx rax : ℕ) (src : MemAddr) → Instr
  sext_ax_to_dx : (rdx rax : ℕ) → Instr
  shift_r_r : (dst src : ℕ) → Instr
  shift_r_i : (dst : ℕ) → Instr
  unary : (dst : ℕ) → Instr
  rep_movsb : (rdi rsi rcx : ℕ) → Instr
  rep_stosb : (rdi rax rcx : ℕ) → Instr
  syscall : (rax rcx r11 : ℕ) (args : List ℕ) → Instr
  mov_r_rh : (dst src : ℕ) → Instr
  mov_r_r : (dst src : ℕ) → Instr
  mov_r_i : (dst : ℕ) → Instr
  mov_r_m : (dst : ℕ) (src : MemAddr) → Instr
  mov_m_r : (dst : MemAddr) (src : ℕ) → Instr
  mov_m_i : (dst : MemAddr) → Instr
  convert_r_r : (dst src : ℕ) → Instr
  convert_r_m : (dst : ℕ) (src : MemAddr) → Instr
  mov_flt_r_r : (dst src : ℕ) → Instr
  mov_flt_r_m : (dst : ℕ) (src : MemAddr) → Instr
  mov_flt_m_r : (dst : MemAddr) (src : ℕ) → Instr
  flt2flt_r_r : (dst src : ℕ) → Instr
  flt2flt_r_m : (dst : ℕ) (src : MemAddr) → Instr
  flt2int_r_r : (dst src : ℕ) → Instr
  flt2int_r_m : (dst : ℕ) (src : MemAddr) → Instr
  int2flt_r_r : (dst src : ℕ) → Instr
  int2flt_r_m : (dst : ℕ) (src : MemAddr) → Instr
  lea : (dst : ℕ) (mem : MemAddr) → Instr
  cmp_r_r : (op1 op2 : ℕ) → Instr
  cmp_r_i : (op1 : ℕ) → Instr
  cmp_r_m : (op1 : ℕ) (op2 : MemAddr) → Instr
  cmp_m_r : (op1 : MemAddr) (op2 : ℕ) → Instr
  cmp_m_i : (op1 : MemAddr) → Instr
  cmp_flt_r_r : (op1 op2 : ℕ) → Instr
  cmp_flt_r_m : (op1 : ℕ) (op2 : MemAddr) → Instr
  jump : Instr
  set_cc : (dst : ℕ) → Instr
  ret : (rax rdx : ℕ) → Instr
  -- A call without a value has no `dst`.
  call : (args : List CallValue) (dst : Option CallValue) → Instr
  call_r : (proc_loc : ℕ) (args : List CallValue) (dst : Option CallValue) → Instr

-- XIR_touch_mem_lregs
unfoldable pub mem_lregs : MemAddr → List ℕ
mem_lregs (sibd base_reg index_reg scale) =
    (if base_reg == reg_none then [] else base_reg ∷ [])
    ++ (if scale == 0 then [] else if index_reg == reg_none then [] else index_reg ∷ [])
mem_lregs other_addr = []

unfoldable pub value_lregs : CallValue → List ℕ
unfolding mem_lregs
value_lregs (in_addr addr) = mem_lregs addr
value_lregs (in_lreg reg) = reg ∷ []

unfoldable pub args_lregs : List CallValue → List ℕ
unfolding value_lregs
args_lregs [] = []
args_lregs (arg ∷ args) = value_lregs arg ++ args_lregs args

unfoldable pub dst_lregs : Option CallValue → List ℕ
unfolding value_lregs
dst_lregs none = []
dst_lregs (some dst) = value_lregs dst

-- The registers that the switch of XIR_compute_bblock_live_intervals touches, in its order
unfoldable pub instr_lregs : Instr → List ℕ
unfolding mem_lregs args_lregs dst_lregs
instr_lregs (binary_r_r dst src) = dst ∷ src ∷ []
instr_lregs (binary_r_i dst) = dst ∷ []
instr_lregs (binary_r_m dst src) = dst ∷ mem_lregs src
instr_lregs (binary_flt_r_r dst src) = dst ∷ src ∷ []
instr_lregs (binary_flt_r_m dst src) = dst ∷ mem_lregs src
instr_lregs (div_mul_r rdx rax src) = rdx ∷ rax ∷ src ∷ []
instr_lregs (div_mul_m rdx rax src) = rdx ∷ rax ∷ mem_lregs src
instr_lregs (sext_ax_to_dx rdx rax) = rax ∷ rdx ∷ []
instr_lregs (shift_r_r dst src) = dst ∷ src ∷ []
instr_lregs (shift_r_i dst) = dst ∷ []
instr_lregs (unary dst) = dst ∷ []
instr_lregs (rep_movsb rdi rsi rcx) = rdi ∷ rsi ∷ rcx ∷ []
instr_lregs (rep_stosb rdi rax rcx) = rdi ∷ rax ∷ rcx ∷ []
instr_lregs (syscall rax rcx r11 args) = rax ∷ rcx ∷ r11 ∷ args
instr_lregs (mov_r_rh dst src) = src ∷ dst ∷ []
instr_lregs (mov_r_r dst src) = src ∷ dst ∷ []
instr_lregs (mov_r_i dst) = dst ∷ []
instr_lregs (mov_r_m dst src) = mem_lregs src ++ dst ∷ []
instr_lregs (mov_m_r dst src) = mem_lregs dst ++ src ∷ []
instr_lregs (mov_m_i dst) = mem_lregs dst
instr_lregs (convert_r_r dst src) = src ∷ dst ∷ []
instr_lregs (convert_r_m dst src) = mem_lregs src ++ dst ∷ []
instr_lregs (mov_flt_r_r dst src) = src ∷ dst ∷ []
instr_lregs (mov_flt_r_m dst src) = mem_lregs src ++ dst ∷ []
instr_lregs (mov_flt_m_r dst src) = src ∷ mem_lregs dst
instr_lregs (flt2flt_r_r dst src) = src ∷ dst ∷ []
instr_lregs (flt2flt_r_m dst src) = mem_lregs src ++ dst ∷ []
instr_lregs (flt2int_r_r dst src) = src ∷ dst ∷ []
instr_lregs (flt2int_r_m dst src) = mem_lregs src ++ dst ∷ []
instr_lregs (int2flt_r_r dst src) = src ∷ dst ∷ []
instr_lregs (int2flt_r_m dst src) = mem_lregs src ++ dst ∷ []
instr_lregs (lea dst mem) = mem_lregs mem ++ dst ∷ []
instr_lregs (cmp_r_r op1 op2) = op1 ∷ op2 ∷ []
instr_lregs (cmp_r_i op1) = op1 ∷ []
instr_lregs (cmp_r_m op1 op2) = op1 ∷ mem_lregs op2
instr_lregs (cmp_m_r op1 op2) = mem_lregs op1 ++ op2 ∷ []
instr_lregs (cmp_m_i op1) = mem_lregs op1
instr_lregs (cmp_flt_r_r op1 op2) = op1 ∷ op2 ∷ []
instr_lregs (cmp_flt_r_m op1 op2) = op1 ∷ mem_lregs op2
instr_lregs jump = []
instr_lregs (set_cc dst) = dst ∷ []
instr_lregs (ret rax rdx) =
    (if rax == reg_none then [] else rax ∷ []) ++ (if rdx == reg_none then [] else rdx ∷ [])
instr_lregs (call args dst) = args_lregs args ++ dst_lregs dst
instr_lregs (call_r proc_loc args dst) = proc_loc ∷ args_lregs args ++ dst_lregs dst
