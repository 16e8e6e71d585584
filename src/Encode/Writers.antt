-- ===== src/Encode/Writers.antt =====
-- What src/x64_gen/machine_code.c appends to the text of a basic block: immediates, displacements, and the
-- X64_write_elf_ functions of the integer instructions.
--
-- A writer gives no state where X64_get_addr_bytes ends the program.
use nibble.Prelude.{
  ℕ, ◌-◌, ◌/◌, ◌%◌, ◌^◌, Bool, false, ◌&&◌, ◌||◌, List, [], ◌∷◌, ◌++◌, Option, none, some, ltb, leb,
  ◌==◌, if◌then◌else◌,
}
use nibble.Encode.Addr.{
  SibdAddr, AddrBytes, bit, x64_reg_val, reg_aliased_8h, rex_prefix, rex_nosib, get_addr_bytes,
}
use nibble.Encode.Text.{TextGenState, imm_bytes, push_bytes, write_direct, write_mem}

-- The prefix 0x66 of 16-bit operands
unfoldable pub size_prefix : ℕ → List ℕ
size_prefix size = if size == 2 then 0x66 ∷ [] else []

-- The REX prefix where it is needed, or an empty one that disables AH, CH, DH and BH
unfoldable pub rex_bytes : Bool → Bool → ℕ → List ℕ
rex_bytes needed no_high rex = if needed then rex ∷ [] else if no_high then 0x40 ∷ [] else []

unfoldable pub sized : ℕ → ℕ → ℕ → ℕ
sized size opcode_1byte opcode_large = if size == 1 then opcode_1byte else opcode_large

unfoldable pub with_addr : Option AddrBytes → (AddrBytes → TextGenState) → Option TextGenState
with_addr none write = none
with_addr (some addr) write = some (write addr)

-- The bytes in front of the ModRM byte, for an operand in memory and one in a register
unfoldable pub rm_front : ℕ → ℕ → ℕ → ℕ → AddrBytes → List ℕ
unfolding size_prefix rex_bytes sized rex_prefix x64_reg_val reg_aliased_8h
rm_front opcode_1byte opcode_large size reg addr =
    size_prefix size
    ++ rex_bytes (ltb 7 (x64_reg_val reg) || addr.rex_b || addr.rex_x || size == 8)
        (size == 1 && reg_aliased_8h reg)
        (rex_prefix (bit (size == 8)) (x64_reg_val reg / 8) (bit addr.rex_x) (bit addr.rex_b))
    ++ sized size opcode_1byte opcode_large ∷ []

-- Those for an operand in memory and an opcode extension
unfoldable pub m_front : ℕ → ℕ → AddrBytes → List ℕ
unfolding size_prefix rex_bytes rex_prefix
m_front opcode size addr =
    size_prefix size
    ++ rex_bytes (size == 8 || addr.rex_b || addr.rex_x) false
        (rex_prefix (bit (size == 8)) 0 (bit addr.rex_x) (bit addr.rex_b))
    ++ opcode ∷ []

-- Those for a register and an opcode extension
unfoldable pub r_front : ℕ → ℕ → ℕ → List ℕ
unfolding size_prefix rex_bytes rex_nosib x64_reg_val reg_aliased_8h
r_front opcode size reg =
    size_prefix size
    ++ rex_bytes (size == 8 || ltb 7 (x64_reg_val reg)) (size == 1 && reg_aliased_8h reg)
        (rex_nosib (bit (size == 8)) 0 (x64_reg_val reg))
    ++ opcode ∷ []

-- X64_write_elf_binary_instr_rm
unfoldable pub write_elf_binary_instr_rm :
    TextGenState → ℕ → ℕ → ℕ → ℕ → SibdAddr → Option TextGenState
unfolding with_addr get_addr_bytes write_mem rm_front
write_elf_binary_instr_rm gs opcode_1byte opcode_large size dst src =
    with_addr (get_addr_bytes src) (λ addr.
      write_mem gs (rm_front opcode_1byte opcode_large size dst addr) (x64_reg_val dst) addr)

-- X64_write_elf_binary_instr_mr
unfoldable pub write_elf_binary_instr_mr :
    TextGenState → ℕ → ℕ → ℕ → SibdAddr → ℕ → Option TextGenState
unfolding with_addr get_addr_bytes write_mem rm_front
write_elf_binary_instr_mr gs opcode_1byte opcode_multi_byte size dst src =
    with_addr (get_addr_bytes dst) (λ addr.
      write_mem gs (rm_front opcode_1byte opcode_multi_byte size src addr) (x64_reg_val src) addr)

-- Those for two registers
unfoldable pub rr_front : ℕ → ℕ → ℕ → ℕ → ℕ → List ℕ
unfolding size_prefix rex_bytes sized rex_nosib x64_reg_val reg_aliased_8h
rr_front opcode_1byte opcode_multi_byte size dst src =
    size_prefix size
    ++ rex_bytes (size == 8 || ltb 7 (x64_reg_val src) || ltb 7 (x64_reg_val dst))
        (size == 1 && (reg_aliased_8h dst || reg_aliased_8h src))
        (rex_nosib (bit (size == 8)) (x64_reg_val src) (x64_reg_val dst))
    ++ sized size opcode_1byte opcode_multi_byte ∷ []

-- X64_write_elf_binary_instr_rr
unfoldable pub write_elf_binary_instr_rr : TextGenState → ℕ → ℕ → ℕ → ℕ → ℕ → TextGenState
unfolding write_direct rr_front x64_reg_val
write_elf_binary_instr_rr gs opcode_1byte opcode_multi_byte size dst src =
    write_direct gs (rr_front opcode_1byte opcode_multi_byte size dst src) (x64_reg_val src)
      (x64_reg_val dst)

-- `(s32)imm <= 127 && (s32)imm >= -128`
unfoldable pub imm_is_byte : ℕ → Bool
imm_is_byte imm = leb imm 127 || leb (2 ^ 32 - 128) imm

unfoldable pub imm_opcode : ℕ → ℕ → ℕ → ℕ → ℕ → ℕ
unfolding imm_is_byte
imm_opcode opcode_instr_1byte opcode_imm_1byte opcode_imm_larger dst_size imm =
    if dst_size == 1
    then opcode_instr_1byte
    else if imm_is_byte imm
    then opcode_imm_1byte
    else opcode_imm_larger

unfoldable pub short_imm_bytes : ℕ → ℕ → List ℕ
unfolding imm_is_byte imm_bytes
short_imm_bytes dst_size imm =
    if imm_is_byte imm
    then imm % 256 ∷ []
    else imm_bytes imm (if dst_size == 8 then 4 else dst_size)

-- X64_write_elf_binary_instr_mi
unfoldable pub write_elf_binary_instr_mi :
    TextGenState → ℕ → ℕ → ℕ → ℕ → ℕ → SibdAddr → ℕ → Option TextGenState
unfolding with_addr get_addr_bytes write_mem m_front imm_opcode short_imm_bytes push_bytes
write_elf_binary_instr_mi gs opcode_instr_1byte opcode_imm_1byte opcode_imm_larger opcode_ext
      dst_size dst imm =
    let opcode = imm_opcode opcode_instr_1byte opcode_imm_1byte opcode_imm_larger dst_size imm in
    with_addr (get_addr_bytes dst) (λ addr.
      push_bytes (write_mem gs (m_front opcode dst_size addr) opcode_ext addr)
        (short_imm_bytes dst_size imm))

-- X64_write_elf_binary_instr_ri
unfoldable pub write_elf_binary_instr_ri : TextGenState → ℕ → ℕ → ℕ → ℕ → ℕ → ℕ → ℕ → TextGenState
unfolding write_direct r_front imm_opcode short_imm_bytes push_bytes x64_reg_val
write_elf_binary_instr_ri gs opcode_instr_1byte opcode_imm_1byte opcode_imm_larger opcode_ext
      dst_size dst imm =
    let opcode = imm_opcode opcode_instr_1byte opcode_imm_1byte opcode_imm_larger dst_size imm in
    push_bytes (write_direct gs (r_front opcode dst_size dst) opcode_ext (x64_reg_val dst))
      (short_imm_bytes dst_size imm)

-- X64_write_elf_binary_rax_instr_r, and with the opcodes 0xF6 and 0xF7 also X64_write_elf_unary_neg_r
unfoldable pub write_elf_binary_rax_instr_r : TextGenState → ℕ → ℕ → ℕ → ℕ → ℕ → TextGenState
unfolding write_direct r_front sized x64_reg_val
write_elf_binary_rax_instr_r gs opcode_instr_1byte opcode_multi_byte opcode_ext size src =
    write_direct gs (r_front (sized size opcode_instr_1byte opcode_multi_byte) size src) opcode_ext
      (x64_reg_val src)

-- X64_write_elf_binary_rax_instr_m
unfoldable pub write_elf_binary_rax_instr_m :
    TextGenState → ℕ → ℕ → ℕ → ℕ → SibdAddr → Option TextGenState
unfolding with_addr get_addr_bytes write_mem m_front sized
write_elf_binary_rax_instr_m gs opcode_1byte opcode_large opcode_ext size src =
    with_addr (get_addr_bytes src) (λ addr.
      write_mem gs (m_front (sized size opcode_1byte opcode_large) size addr) opcode_ext addr)

-- X64_write_elf_unary_neg_r
unfoldable pub write_elf_unary_neg_r : TextGenState → ℕ → ℕ → ℕ → TextGenState
unfolding write_direct r_front sized x64_reg_val
write_elf_unary_neg_r gs opcode_ext size dst =
    write_direct gs (r_front (sized size 0xF6 0xF7) size dst) opcode_ext (x64_reg_val dst)

-- X64_write_elf_unary_neg_m
unfoldable pub write_elf_unary_neg_m : TextGenState → ℕ → ℕ → SibdAddr → Option TextGenState
unfolding with_addr get_addr_bytes write_mem m_front sized
write_elf_unary_neg_m gs opcode_ext size dst =
    with_addr (get_addr_bytes dst)
      (λ addr. write_mem gs (m_front (sized size 0xF6 0xF7) size addr) opcode_ext addr)

-- X64_write_elf_shift_r
unfoldable pub write_elf_shift_r : TextGenState → ℕ → ℕ → ℕ → TextGenState
unfolding write_direct r_front sized x64_reg_val
write_elf_shift_r gs opcode_ext dst_size dst =
    write_direct gs (r_front (sized dst_size 0xD2 0xD3) dst_size dst) opcode_ext (x64_reg_val dst)

-- X64_write_elf_shift_m
unfoldable pub write_elf_shift_m : TextGenState → ℕ → ℕ → SibdAddr → Option TextGenState
unfolding with_addr get_addr_bytes write_mem m_front sized
write_elf_shift_m gs opcode_ext dst_size dst =
    with_addr (get_addr_bytes dst)
      (λ addr. write_mem gs (m_front (sized dst_size 0xD2 0xD3) dst_size addr) opcode_ext addr)

unfoldable pub shift_opcode : ℕ → ℕ → ℕ
unfolding sized
shift_opcode dst_size imm = if imm == 1 then sized dst_size 0xD0 0xD1 else sized dst_size 0xC0 0xC1

unfoldable pub shift_imm_bytes : ℕ → List ℕ
shift_imm_bytes imm = if imm == 1 then [] else imm ∷ []

-- X64_write_elf_shift_mi
unfoldable pub write_elf_shift_mi : TextGenState → ℕ → ℕ → SibdAddr → ℕ → Option TextGenState
unfolding with_addr get_addr_bytes write_mem m_front shift_opcode shift_imm_bytes push_bytes
write_elf_shift_mi gs opcode_ext dst_size dst imm = with_addr (get_addr_bytes dst) (λ addr.
    push_bytes (write_mem gs (m_front (shift_opcode dst_size imm) dst_size addr) opcode_ext addr)
      (shift_imm_bytes imm))

-- X64_write_elf_shift_ri
unfoldable pub write_elf_shift_ri : TextGenState → ℕ → ℕ → ℕ → ℕ → TextGenState
unfolding write_direct r_front shift_opcode shift_imm_bytes push_bytes x64_reg_val
write_elf_shift_ri gs opcode_ext dst_size dst imm =
    push_bytes
      (write_direct gs (r_front (shift_opcode dst_size imm) dst_size dst) opcode_ext
        (x64_reg_val dst))
      (shift_imm_bytes imm)
