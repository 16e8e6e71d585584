-- ===== src/Encode/UnaryForms.antt =====
-- The operations of src/x64_gen/machine_code.c on one operand, and the shifts, are read back.
use nibble.Prelude.{
  ℕ, ◌+◌, ◌*◌, ◌/◌, ◌%◌, ◌<◌, ◌≡◌, refl, ap, subst, ◌∙◌, true, List, [], ◌++◌, ltb, ◌==◌, Option,
  none, some,
}
use nibble.Encode.Addr.{SibdAddr, AddrBytes, bit, x64_reg_val, get_addr_bytes}
use nibble.Encode.Writers.{
  sized, with_addr, m_front, r_front, write_elf_binary_rax_instr_r, write_elf_binary_rax_instr_m,
  write_elf_unary_neg_r, write_elf_unary_neg_m, write_elf_shift_r, write_elf_shift_m,
}
use nibble.Encode.Text.{TextGenState, push_bytes, write_mem, write_direct}
use nibble.Encode.Instrs.{
  UnaryOp, op_imul, op_mul, op_div, op_idiv, op_neg, op_not, ShiftOp, shift_ext, gen_unary_r,
  gen_unary_m,
}
use nibble.Encode.Decode.{
  general_reg, in_memory, Count, by_cl, shift_count, unary, shift, unary_at, shift_at,
}
use nibble.Encode.Operands.{append_nil, rm_of, IsAddr}
use nibble.Encode.Addresses.{addr_ok, get_addr_bytes-Ok}
use nibble.Encode.Fronts.{head_of}
use nibble.Encode.Prefixes.{rex_bits}
use nibble.Encode.Meaning.{IsSize, rm_operand-rm_of}
use nibble.Encode.Opcodes.{
  IsSized, is_shift, shift_at-ext, shift_ext-below, read_asm-unary, read_asm-shift,
  unary_opcode-IsSized, cl_opcode-IsSized, cl_count,
}
use nibble.Encode.Forms.{
  Encodes, IsRead, Writes-Encodes, Writes-Encodes_imm, m_fields, r_fields, m-Writes, r-Writes,
  r_fields-reg,
}
use nibble.Encode.Sizes.{m_size, r_size, ext_low, small}

pub unary_r-Encodes :
    (gs : TextGenState) (op : UnaryOp) (ext size reg : ℕ)
    → unary_at ext ≡ some op
    → ltb ext 8 ≡ true
    → IsSize size
    → reg < 16
    → Encodes gs
        (unary op size (general_reg reg))
        (some (write_direct gs (r_front (sized size 0xF6 0xF7) size reg) ext (x64_reg_val reg)))
unfolding IsRead head_of
unary_r-Encodes gs op ext size reg at low s h =
    let code = sized size 0xF6 0xF7 in
    let o = unary_opcode-IsSized size in
    let f = r_fields size ext reg code in
    let after = write_direct gs (r_front code size reg) ext (x64_reg_val reg) in
    Writes-Encodes gs after f (unary op size (general_reg reg)) (some after) refl
      (r-Writes gs code size ext reg h (small ext low) o.fresh)
      (λ rest.
        read_asm-unary (record { value = f; rest = rest }) size (r_size s reg code h o.parity) op
          (general_reg reg) o.class
          (ap unary_at (ext_low ext ((bit (size == 8) * 8 + reg / 8) / 4 % 2) low) ∙ at)
          (r_fields-reg size ext reg code h))

pub unary_m-Encodes :
    (gs : TextGenState) (op : UnaryOp) (ext size : ℕ) (addr : SibdAddr)
    → unary_at ext ≡ some op
    → ltb ext 8 ≡ true
    → IsSize size
    → IsAddr addr
    → Encodes gs (unary op size (in_memory (rm_of addr))) (
        with_addr
          (get_addr_bytes addr)
          (λ a. write_mem gs (m_front (sized size 0xF6 0xF7) size a) ext a))
unfolding with_addr IsRead head_of
unary_m-Encodes gs op ext size addr at low s valid = elim (get_addr_bytes-Ok addr valid) [
  | addr_ok a run r ↦
      let code = sized size 0xF6 0xF7 in
      let o = unary_opcode-IsSized size in
      let f = m_fields size ext a code addr in
      Writes-Encodes gs (write_mem gs (m_front code size a) ext a) f
        (unary op size (in_memory (rm_of addr)))
        (with_addr (get_addr_bytes addr) (λ a. write_mem gs (m_front code size a) ext a))
        (rw run refl) (m-Writes gs code size ext addr a r (small ext low) o.fresh)
        (λ rest.
          read_asm-unary (record { value = f; rest = rest }) size (m_size s a code o.parity) op
            (in_memory (rm_of addr)) o.class
            (ap unary_at (ext_low ext (rex_bits size 0 a.rex_x a.rex_b / 4 % 2) low) ∙ at)
            (rm_operand-rm_of f.head.has_rex size addr))
]

pub gen_unary_r-Encodes :
    (gs : TextGenState) (op : UnaryOp) (size reg : ℕ)
    → IsSize size
    → reg < 16
    → Encodes gs (unary op size (general_reg reg)) (some (gen_unary_r gs op size reg))
unfolding gen_unary_r write_elf_binary_rax_instr_r write_elf_unary_neg_r unary_at
gen_unary_r-Encodes gs op_imul size reg s h = unary_r-Encodes gs op_imul 5 size reg refl refl s h
gen_unary_r-Encodes gs op_mul size reg s h = unary_r-Encodes gs op_mul 4 size reg refl refl s h
gen_unary_r-Encodes gs op_div size reg s h = unary_r-Encodes gs op_div 6 size reg refl refl s h
gen_unary_r-Encodes gs op_idiv size reg s h = unary_r-Encodes gs op_idiv 7 size reg refl refl s h
gen_unary_r-Encodes gs op_neg size reg s h = unary_r-Encodes gs op_neg 3 size reg refl refl s h
gen_unary_r-Encodes gs op_not size reg s h = unary_r-Encodes gs op_not 2 size reg refl refl s h

pub gen_unary_m-Encodes :
    (gs : TextGenState) (op : UnaryOp) (size : ℕ) (addr : SibdAddr)
    → IsSize size
    → IsAddr addr
    → Encodes gs (unary op size (in_memory (rm_of addr))) (gen_unary_m gs op size addr)
unfolding gen_unary_m write_elf_binary_rax_instr_m write_elf_unary_neg_m unary_at
gen_unary_m-Encodes gs op_imul size addr s v = unary_m-Encodes gs op_imul 5 size addr refl refl s v
gen_unary_m-Encodes gs op_mul size addr s v = unary_m-Encodes gs op_mul 4 size addr refl refl s v
gen_unary_m-Encodes gs op_div size addr s v = unary_m-Encodes gs op_div 6 size addr refl refl s v
gen_unary_m-Encodes gs op_idiv size addr s v = unary_m-Encodes gs op_idiv 7 size addr refl refl s v
gen_unary_m-Encodes gs op_neg size addr s v = unary_m-Encodes gs op_neg 3 size addr refl refl s v
gen_unary_m-Encodes gs op_not size addr s v = unary_m-Encodes gs op_not 2 size addr refl refl s v

-- The shifts, with the bytes `imm` behind the operand

pub shift_r-Encodes :
    (gs : TextGenState) (op : ShiftOp) (size reg code : ℕ) (imm : List ℕ) (count : Count)
    → IsSize size
    → reg < 16
    → IsSized is_shift size code
    → ((rest : List ℕ)
        → shift_count code (imm ++ rest) ≡ some (record { value = count; rest = rest }))
    → Encodes gs (shift op size (general_reg reg) count) (
        some (
          push_bytes
            (write_direct gs (r_front code size reg) (shift_ext op) (x64_reg_val reg))
            imm))
unfolding IsRead head_of
shift_r-Encodes gs op size reg code imm count s h o count_is =
    let ext = shift_ext op in
    let f = r_fields size ext reg code in
    let after = write_direct gs (r_front code size reg) ext (x64_reg_val reg) in
    Writes-Encodes_imm gs after f imm (shift op size (general_reg reg) count)
      (some (push_bytes after imm)) refl
      (r-Writes gs code size ext reg h (small ext (shift_ext-below op)) o.fresh)
      (λ rest.
        read_asm-shift (record { value = f; rest = imm ++ rest }) size
          (r_size s reg code h o.parity) op (general_reg reg) count rest o.class
          (ap shift_at (ext_low ext ((bit (size == 8) * 8 + reg / 8) / 4 % 2) (shift_ext-below op))
            ∙ shift_at-ext op)
          (r_fields-reg size ext reg code h) (count_is rest))

pub shift_m-Encodes :
    (gs : TextGenState) (op : ShiftOp) (size code : ℕ) (addr : SibdAddr) (imm : List ℕ)
    (count : Count)
    → IsSize size
    → IsAddr addr
    → IsSized is_shift size code
    → ((rest : List ℕ)
        → shift_count code (imm ++ rest) ≡ some (record { value = count; rest = rest }))
    → Encodes gs (shift op size (in_memory (rm_of addr)) count) (
        with_addr
          (get_addr_bytes addr)
          (λ a. push_bytes (write_mem gs (m_front code size a) (shift_ext op) a) imm))
unfolding with_addr IsRead head_of
shift_m-Encodes gs op size code addr imm count s valid o count_is =
    elim (get_addr_bytes-Ok addr valid) [
      | addr_ok a run r ↦
          let ext = shift_ext op in
          let f = m_fields size ext a code addr in
          Writes-Encodes_imm gs (write_mem gs (m_front code size a) ext a) f imm
            (shift op size (in_memory (rm_of addr)) count)
            (with_addr (get_addr_bytes addr)
              (λ a. push_bytes (write_mem gs (m_front code size a) ext a) imm))
            (rw run refl)
            (m-Writes gs code size ext addr a r (small ext (shift_ext-below op)) o.fresh)
            (λ rest.
              read_asm-shift (record { value = f; rest = imm ++ rest }) size
                (m_size s a code o.parity) op (in_memory (rm_of addr)) count rest o.class
                (ap shift_at
                    (ext_low ext (rex_bits size 0 a.rex_x a.rex_b / 4 % 2) (shift_ext-below op))
                  ∙ shift_at-ext op)
                (rm_operand-rm_of f.head.has_rex size addr) (count_is rest))
    ]

push_bytes-nil : (gs : TextGenState) → push_bytes gs [] ≡ gs
unfolding push_bytes
push_bytes-nil gs = rw (append_nil gs.buffer) refl

with_addr-nil :
    (o : Option AddrBytes) (write : AddrBytes → TextGenState)
    → with_addr o (λ a. push_bytes (write a) []) ≡ with_addr o write
unfolding with_addr
with_addr-nil none write = refl
with_addr-nil (some addr) write = ap some (push_bytes-nil (write addr))

pub shift_rr-Encodes :
    (gs : TextGenState) (op : ShiftOp) (size dst : ℕ)
    → IsSize size
    → dst < 16
    → Encodes gs
        (shift op size (general_reg dst) by_cl)
        (some (write_elf_shift_r gs (shift_ext op) size dst))
unfolding write_elf_shift_r
shift_rr-Encodes gs op size dst s h =
    let code = sized size 0xD2 0xD3 in
    subst (λ t. Encodes gs (shift op size (general_reg dst) by_cl) (some t))
      (push_bytes-nil (write_direct gs (r_front code size dst) (shift_ext op) (x64_reg_val dst)))
      (shift_r-Encodes gs op size dst code [] by_cl s h (cl_opcode-IsSized size) (cl_count size))

pub shift_mr-Encodes :
    (gs : TextGenState) (op : ShiftOp) (size : ℕ) (dst : SibdAddr)
    → IsSize size
    → IsAddr dst
    → Encodes gs
        (shift op size (in_memory (rm_of dst)) by_cl)
        (write_elf_shift_m gs (shift_ext op) size dst)
unfolding write_elf_shift_m
shift_mr-Encodes gs op size dst s valid =
    let code = sized size 0xD2 0xD3 in
    subst (λ t. Encodes gs (shift op size (in_memory (rm_of dst)) by_cl) t)
      (with_addr-nil (get_addr_bytes dst)
        (λ a. write_mem gs (m_front code size a) (shift_ext op) a))
      (shift_m-Encodes gs op size code dst [] by_cl s valid (cl_opcode-IsSized size)
        (cl_count size))
