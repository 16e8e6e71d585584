-- ===== src/Encode/BinaryForms.antt =====
-- The operations of src/x64_gen/machine_code.c on two operands are read back.
use nibble.Prelude.{ℕ, ◌+◌, ◌*◌, ◌/◌, ◌%◌, ◌^◌, ◌<◌, refl, ap, ◌∙◌, ◌++◌, ◌==◌, some}
use nibble.Encode.Addr.{SibdAddr, bit, x64_reg_val}
use nibble.Encode.Writers.{
  sized, with_addr, rm_front, m_front, r_front, imm_opcode, short_imm_bytes,
  write_elf_binary_instr_rm, write_elf_binary_instr_mr, write_elf_binary_instr_rr,
  write_elf_binary_instr_ri, write_elf_binary_instr_mi,
}
use nibble.Encode.Text.{TextGenState, write_mem, write_direct}
use nibble.Encode.Instrs.{BinaryOp, binary_opcode, binary_ext}
use nibble.Encode.Decode.{general_reg, in_memory, binary, binary_imm, binary_at}
use nibble.Encode.Operands.{rm_of, IsAddr}
use nibble.Encode.Addresses.{addr_ok, get_addr_bytes-Ok}
use nibble.Encode.Fronts.{head_of}
use nibble.Encode.Prefixes.{rex_bits}
use nibble.Encode.Meaning.{IsSize, imm_value, rm_operand-rm_of, read_imm-short_imm_bytes}
use nibble.Encode.Opcodes.{
  store-IsOpcode, load-IsOpcode, binary_at-ext, binary_ext-below, read_asm-store, read_asm-load,
  read_asm-imm, imm_opcode-IsSized,
}
use nibble.Encode.Forms.{
  Encodes, IsRead, Writes-Encodes, Writes-Encodes_imm, rm_fields, m_fields, r_fields, rr_fields,
  rm-Writes, m-Writes, r-Writes, rr-Writes, rm_fields-reg, r_fields-reg, rr_fields-reg,
  rr_fields-rm,
}
use nibble.Encode.Sizes.{rm_size, m_size, r_size, rr_size, ext_low, small}

pub binary_rr-Encodes :
    (gs : TextGenState) (op : BinaryOp) (size dst src : ℕ)
    → IsSize size
    → dst < 16
    → src < 16
    → Encodes gs
        (binary op size (general_reg dst) (general_reg src))
        (some (write_elf_binary_instr_rr gs (binary_opcode op) (binary_opcode op + 1) size dst src))
unfolding write_elf_binary_instr_rr IsRead sized head_of
binary_rr-Encodes gs op size dst src s hd hs =
    let o = store-IsOpcode op (size == 1) in
    let code = sized size (binary_opcode op) (binary_opcode op + 1) in
    let f = rr_fields size dst src code in
    Writes-Encodes gs
      (write_elf_binary_instr_rr gs (binary_opcode op) (binary_opcode op + 1) size dst src) f
      (binary op size (general_reg dst) (general_reg src))
      (some (write_elf_binary_instr_rr gs (binary_opcode op) (binary_opcode op + 1) size dst src))
      refl (rr-Writes gs (binary_opcode op) (binary_opcode op + 1) size dst src hd hs o.fresh)
      (λ rest.
        read_asm-store (record { value = f; rest = rest }) size
          (rr_size s dst src code hd hs o.parity) op (size == 1) (general_reg dst) (general_reg src)
          o (rr_fields-rm size dst src code hd hs) (rr_fields-reg size dst src code hd hs))

pub binary_rm-Encodes :
    (gs : TextGenState) (op : BinaryOp) (size dst : ℕ) (src : SibdAddr)
    → IsSize size
    → dst < 16
    → IsAddr src
    → Encodes gs
        (binary op size (general_reg dst) (in_memory (rm_of src)))
        (write_elf_binary_instr_rm gs (binary_opcode op + 2) (binary_opcode op + 3) size dst src)
unfolding write_elf_binary_instr_rm with_addr IsRead sized head_of
binary_rm-Encodes gs op size dst src s h valid = elim (get_addr_bytes-Ok src valid) [
  | addr_ok a run r ↦
      let o = load-IsOpcode op (size == 1) in
      let code = sized size (binary_opcode op + 2) (binary_opcode op + 3) in
      let f = rm_fields size dst a code src in
      let after =
        write_mem gs (rm_front (binary_opcode op + 2) (binary_opcode op + 3) size dst a)
          (x64_reg_val dst) a in
      Writes-Encodes gs after f (binary op size (general_reg dst) (in_memory (rm_of src)))
        (write_elf_binary_instr_rm gs (binary_opcode op + 2) (binary_opcode op + 3) size dst src)
        (rw run refl)
        (rm-Writes gs (binary_opcode op + 2) (binary_opcode op + 3) size dst src a r h o.fresh)
        (λ rest.
          read_asm-load (record { value = f; rest = rest }) size (rm_size s dst a code h o.parity)
            op (size == 1) (general_reg dst) (in_memory (rm_of src)) o
            (rm_fields-reg size dst a code src h) (rm_operand-rm_of f.head.has_rex size src))
]

pub binary_mr-Encodes :
    (gs : TextGenState) (op : BinaryOp) (size src : ℕ) (dst : SibdAddr)
    → IsSize size
    → src < 16
    → IsAddr dst
    → Encodes gs
        (binary op size (in_memory (rm_of dst)) (general_reg src))
        (write_elf_binary_instr_mr gs (binary_opcode op) (binary_opcode op + 1) size dst src)
unfolding write_elf_binary_instr_mr with_addr IsRead sized head_of
binary_mr-Encodes gs op size src dst s h valid = elim (get_addr_bytes-Ok dst valid) [
  | addr_ok a run r ↦
      let o = store-IsOpcode op (size == 1) in
      let code = sized size (binary_opcode op) (binary_opcode op + 1) in
      let f = rm_fields size src a code dst in
      let after =
        write_mem gs (rm_front (binary_opcode op) (binary_opcode op + 1) size src a)
          (x64_reg_val src) a in
      Writes-Encodes gs after f (binary op size (in_memory (rm_of dst)) (general_reg src))
        (write_elf_binary_instr_mr gs (binary_opcode op) (binary_opcode op + 1) size dst src)
        (rw run refl)
        (rm-Writes gs (binary_opcode op) (binary_opcode op + 1) size src dst a r h o.fresh)
        (λ rest.
          read_asm-store (record { value = f; rest = rest }) size (rm_size s src a code h o.parity)
            op (size == 1) (in_memory (rm_of dst)) (general_reg src) o
            (rm_operand-rm_of f.head.has_rex size dst) (rm_fields-reg size src a code dst h))
]

pub binary_ri-Encodes :
    (gs : TextGenState) (op : BinaryOp) (size dst imm : ℕ)
    → IsSize size
    → dst < 16
    → imm < 2 ^ 32
    → Encodes gs
        (binary_imm op size (general_reg dst) (imm_value size imm))
        (some (write_elf_binary_instr_ri gs 0x80 0x83 0x81 (binary_ext op) size dst imm))
unfolding write_elf_binary_instr_ri IsRead head_of
binary_ri-Encodes gs op size dst imm s h fits =
    let ext = binary_ext op in
    let code = imm_opcode 0x80 0x83 0x81 size imm in
    let o = imm_opcode-IsSized size imm in
    let f = r_fields size ext dst code in
    let after = write_direct gs (r_front code size dst) ext (x64_reg_val dst) in
    Writes-Encodes_imm gs after f (short_imm_bytes size imm)
      (binary_imm op size (general_reg dst) (imm_value size imm))
      (some (write_elf_binary_instr_ri gs 0x80 0x83 0x81 ext size dst imm)) refl
      (r-Writes gs code size ext dst h (small ext (binary_ext-below op)) o.fresh)
      (λ rest.
        read_asm-imm (record { value = f; rest = short_imm_bytes size imm ++ rest }) size
          (r_size s dst code h o.parity) op (general_reg dst) (imm_value size imm) rest o.class
          (ap binary_at
              (ext_low ext ((bit (size == 8) * 8 + dst / 8) / 4 % 2) (binary_ext-below op))
            ∙ binary_at-ext op)
          (r_fields-reg size ext dst code h) (read_imm-short_imm_bytes s imm rest fits))

pub binary_mi-Encodes :
    (gs : TextGenState) (op : BinaryOp) (size imm : ℕ) (dst : SibdAddr)
    → IsSize size
    → IsAddr dst
    → imm < 2 ^ 32
    → Encodes gs
        (binary_imm op size (in_memory (rm_of dst)) (imm_value size imm))
        (write_elf_binary_instr_mi gs 0x80 0x83 0x81 (binary_ext op) size dst imm)
unfolding write_elf_binary_instr_mi with_addr IsRead head_of
binary_mi-Encodes gs op size imm dst s valid fits = elim (get_addr_bytes-Ok dst valid) [
  | addr_ok a run r ↦
      let ext = binary_ext op in
      let code = imm_opcode 0x80 0x83 0x81 size imm in
      let o = imm_opcode-IsSized size imm in
      let f = m_fields size ext a code dst in
      let after = write_mem gs (m_front code size a) ext a in
      Writes-Encodes_imm gs after f (short_imm_bytes size imm)
        (binary_imm op size (in_memory (rm_of dst)) (imm_value size imm))
        (write_elf_binary_instr_mi gs 0x80 0x83 0x81 ext size dst imm) (rw run refl)
        (m-Writes gs code size ext dst a r (small ext (binary_ext-below op)) o.fresh)
        (λ rest.
          read_asm-imm (record { value = f; rest = short_imm_bytes size imm ++ rest }) size
            (m_size s a code o.parity) op (in_memory (rm_of dst)) (imm_value size imm) rest o.class
            (ap binary_at
                (ext_low ext (rex_bits size 0 a.rex_x a.rex_b / 4 % 2) (binary_ext-below op))
              ∙ binary_at-ext op)
            (rm_operand-rm_of f.head.has_rex size dst) (read_imm-short_imm_bytes s imm rest fits))
]
