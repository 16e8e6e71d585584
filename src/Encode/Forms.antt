-- ===== src/Encode/Forms.antt =====
-- The forms of X64_elf_gen_instr in src/x64_gen/machine_code.c: what each appends, and the fields that are read of it.
use nibble.Prelude.{
  ℕ, ◌+◌, ◌*◌, ◌/◌, ◌%◌, ◌<◌, ◌≡◌, ap, ◌∙◌, true, ◌&&◌, ◌||◌, List, [], ◌++◌, ltb, ◌==◌, Option,
  some, arith, append_assoc,
}
use nibble.Encode.Addr.{SibdAddr, AddrBytes, bit, x64_reg_val}
use nibble.Encode.Writers.{sized, rm_front, m_front, r_front, rr_front}
use nibble.Encode.Text.{TextGenState, push_bytes, write_mem, write_direct}
use nibble.Encode.Decode.{
  direct, general_reg, Asm, Fields, read_asm, then_asm, disassemble, reg_operand, rm_operand,
}
use nibble.Encode.Operands.{rm_of, AddrReads}
use nibble.Encode.Fronts.{head_of, is_opcode, Writes, write_mem-Writes, write_direct-Writes}
use nibble.Encode.Prefixes.{
  is_high, rex_bits, rm_head, m_head, r_head, rr_head, rex_bits-x, rex_bits-b, rex_bits-r,
  rm_front-IsFront, m_front-IsFront, r_front-IsFront, rr_front-IsFront,
}
use nibble.Encode.Meaning.{reg_operand-general}
use nibble.Encode.Bytes.{x64_reg_val_self, bit-below}

-- An instruction is written, behind what is there, as bytes that the processor reads as `asm`, whatever follows them.
pub record Encodes (gs : TextGenState) (asm : Asm) (o : Option TextGenState) : Type 0 where
  pub after : TextGenState
  pub run : o ≡ some after
  pub code : List ℕ
  pub appended : after.buffer ≡ gs.buffer ++ code
  pub reads :
      (rest : List ℕ) → disassemble (code ++ rest) ≡ some (record { value = asm; rest = rest })

-- What is read of the fields and of the bytes `tail` behind them
unfoldable pub IsRead : Fields → List ℕ → Asm → Type 0
IsRead f tail asm =
    (rest : List ℕ)
    → read_asm (record { value = f; rest = tail ++ rest })
      ≡ some (record { value = asm; rest = rest })

pub Writes-Encodes :
    (gs after : TextGenState) (f : Fields) (asm : Asm) (o : Option TextGenState)
    → o ≡ some after
    → Writes gs after f
    → IsRead f [] asm
    → Encodes gs asm o
unfolding IsRead disassemble then_asm
Writes-Encodes gs after f asm o run w means = record {
  after = after;
  run = run;
  code = w.code;
  appended = w.appended;
  reads = λ rest. rw (w.reads rest) (means rest);
}

-- The same with an immediate
pub Writes-Encodes_imm :
    (gs after : TextGenState) (f : Fields) (imm : List ℕ) (asm : Asm) (o : Option TextGenState)
    → o ≡ some (push_bytes after imm)
    → Writes gs after f
    → IsRead f imm asm
    → Encodes gs asm o
unfolding IsRead disassemble then_asm push_bytes
Writes-Encodes_imm gs after f imm asm o run w means = record {
  after = push_bytes after imm;
  run = run;
  code = w.code ++ imm;
  appended = ap (λ t. t ++ imm) w.appended ∙ append_assoc gs.buffer w.code imm;
  reads = λ rest. rw (append_assoc w.code imm rest, w.reads (imm ++ rest)) (means rest);
}

-- The fields that are read of each form

abbrev pub rm_fields : ℕ → ℕ → AddrBytes → ℕ → SibdAddr → Fields
rm_fields size reg a op addr = record {
  head = rm_head size reg a op;
  reg = reg % 8 + rex_bits size reg a.rex_x a.rex_b / 4 % 2 * 8;
  rm = rm_of addr;
}

abbrev pub m_fields : ℕ → ℕ → AddrBytes → ℕ → SibdAddr → Fields
m_fields size ext a op addr = record {
  head = m_head size a op;
  reg = ext % 8 + rex_bits size 0 a.rex_x a.rex_b / 4 % 2 * 8;
  rm = rm_of addr;
}

pub rm-Writes :
    (gs : TextGenState) (o1 ol size reg : ℕ) (addr : SibdAddr) (a : AddrBytes)
    → AddrReads addr a
    → reg < 16
    → is_opcode (sized size o1 ol) ≡ true
    → Writes gs
        (write_mem gs (rm_front o1 ol size reg a) (x64_reg_val reg) a)
        (rm_fields size reg a (sized size o1 ol) addr)
unfolding head_of
rm-Writes gs o1 ol size reg addr a r h fresh = rw (x64_reg_val_self reg h) (
    write_mem-Writes gs (rm_front o1 ol size reg a) reg (rm_head size reg a (sized size o1 ol)) addr
      a (rm_front-IsFront o1 ol size reg a h fresh) r h (rex_bits-x size reg a.rex_x a.rex_b)
      (rex_bits-b size reg a.rex_x a.rex_b))

pub m-Writes :
    (gs : TextGenState) (op size ext : ℕ) (addr : SibdAddr) (a : AddrBytes)
    → AddrReads addr a
    → ext < 16
    → is_opcode op ≡ true
    → Writes gs (write_mem gs (m_front op size a) ext a) (m_fields size ext a op addr)
unfolding head_of
m-Writes gs op size ext addr a r h fresh =
    write_mem-Writes gs (m_front op size a) ext (m_head size a op) addr a
      (m_front-IsFront op size a fresh) r h (rex_bits-x size 0 a.rex_x a.rex_b)
      (rex_bits-b size 0 a.rex_x a.rex_b)

abbrev pub r_fields : ℕ → ℕ → ℕ → ℕ → Fields
r_fields size ext reg op = record {
  head = r_head size reg op;
  reg = ext % 8 + (bit (size == 8) * 8 + reg / 8) / 4 % 2 * 8;
  rm = direct (reg % 8 + (bit (size == 8) * 8 + reg / 8) % 2 * 8);
}

pub r-Writes :
    (gs : TextGenState) (op size ext reg : ℕ)
    → reg < 16
    → ext < 16
    → is_opcode op ≡ true
    → Writes gs
        (write_direct gs (r_front op size reg) ext (x64_reg_val reg))
        (r_fields size ext reg op)
unfolding head_of
r-Writes gs op size ext reg h he fresh = rw (x64_reg_val_self reg h) (
    write_direct-Writes gs (r_front op size reg) ext reg (r_head size reg op)
      (r_front-IsFront op size reg h fresh) he h)

abbrev pub rr_fields : ℕ → ℕ → ℕ → ℕ → Fields
rr_fields size dst src op =
    let v = bit (size == 8) * 8 + src / 8 * 4 + dst / 8 in
    record {
      head = rr_head size dst src op;
      reg = src % 8 + v / 4 % 2 * 8;
      rm = direct (dst % 8 + v % 2 * 8);
    }

pub rr-Writes :
    (gs : TextGenState) (o1 ol size dst src : ℕ)
    → dst < 16
    → src < 16
    → is_opcode (sized size o1 ol) ≡ true
    → Writes gs
        (write_direct gs (rr_front o1 ol size dst src) (x64_reg_val src) (x64_reg_val dst))
        (rr_fields size dst src (sized size o1 ol))
unfolding head_of
rr-Writes gs o1 ol size dst src hd hs fresh =
    rw (x64_reg_val_self dst hd, x64_reg_val_self src hs)
      (write_direct-Writes gs (rr_front o1 ol size dst src) src dst
        (rr_head size dst src (sized size o1 ol)) (rr_front-IsFront o1 ol size dst src hd hs fresh)
        hs hd)

-- The operands of these fields

pub rm_fields-reg :
    (size reg : ℕ) (a : AddrBytes) (op : ℕ) (addr : SibdAddr)
    → reg < 16
    → reg_operand
        (rm_fields size reg a op addr).head.has_rex
        size
        (rm_fields size reg a op addr).reg
      ≡ general_reg reg
unfolding head_of
rm_fields-reg size reg a op addr h = rw (rex_bits-r size reg a.rex_x a.rex_b h) (
    reg_operand-general (ltb 7 reg || a.rex_b || a.rex_x || size == 8 || (size == 1 && is_high reg))
      size reg (λ one high. ground (arith, one, high)))

pub r_fields-reg :
    (size ext reg op : ℕ)
    → reg < 16
    → rm_operand (r_fields size ext reg op).head.has_rex size (r_fields size ext reg op).rm
      ≡ general_reg reg
unfolding head_of rm_operand
r_fields-reg size ext reg op h =
    let v = bit (size == 8) * 8 + reg / 8 in
    let same : reg % 8 + v % 2 * 8 ≡ reg = omega (arith, bit-below (size == 8)) in
    rw same (
      reg_operand-general (size == 8 || ltb 7 reg || (size == 1 && is_high reg)) size reg
        (λ one high. ground (arith, one, high)))

pub rr_fields-reg :
    (size dst src op : ℕ)
    → dst < 16
    → src < 16
    → reg_operand (rr_fields size dst src op).head.has_rex size (rr_fields size dst src op).reg
      ≡ general_reg src
unfolding head_of
rr_fields-reg size dst src op hd hs =
    let same : src % 8 + (bit (size == 8) * 8 + src / 8 * 4 + dst / 8) / 4 % 2 * 8 ≡ src =
      omega (arith, bit-below (size == 8)) in
    rw same (
      reg_operand-general
        (size == 8 || ltb 7 src || ltb 7 dst || (size == 1 && (is_high dst || is_high src))) size
        src (λ one high. ground (arith, one, high)))

pub rr_fields-rm :
    (size dst src op : ℕ)
    → dst < 16
    → src < 16
    → rm_operand (rr_fields size dst src op).head.has_rex size (rr_fields size dst src op).rm
      ≡ general_reg dst
unfolding head_of rm_operand
rr_fields-rm size dst src op hd hs =
    let same : dst % 8 + (bit (size == 8) * 8 + src / 8 * 4 + dst / 8) % 2 * 8 ≡ dst =
      omega (arith, bit-below (size == 8)) in
    rw same (
      reg_operand-general
        (size == 8 || ltb 7 src || ltb 7 dst || (size == 1 && (is_high dst || is_high src))) size
        dst (λ one high. ground (arith, one, high)))
