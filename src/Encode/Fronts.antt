-- ===== src/Encode/Fronts.antt =====
-- How the processor reads what the writers of src/x64_gen/machine_code.c append: the prefixes and the opcode, then
-- the ModRM byte and the operand.
use nibble.Prelude.{
  ℕ, ◌+◌, ◌*◌, ◌/◌, ◌%◌, ◌<◌, ◌≡◌, refl, ◌∙◌, Bool, true, false, not, ◌&&◌, ◌||◌, List, [], ◌∷◌,
  ◌++◌, some, ◌==◌, if◌then◌else◌, arith, inl, inr, Bool-cases, append_assoc,
}
use nibble.Encode.Addr.{SibdAddr, AddrBytes, bit, mod_direct, modrm_byte}
use nibble.Encode.Writers.{size_prefix, rex_bytes}
use nibble.Encode.Text.{TextGenState, push_bytes, sib_of, write_mem, write_direct}
use nibble.Encode.Decode.{
  direct, Head, Fields, map_read, read_rm, read_fields, read_opcode, read_rex, read_head,
}
use nibble.Encode.Operands.{rm_of, AddrReads, disp_bytes, write_addr_disp-buffer}
use nibble.Encode.Bytes.{modrm_byte-digits}

-- The prefixes and the opcode that a writer chooses
unfoldable pub head_of : ℕ → Bool → Bool → ℕ → ℕ → Head
head_of size needed no_high v op = record {
  prefix = if size == 2 then 0x66 else 0;
  has_rex = needed || no_high;
  rex = v;
  opcode = op;
}

-- No prefix has this byte.
unfoldable pub is_opcode : ℕ → Bool
is_opcode op = not (op == 0x66) && not (op / 16 == 4)

read_opcode-op :
    (prefix op : ℕ) (bytes : List ℕ)
    → is_opcode op ≡ true
    → read_rex prefix (op ∷ bytes)
      ≡ read_fields (record { prefix = prefix; has_rex = false; rex = 0; opcode = op }) bytes
unfolding read_rex read_opcode is_opcode
read_opcode-op prefix op bytes h =
    let no_rex : (op / 16 == 4) ≡ false = ground (arith, h) in rw no_rex refl

read_rex-front :
    (prefix : ℕ) (needed no_high : Bool) (v op : ℕ) (bytes : List ℕ)
    → is_opcode op ≡ true
    → v < 16
    → (needed ≡ false → v ≡ 0)
    → read_rex prefix (rex_bytes needed no_high (64 + v) ++ op ∷ bytes)
      ≡ read_fields
          (record { prefix = prefix; has_rex = needed || no_high; rex = v; opcode = op })
          bytes
unfolding rex_bytes read_rex read_opcode
read_rex-front prefix true no_high v op bytes h hv nothing =
    let high : ((64 + v) / 16 == 4) ≡ true = ground arith in
    let low : (64 + v) % 16 ≡ v = omega arith in rw (high, low) refl
read_rex-front prefix false true v op bytes h hv nothing = rw (nothing refl) refl
read_rex-front prefix false false v op bytes h hv nothing =
    rw (nothing refl, read_opcode-op prefix op bytes h) refl

read_head-plain :
    (needed no_high : Bool) (v op : ℕ) (bytes : List ℕ)
    → is_opcode op ≡ true
    → v < 16
    → read_head (rex_bytes needed no_high (64 + v) ++ op ∷ bytes)
      ≡ read_rex 0 (rex_bytes needed no_high (64 + v) ++ op ∷ bytes)
unfolding rex_bytes read_head is_opcode
read_head-plain true no_high v op bytes h hv =
    let e : (64 + v == 0x66) ≡ false = ground arith in rw e refl
read_head-plain false true v op bytes h hv = refl
read_head-plain false false v op bytes h hv =
    let e : (op == 0x66) ≡ false = ground (arith, h) in rw e refl

pub read_head-front :
    (size : ℕ) (needed no_high : Bool) (v op : ℕ) (bytes : List ℕ)
    → is_opcode op ≡ true
    → v < 16
    → (needed ≡ false → v ≡ 0)
    → read_head ((size_prefix size ++ rex_bytes needed no_high (64 + v) ++ op ∷ []) ++ bytes)
      ≡ read_fields (head_of size needed no_high v op) bytes
unfolding size_prefix head_of read_head
read_head-front size needed no_high v op bytes h hv nothing =
    let inner = append_assoc (rex_bytes needed no_high (64 + v)) (op ∷ []) bytes in
    elim (Bool-cases (size == 2)) [
      | inl e ↦ rw (e, inner) (read_rex-front 0x66 needed no_high v op bytes h hv nothing)
      | inr e ↦
          rw (e, inner)
            (read_head-plain needed no_high v op bytes h hv
              ∙ read_rex-front 0 needed no_high v op bytes h hv nothing)
    ]

-- The bytes in front of a ModRM byte that are read as `head`
unfoldable pub IsFront : List ℕ → Head → Type 0
IsFront front head = (bytes : List ℕ) → read_head (front ++ bytes) ≡ read_fields head bytes

-- What is appended to a buffer, up to the displacement, and how it is read
pub record Writes (gs after : TextGenState) (fields : Fields) : Type 0 where
  pub code : List ℕ
  pub appended : after.buffer ≡ gs.buffer ++ code
  pub reads :
      (rest : List ℕ) → read_head (code ++ rest) ≡ some (record { value = fields; rest = rest })

pub write_mem-Writes :
    (gs : TextGenState) (front : List ℕ) (reg : ℕ) (head : Head) (addr : SibdAddr) (a : AddrBytes)
    → IsFront front head
    → AddrReads addr a
    → reg < 16
    → head.rex / 2 % 2 ≡ bit a.rex_x
    → head.rex % 2 ≡ bit a.rex_b
    → Writes gs
        (write_mem gs front reg a)
        (record { head = head; reg = reg % 8 + head.rex / 4 % 2 * 8; rm = rm_of addr })
unfolding write_mem push_bytes read_fields map_read IsFront
write_mem-Writes gs front reg head addr a is_front r hr x_is b_is =
    let m = modrm_byte a.mod_bits reg a.rm in
    let start = front ++ m ∷ sib_of a in
    let digits = modrm_byte-digits a.mod_bits reg a.rm (omega (arith, r.mode)) hr r.low in
    let mode_is : m / 64 ≡ a.mod_bits = omega (arith, digits, r.mode) in
    let reg_is : m / 8 % 8 ≡ reg % 8 = omega (arith, digits) in
    let rm_is : m % 8 ≡ a.rm % 8 = omega (arith, digits) in
    record {
      code = start ++ disp_bytes a;
      appended =
          write_addr_disp-buffer (push_bytes gs start) a
          ∙ append_assoc gs.buffer start (disp_bytes a);
      reads = λ rest.
          let tail = sib_of a ++ (disp_bytes a ++ rest) in
          let shape : (start ++ disp_bytes a) ++ rest ≡ front ++ (m ∷ tail) =
            append_assoc start (disp_bytes a) rest
            ∙ append_assoc front (m ∷ sib_of a) (disp_bytes a ++ rest) in
          rw (shape, is_front (m ∷ tail), mode_is, rm_is, x_is, b_is, reg_is)
            (rw (r.reads rest) refl);
    }

pub write_direct-Writes :
    (gs : TextGenState) (front : List ℕ) (reg rm : ℕ) (head : Head)
    → IsFront front head
    → reg < 16
    → rm < 16
    → Writes gs (write_direct gs front reg rm) (record {
      head = head;
      reg = reg % 8 + head.rex / 4 % 2 * 8;
      rm = direct (rm % 8 + head.rex % 2 * 8);
    })
unfolding write_direct push_bytes read_fields map_read read_rm IsFront
write_direct-Writes gs front reg rm head is_front hr hm =
    let m = modrm_byte mod_direct reg rm in
    let digits = modrm_byte-digits mod_direct reg rm (omega arith) hr hm in
    let mode_is : m / 64 ≡ 3 = omega (arith, digits) in
    let reg_is : m / 8 % 8 ≡ reg % 8 = omega (arith, digits) in
    let rm_is : m % 8 ≡ rm % 8 = omega (arith, digits) in
    record {
      code = front ++ m ∷ [];
      appended = refl;
      reads = λ rest.
          rw (append_assoc front (m ∷ []) rest, is_front (m ∷ rest), mode_is, reg_is, rm_is) refl;
    }
