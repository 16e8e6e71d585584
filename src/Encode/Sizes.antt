-- ===== src/Encode/Sizes.antt =====
-- The sizes and the extensions that are read of the forms of src/x64_gen/machine_code.c.
use nibble.Prelude.{
  ℕ, ◌+◌, ◌*◌, ◌/◌, ◌%◌, ◌<◌, ◌≡◌, true, false, ◌&&◌, ◌||◌, ltb, ◌==◌, if◌then◌else◌, arith,
}
use nibble.Encode.Addr.{AddrBytes, bit}
use nibble.Encode.Decode.{operand_size}
use nibble.Encode.Prefixes.{is_high, rex_bits, rm_head, m_head, r_head, rr_head, rex_bits-w}
use nibble.Encode.Meaning.{IsSize, operand_size-head}
use nibble.Encode.Bytes.{bit-below}

-- The size that is read of each form is the one that was written.
pub rm_size :
    {size : ℕ}
    → IsSize size
    → (reg : ℕ) (a : AddrBytes) (op : ℕ) → reg < 16
    → op % 2 ≡ (if size == 1 then 0 else 1)
    → operand_size (rm_head size reg a op) ≡ size
rm_size {size = size} s reg a op h parity =
    operand_size-head s (ltb 7 reg || a.rex_b || a.rex_x || size == 8) (size == 1 && is_high reg)
      (rex_bits size reg a.rex_x a.rex_b) op parity (rex_bits-w size reg a.rex_x a.rex_b h)

pub m_size :
    {size : ℕ}
    → IsSize size
    → (a : AddrBytes) (op : ℕ) → op % 2 ≡ (if size == 1 then 0 else 1)
    → operand_size (m_head size a op) ≡ size
m_size {size = size} s a op parity =
    operand_size-head s (size == 8 || a.rex_b || a.rex_x) false (rex_bits size 0 a.rex_x a.rex_b) op
      parity (rex_bits-w size 0 a.rex_x a.rex_b (omega arith))

pub r_size :
    {size : ℕ}
    → IsSize size
    → (reg op : ℕ) → reg < 16
    → op % 2 ≡ (if size == 1 then 0 else 1)
    → operand_size (r_head size reg op) ≡ size
r_size {size = size} s reg op h parity =
    operand_size-head s (size == 8 || ltb 7 reg) (size == 1 && is_high reg)
      (bit (size == 8) * 8 + reg / 8) op parity (omega (arith, bit-below (size == 8)))

pub rr_size :
    {size : ℕ}
    → IsSize size
    → (dst src op : ℕ) → dst < 16
    → src < 16
    → op % 2 ≡ (if size == 1 then 0 else 1)
    → operand_size (rr_head size dst src op) ≡ size
rr_size {size = size} s dst src op hd hs parity =
    operand_size-head s (size == 8 || ltb 7 src || ltb 7 dst)
      (size == 1 && (is_high dst || is_high src)) (bit (size == 8) * 8 + src / 8 * 4 + dst / 8) op
      parity (omega (arith, bit-below (size == 8)))

-- An extension of the opcode stands in the low bits of the register field.
pub ext_low : (ext v : ℕ) → ltb ext 8 ≡ true → (ext % 8 + v * 8) % 8 ≡ ext
ext_low ext v h = ground (arith, h)

-- Below 8, an extension is below 16.
pub small : (ext : ℕ) → ltb ext 8 ≡ true → ext < 16
small ext h = ground (arith, h)
