-- ===== src/Encode/Prefixes.antt =====
-- The bytes that the writers of src/x64_gen/machine_code.c put in front of a ModRM byte, as the processor reads them.
use nibble.Prelude.{
  ℕ, ◌+◌, ◌*◌, ◌/◌, ◌%◌, ◌<◌, ◌≡◌, Bool, true, false, ◌&&◌, ◌||◌, ltb, leb, ◌==◌, arith,
}
use nibble.Encode.Addr.{AddrBytes, bit, rex_prefix, rex_nosib}
use nibble.Encode.Writers.{sized, rm_front, m_front, r_front, rr_front}
use nibble.Encode.Decode.{Head}
use nibble.Encode.Fronts.{head_of, is_opcode, read_head-front, IsFront}
use nibble.Encode.Bytes.{x64_reg_val_self, rex_prefix-digits, high_first, high_last, bit-below}

-- AH, CH, DH and BH without a REX prefix
abbrev pub is_high : ℕ → Bool
is_high r = leb 4 r && leb r 7

-- The low half of the REX prefix
abbrev pub rex_bits : ℕ → ℕ → Bool → Bool → ℕ
rex_bits size reg x b = bit (size == 8) * 8 + reg / 8 * 4 + bit x * 2 + bit b

abbrev pub rm_head : ℕ → ℕ → AddrBytes → ℕ → Head
rm_head size reg a op =
    head_of size (ltb 7 reg || a.rex_b || a.rex_x || size == 8) (size == 1 && is_high reg)
      (rex_bits size reg a.rex_x a.rex_b) op

abbrev pub m_head : ℕ → AddrBytes → ℕ → Head
m_head size a op =
    head_of size (size == 8 || a.rex_b || a.rex_x) false (rex_bits size 0 a.rex_x a.rex_b) op

abbrev pub r_head : ℕ → ℕ → ℕ → Head
r_head size reg op =
    head_of size (size == 8 || ltb 7 reg) (size == 1 && is_high reg) (bit (size == 8) * 8 + reg / 8)
      op

abbrev pub rr_head : ℕ → ℕ → ℕ → ℕ → Head
rr_head size dst src op =
    head_of size (size == 8 || ltb 7 src || ltb 7 dst) (size == 1 && (is_high dst || is_high src))
      (bit (size == 8) * 8 + src / 8 * 4 + dst / 8) op

-- Where no REX prefix is needed, its bits are 0.
rm_no_bits :
    (w b x : Bool) (reg : ℕ)
    → reg < 16
    → (ltb 7 reg || b || x || w) ≡ false
    → bit w * 8 + reg / 8 * 4 + bit x * 2 + bit b ≡ 0
rm_no_bits w b x reg h none_if = ground arith

rex_bits-below : (size reg : ℕ) (x b : Bool) → reg < 16 → rex_bits size reg x b < 16
rex_bits-below size reg x b h = ground (arith)

-- The bits of a REX prefix, taken out of its low half
pub rex_bits-x : (size reg : ℕ) (x b : Bool) → rex_bits size reg x b / 2 % 2 ≡ bit x
rex_bits-x size reg x b = omega (arith, bit-below x, bit-below b)

pub rex_bits-b : (size reg : ℕ) (x b : Bool) → rex_bits size reg x b % 2 ≡ bit b
rex_bits-b size reg x b = omega (arith, bit-below x, bit-below b)

pub rex_bits-r :
    (size reg : ℕ) (x b : Bool) → reg < 16 → reg % 8 + rex_bits size reg x b / 4 % 2 * 8 ≡ reg
rex_bits-r size reg x b h = omega (arith, bit-below x, bit-below b)

pub rex_bits-w :
    (size reg : ℕ) (x b : Bool) → reg < 16 → rex_bits size reg x b / 8 ≡ bit (size == 8)
rex_bits-w size reg x b h = omega (arith, bit-below x, bit-below b)

pub rm_front-IsFront :
    (o1 ol size reg : ℕ) (a : AddrBytes)
    → reg < 16
    → is_opcode (sized size o1 ol) ≡ true
    → IsFront (rm_front o1 ol size reg a) (rm_head size reg a (sized size o1 ol))
unfolding IsFront rm_front
rm_front-IsFront o1 ol size reg a h op bytes =
    let v = rex_bits size reg a.rex_x a.rex_b in
    let bits =
      rex_prefix-digits (bit (size == 8)) (reg / 8) (bit a.rex_x) (bit a.rex_b)
        (bit-below (size == 8)) (omega arith) (bit-below a.rex_x) (bit-below a.rex_b) in
    rw (x64_reg_val_self reg h, high_first, high_last, bits)
      (read_head-front size (ltb 7 reg || a.rex_b || a.rex_x || size == 8)
        (size == 1 && is_high reg) v (sized size o1 ol) bytes op
        (rex_bits-below size reg a.rex_x a.rex_b h) (rm_no_bits (size == 8) a.rex_b a.rex_x reg h))

m_no_bits : (w b x : Bool) → (w || b || x) ≡ false → bit w * 8 + 0 / 8 * 4 + bit x * 2 + bit b ≡ 0
m_no_bits w b x none_if = ground arith

pub m_front-IsFront :
    (op size : ℕ) (a : AddrBytes)
    → is_opcode op ≡ true
    → IsFront (m_front op size a) (m_head size a op)
unfolding IsFront m_front
m_front-IsFront op size a h bytes =
    let v = rex_bits size 0 a.rex_x a.rex_b in
    let bits =
      rex_prefix-digits (bit (size == 8)) 0 (bit a.rex_x) (bit a.rex_b) (bit-below (size == 8))
        (omega arith) (bit-below a.rex_x) (bit-below a.rex_b) in
    rw (bits) (
      read_head-front size (size == 8 || a.rex_b || a.rex_x) false v op bytes h
        (rex_bits-below size 0 a.rex_x a.rex_b (omega arith))
        (m_no_bits (size == 8) a.rex_b a.rex_x))

r_no_bits : (w : Bool) (reg : ℕ) → reg < 16 → (w || ltb 7 reg) ≡ false → bit w * 8 + reg / 8 ≡ 0
r_no_bits w reg h none_if = ground arith

pub r_front-IsFront :
    (op size reg : ℕ)
    → reg < 16
    → is_opcode op ≡ true
    → IsFront (r_front op size reg) (r_head size reg op)
unfolding IsFront r_front rex_nosib
r_front-IsFront op size reg h fresh bytes =
    let digits =
      rex_prefix-digits (bit (size == 8)) 0 0 (reg / 8) (bit-below (size == 8)) (omega arith)
        (omega arith) (omega arith) in
    let bits : rex_prefix (bit (size == 8)) 0 0 (reg / 8) ≡ 64 + (bit (size == 8) * 8 + reg / 8) =
      omega (arith, digits) in
    rw (x64_reg_val_self reg h, high_first, high_last, bits)
      (read_head-front size (size == 8 || ltb 7 reg) (size == 1 && is_high reg)
        (bit (size == 8) * 8 + reg / 8) op bytes fresh (omega (arith, bit-below (size == 8)))
        (r_no_bits (size == 8) reg h))

rr_no_bits :
    (w : Bool) (dst src : ℕ)
    → dst < 16
    → src < 16
    → (w || ltb 7 src || ltb 7 dst) ≡ false
    → bit w * 8 + src / 8 * 4 + dst / 8 ≡ 0
rr_no_bits w dst src hd hs none_if = ground arith

pub rr_front-IsFront :
    (o1 ol size dst src : ℕ)
    → dst < 16
    → src < 16
    → is_opcode (sized size o1 ol) ≡ true
    → IsFront (rr_front o1 ol size dst src) (rr_head size dst src (sized size o1 ol))
unfolding IsFront rr_front rex_nosib
rr_front-IsFront o1 ol size dst src hd hs op bytes =
    let digits =
      rex_prefix-digits (bit (size == 8)) (src / 8) 0 (dst / 8) (bit-below (size == 8))
        (omega arith) (omega arith) (omega arith) in
    let bits : rex_prefix (bit (size == 8)) (src / 8) 0 (dst / 8)
        ≡ 64 + (bit (size == 8) * 8 + src / 8 * 4 + dst / 8) =
      omega (arith, digits) in
    rw (x64_reg_val_self dst hd, x64_reg_val_self src hs, high_first, high_last, bits)
      (read_head-front size (size == 8 || ltb 7 src || ltb 7 dst)
        (size == 1 && (is_high dst || is_high src)) (bit (size == 8) * 8 + src / 8 * 4 + dst / 8)
        (sized size o1 ol) bytes op (omega (arith, bit-below (size == 8)))
        (rr_no_bits (size == 8) dst src hd hs))
