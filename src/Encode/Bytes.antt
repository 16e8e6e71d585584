-- ===== src/Encode/Bytes.antt =====
-- The ModRM byte and the REX prefix of src/x64_gen/machine_code.c in digits, and little-endian numbers.
use nibble.Prelude.{
  ℕ, ◌+◌, ◌*◌, ◌/◌, ◌%◌, ◌^◌, ◌<◌, ◌≡◌, refl, Bool, true, false, ◌==◌, List, ◌++◌, bit_and, arith,
  some,
}
use nibble.Lexer.Chars.{all_below, all_below-at}
use nibble.Encode.Addr.{x64_reg_val, modrm_byte, rex_prefix, x64_reg_8h_val, bit}
use nibble.Regs.{rax, rbx}
use nibble.Encode.Text.{imm32_bytes}
use nibble.Encode.Decode.{read_u32}

equal : (a b : ℕ) → (a == b) ≡ true → a ≡ b
equal a b h = ground arith

reg_vals_ok : all_below 16 (λ r. x64_reg_val r == r) ≡ true
unfolding all_below x64_reg_val
reg_vals_ok = refl

-- The integer registers stand for their own numbers.
pub x64_reg_val_self : (r : ℕ) → r < 16 → x64_reg_val r ≡ r
x64_reg_val_self r h =
    equal (x64_reg_val r) r (all_below-at 16 r (λ r. x64_reg_val r == r) reg_vals_ok h)

low_ok : all_below 16 (λ r. bit_and r 7 == r % 8) ≡ true
unfolding all_below
low_ok = refl

pub bit_and-low : (r : ℕ) → r < 16 → bit_and r 7 ≡ r % 8
bit_and-low r h =
    equal (bit_and r 7) (r % 8) (all_below-at 16 r (λ r. bit_and r 7 == r % 8) low_ok h)

modrm_test : ℕ → Bool
modrm_test n = modrm_byte (n / 256) (n / 16 % 16) (n % 16) == n / 256 * 64 + n / 16 % 8 * 8 + n % 8

modrm_ok : all_below 1024 modrm_test ≡ true
unfolding all_below modrm_test modrm_byte
modrm_ok = refl

modrm_at :
    (n : ℕ)
    → n < 1024
    → modrm_byte (n / 256) (n / 16 % 16) (n % 16) ≡ n / 256 * 64 + n / 16 % 8 * 8 + n % 8
unfolding modrm_test
modrm_at n h =
    equal (modrm_byte (n / 256) (n / 16 % 16) (n % 16)) (n / 256 * 64 + n / 16 % 8 * 8 + n % 8)
      (all_below-at 1024 n modrm_test modrm_ok h)

pub modrm_byte-digits :
    (mode reg rm : ℕ)
    → mode < 4
    → reg < 16
    → rm < 16
    → modrm_byte mode reg rm ≡ mode * 64 + reg % 8 * 8 + rm % 8
modrm_byte-digits mode reg rm hm hr hs =
    let n = mode * 256 + reg * 16 + rm in
    let a : n / 256 ≡ mode = omega arith in
    let b : n / 16 % 16 ≡ reg = omega arith in
    let c : n % 16 ≡ rm = omega arith in
    let same : modrm_byte (n / 256) (n / 16 % 16) (n % 16) ≡ modrm_byte mode reg rm =
      rw (a, b, c) refl in
    omega (arith, same, modrm_at n (omega arith))

rex_test : ℕ → Bool
rex_test n = rex_prefix (n / 8) (n / 4 % 2) (n / 2 % 2) (n % 2) == 64 + n

rex_ok : all_below 16 rex_test ≡ true
unfolding all_below rex_test rex_prefix
rex_ok = refl

rex_at : (n : ℕ) → n < 16 → rex_prefix (n / 8) (n / 4 % 2) (n / 2 % 2) (n % 2) ≡ 64 + n
unfolding rex_test
rex_at n h =
    equal (rex_prefix (n / 8) (n / 4 % 2) (n / 2 % 2) (n % 2)) (64 + n)
      (all_below-at 16 n rex_test rex_ok h)

pub rex_prefix-digits :
    (w r x b : ℕ)
    → w < 2
    → r < 2
    → x < 2
    → b < 2
    → rex_prefix w r x b ≡ 64 + (w * 8 + r * 4 + x * 2 + b)
rex_prefix-digits w r x b hw hr hx hb =
    let n = w * 8 + r * 4 + x * 2 + b in
    let a : n / 8 ≡ w = omega arith in
    let c : n / 4 % 2 ≡ r = omega arith in
    let d : n / 2 % 2 ≡ x = omega arith in
    let e : n % 2 ≡ b = omega arith in
    let same : rex_prefix (n / 8) (n / 4 % 2) (n / 2 % 2) (n % 2) ≡ rex_prefix w r x b =
      rw (a, c, d, e) refl in
    omega (arith, same, rex_at n (omega arith))

-- The first and the last of AH, CH, DH and BH
pub high_first : x64_reg_8h_val rax ≡ 4
unfolding x64_reg_8h_val
high_first = refl

pub high_last : x64_reg_8h_val rbx ≡ 7
unfolding x64_reg_8h_val
high_last = refl

pub bit-below : (t : Bool) → bit t < 2
bit-below true = omega arith
bit-below false = omega arith

-- Four bytes of a number below 2 ^ 32 are read as this number.
pub read_u32-imm32_bytes :
    (v : ℕ) (rest : List ℕ)
    → v < 2 ^ 32
    → read_u32 (imm32_bytes v ++ rest) ≡ some (record { value = v; rest = rest })
unfolding read_u32 imm32_bytes
read_u32-imm32_bytes v rest h =
    let same : v % 256
          + v / 2 ^ 8 % 256 * 2 ^ 8
          + v / 2 ^ 16 % 256 * 2 ^ 16
          + v / 2 ^ 24 % 256 * 2 ^ 24
        ≡ v =
      omega arith in
    rw same refl
