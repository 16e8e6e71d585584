-- ===== src/Prelude/Bits.antt =====
-- Single bits of a 32-bit mask: u32_set_bit and u32_is_bit_set of src/cstring.c, for bits below 32.
use Prim.Native.Nat.{
  ℕ, zero, suc, ◌+◌, ◌*◌, ◌/◌, ◌%◌, ◌^◌, ◌≤◌, min, max, bit_and, bit_or, digits, bit_and-bitwise,
  bit_or-bitwise,
}
use mathlib.Core.Path.{◌≡◌, refl, sym, ap, ◌∙◌}
use mathlib.Core.Bool.{Bool, false, not, ◌||◌}
use native.Mathlib.Omega.{arith}
use native.Mathlib.Nat.{pow-suc}
use nibble.Prelude.Tests.{◌==◌}

-- `mask |= (1 << bit)`
unfoldable pub u32_set_bit : ℕ → ℕ → ℕ
u32_set_bit mask bit = bit_or mask (2 ^ bit)

-- `mask & (1 << bit)`, as a truth value
unfoldable pub u32_is_bit_set : ℕ → ℕ → Bool
u32_is_bit_set mask bit = not (bit_and mask (2 ^ bit) == 0)

-- The digit recursion that the native operations stand for: any two amounts of fuel that cover the
-- first number give the same.
module _ (end : ℕ → ℕ) (join : ℕ → ℕ → ℕ) where
  fuel_irrelevant :
      (fuel other x y : ℕ)
      → x ≤ fuel
      → x ≤ other
      → digits end join fuel x y ≡ digits end join other x y
  fuel_irrelevant fuel other zero y h k = no_digits fuel ∙ sym (no_digits other)
    where
      no_digits : (f : ℕ) → digits end join f 0 y ≡ end y
      no_digits zero = refl
      no_digits (suc f) = refl
  fuel_irrelevant zero other (suc x) y h k = absurd (omega arith)
  fuel_irrelevant (suc fuel) zero (suc x) y h k = absurd (omega arith)
  fuel_irrelevant (suc fuel) (suc other) (suc x) y h k =
      let half : suc x / 2 ≤ x = omega arith in
      ap (λ t. t * 2 + join (suc x % 2) (y % 2))
        (fuel_irrelevant fuel other (suc x / 2) (y / 2) (omega arith) (omega arith))

pub bit_or_low : (x y : ℕ) → bit_or x y ≡ bit_or (x / 2) (y / 2) * 2 + max (x % 2) (y % 2)
bit_or_low zero y = omega (arith, bit_or-bitwise 0 y, bit_or-bitwise 0 (y / 2))
bit_or_low (suc x) y =
    let half = suc x / 2 in
    let same = fuel_irrelevant (λ t. t) max half x half (y / 2) (omega arith) (omega arith) in
    omega (arith, same, bit_or-bitwise half (y / 2), bit_or-bitwise (suc x) y)

pub bit_and_low : (x y : ℕ) → bit_and x y ≡ bit_and (x / 2) (y / 2) * 2 + min (x % 2) (y % 2)
bit_and_low zero y = omega (arith, bit_and-bitwise 0 y, bit_and-bitwise 0 (y / 2))
bit_and_low (suc x) y =
    let half = suc x / 2 in
    let same = fuel_irrelevant (λ t. 0) min half x half (y / 2) (omega arith) (omega arith) in
    omega (arith, same, bit_and-bitwise half (y / 2), bit_and-bitwise (suc x) y)

pow_double : (k : ℕ) → (2 ^ suc k / 2 ≡ 2 ^ k) × (2 ^ suc k % 2 ≡ 0)
pow_double k = (omega (arith, pow-suc 2 k), omega (arith, pow-suc 2 k))

and_nothing : (bound x : ℕ) → x ≤ bound → bit_and x 0 ≡ 0
and_nothing bound zero h = refl
and_nothing zero (suc x) h = absurd (omega arith)
and_nothing (suc bound) (suc x) h =
    let rest = and_nothing bound (suc x / 2) (omega arith) in
    omega (arith, rest, bit_and_low (suc x) 0)

pub bit_and-zero : (x : ℕ) → bit_and x 0 ≡ 0
bit_and-zero x = and_nothing x x (omega arith)

or_nothing : (bound x : ℕ) → x ≤ bound → bit_or x 0 ≡ x
or_nothing bound zero h = refl
or_nothing zero (suc x) h = absurd (omega arith)
or_nothing (suc bound) (suc x) h =
    let rest = or_nothing bound (suc x / 2) (omega arith) in
    omega (arith, rest, bit_or_low (suc x) 0)

pub bit_or-zero : (x : ℕ) → bit_or x 0 ≡ x
bit_or-zero x = or_nothing x x (omega arith)

set_zero : (m : ℕ) → u32_set_bit m 0 ≡ m / 2 * 2 + 1
unfolding u32_set_bit
set_zero m = omega (arith, bit_or_low m 1, bit_or-zero (m / 2))

set_suc : (m k : ℕ) → u32_set_bit m (suc k) ≡ u32_set_bit (m / 2) k * 2 + m % 2
unfolding u32_set_bit
set_suc m k = rw (bit_or_low, (pow_double k).0, (pow_double k).1) (omega arith)

is_zero : (m : ℕ) → u32_is_bit_set m 0 ≡ (m % 2 == 1)
unfolding u32_is_bit_set
is_zero m = ground (arith, bit_and_low m 1, bit_and-zero (m / 2))

is_suc : (m k : ℕ) → u32_is_bit_set m (suc k) ≡ u32_is_bit_set (m / 2) k
unfolding u32_is_bit_set
is_suc m k = rw (bit_and_low m (2 ^ suc k), (pow_double k).0, (pow_double k).1) (ground arith)

-- Setting a bit sets that bit and keeps every other.
pub is_bit_set-set_bit :
    (m a b : ℕ) → u32_is_bit_set (u32_set_bit m a) b ≡ (a == b || u32_is_bit_set m b)
is_bit_set-set_bit m zero zero = rw (is_zero, set_zero) (ground arith)
is_bit_set-set_bit m zero (suc b) =
    let half : (m / 2 * 2 + 1) / 2 ≡ m / 2 = omega arith in
    rw (is_suc, set_zero, half, is_suc m b) (ground arith)
is_bit_set-set_bit m (suc a) zero =
    let low : (u32_set_bit (m / 2) a * 2 + m % 2) % 2 ≡ m % 2 = omega arith in
    rw (is_zero, set_suc, low, is_zero m) (ground arith)
is_bit_set-set_bit m (suc a) (suc b) =
    let half : (u32_set_bit (m / 2) a * 2 + m % 2) / 2 ≡ u32_set_bit (m / 2) a = omega arith in
    rw (is_suc, set_suc, half, is_suc m b, is_bit_set-set_bit (m / 2) a b) (ground arith)

-- The empty mask.
pub is_bit_set-zero : (b : ℕ) → u32_is_bit_set 0 b ≡ false
is_bit_set-zero zero = rw (is_zero)
is_bit_set-zero (suc b) = rw (is_suc 0 b) (is_bit_set-zero b)
