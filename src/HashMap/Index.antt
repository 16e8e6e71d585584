-- ===== src/HashMap/Index.antt =====
-- The indices of the table of src/hash_map.c: a mask takes the remainder, and the slots that are
-- probed for a key.
use nibble.Prelude.{
  ℕ, zero, suc, ◌+◌, ◌-◌, ◌*◌, ◌/◌, ◌%◌, ◌^◌, ◌<◌, ◌≡◌, sym, ap, ◌∙◌, inl, inr, leb, bit_and, arith,
  Bool-cases,
}
use nibble.Prelude.Bits.{bit_and_low, bit_and-zero}
use native.Mathlib.Nat.{
  mod-one, mod-lt, mod-eq_of_lt, mod-add-mod, add-mod_right, mul-add-mod_self_left, div-add-mod,
  pow-suc,
}

half_mask : (p : ℕ) → 0 < p → ((2 * p - 1) / 2 ≡ p - 1) × ((2 * p - 1) % 2 ≡ 1)
half_mask p h = (omega arith, omega arith)

mod_double : (x p : ℕ) → 0 < p → x / 2 % p * 2 + x % 2 ≡ x % (2 * p)
mod_double x p h =
    let r = x / 2 % p in
    let q = x / 2 / p in
    let parts : p * q + r ≡ x / 2 = div-add-mod (x / 2) p in
    let small : r < p = mod-lt (x / 2) h in
    let whole : 2 * p * q + (r * 2 + x % 2) ≡ x = grind arith in
    sym (mod-eq_of_lt {n = r * 2 + x % 2} {m = 2 * p} (omega arith))
    ∙ sym (mul-add-mod_self_left (2 * p) q (r * 2 + x % 2))
    ∙ ap (λ t. t % (2 * p)) whole

pub pow_pos : (k : ℕ) → 0 < 2 ^ k
pow_pos zero = omega arith
pow_pos (suc k) = omega (arith, pow-suc 2 k, pow_pos k)

-- `x & (2^k - 1)` is the remainder by 2^k.
pub bit_and-mask : (k x : ℕ) → bit_and x (2 ^ k - 1) ≡ x % 2 ^ k
bit_and-mask zero x = bit_and-zero x ∙ sym (mod-one x)
bit_and-mask (suc k) x =
    let positive = pow_pos k in
    let (half, odd) = half_mask (2 ^ k) positive in
    let double : 2 ^ suc k ≡ 2 * 2 ^ k = omega (arith, pow-suc 2 k) in
    rw (double, bit_and_low, half, odd, bit_and-mask k (x / 2))
      (omega (arith, mod_double x (2 ^ k) positive))

-- The slot that is probed for a hash at distance `d`
abbrev pub probe : ℕ → ℕ → ℕ → ℕ
probe cap h d = (h + d) % cap

-- Every slot is probed.
pub probe-reaches : (cap h i : ℕ) → i < cap → (d : ℕ) × (d < cap) × (probe cap h d ≡ i)
probe-reaches cap h i lt = elim (Bool-cases (leb (h % cap) i)) [
  | inl before ↦
      let d = i - h % cap in
      let there : h % cap + d ≡ i = ground arith in
      (d, omega arith, sym (mod-add-mod h cap d) ∙ ap (λ t. t % cap) there ∙ mod-eq_of_lt lt)
  | inr behind ↦
      let d = i + cap - h % cap in
      let home : h % cap < cap = mod-lt h (omega arith) in
      let there : h % cap + d ≡ i + cap = omega arith in
      (
        d,
        ground arith,
        sym (mod-add-mod h cap d) ∙ ap (λ t. t % cap) there ∙ add-mod_right i cap ∙ mod-eq_of_lt lt,
      )
]

pub probe-suc : (cap h d : ℕ) → (probe cap h d + 1) % cap ≡ probe cap h (suc d)
probe-suc cap h d = mod-add-mod (h + d) cap 1 ∙ ap (λ t. t % cap) (omega arith)
