-- ===== src/Types/Powers.antt =====
-- Powers of two, and rounding up to one.
use nibble.Prelude.{
  ℕ, zero, suc, ◌+◌, ◌-◌, ◌*◌, ◌/◌, ◌%◌, ◌^◌, ◌<◌, ◌≤◌, ◌≡◌, sym, ap, ◌∙◌, inl, inr, ltb, arith,
  Bool-cases,
}
use native.Mathlib.Nat.{
  mod-eq_of_lt, mod-lt, pow-suc, mul-mod_left, div-add-mod, mul-add-mod_self_left, pow-le-pow_right,
}
use nibble.Types.Layout.{align_up_size, larger}

-- `a` is a power of two.
abbrev pub IsPow2 : ℕ → Type 0
IsPow2 a = (k : ℕ) × (a ≡ 2 ^ k)

pub pow_pos : (k : ℕ) → 0 < 2 ^ k
pow_pos zero = omega arith
pow_pos (suc k) = omega (arith, pow-suc 2 k, pow_pos k)

-- What rounding up gives, where nothing wraps around
pub record IsAlignedUp (size align up : ℕ) : Type 0 where
  pub aligned : up % align ≡ 0
  pub above : size ≤ up
  pub near : up < size + align

pub align_up_size-IsAlignedUp :
    (size align : ℕ)
    → 0 < align
    → size + align < 2 ^ 64
    → IsAlignedUp size align (align_up_size size align)
unfolding align_up_size
align_up_size-IsAlignedUp size align h room =
    let q = size + align - 1 in
    let exact : (size + align - 1) % 2 ^ 64 ≡ size + align - 1 = mod-eq_of_lt (omega arith) in
    let parts : align * (q / align) + q % align ≡ q = div-add-mod q align in
    let small : q % align < align = mod-lt q h in
    let down : q - q % align ≡ align * (q / align) + 0 = omega arith in
    rw exact (record {
      aligned =
          ap (λ t. t % align) down ∙ mul-add-mod_self_left align (q / align) 0 ∙ mod-eq_of_lt h;
      above = omega arith;
      near = omega arith;
    })

-- A power of two is a multiple of the powers of two that are not above it.
pow-multiple : (d k : ℕ) → (q : ℕ) × (2 ^ (d + k) ≡ q * 2 ^ k)
pow-multiple zero k = let same : 0 + k ≡ k = omega arith in (1, rw same (omega arith))
pow-multiple (suc d) k =
    let (q, e) = pow-multiple d k in
    let same : suc d + k ≡ suc (d + k) = omega arith in
    let double : 2 ^ suc (d + k) ≡ 2 ^ (d + k) * 2 = pow-suc 2 (d + k) in
    (2 * q, rw (same, double, e) (grind arith))

pub IsPow2-multiple : (a b : ℕ) → IsPow2 a → IsPow2 b → a ≤ b → b % a ≡ 0
IsPow2-multiple a b (k, a_pow) (j, b_pow) h = elim (Bool-cases (ltb j k)) [
  | inl beyond ↦
      let larger_power : 2 ^ suc j ≤ 2 ^ k = pow-le-pow_right (omega arith) (ground arith) in
      absurd (omega (arith, pow-suc 2 j, pow_pos j))
  | inr within ↦
      let d = j - k in
      let (q, e) = pow-multiple d k in
      let same : d + k ≡ j = ground arith in rw (a_pow, b_pow, sym same, e) (mul-mod_left q (2 ^ k))
]

pub IsPow2-larger : (a b : ℕ) → IsPow2 a → IsPow2 b → IsPow2 (larger a b)
IsPow2-larger a b p q = elim (Bool-cases (ltb a b)) [
  | inl less ↦ rw less q
  | inr not_less ↦ rw not_less p
]
