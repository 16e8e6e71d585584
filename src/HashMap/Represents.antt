-- ===== src/HashMap/Represents.antt =====
-- What a table of src/hash_map.c stands for: a finite map from keys to values, and the invariant that
-- makes it one.
use nibble.Prelude.{
  ℕ, zero, suc, ◌+◌, ◌*◌, ◌<◌, ◌≡◌, ◌≢◌, refl, sym, ap, ◌∙◌, inl, inr, Option, none, some, ltb,
  ◌==◌, if◌then◌else◌, arith, Bool-cases, Option-cases, subst,
}
use native.Mathlib.Nat.{mod-lt}
use nibble.HashMap.Hash.{hash_uint64}
use nibble.HashMap.Table.{HMap, hmap_get, Slot, found, absent, unfinished}
use nibble.HashMap.Index.{probe, probe-reaches}
use nibble.HashMap.Probe.{IsSized, Passed, IsFirst, at_first, hmap_get-IsFirst, cap_pos}

-- How many of the first `n` slots hold a key
unfoldable pub used : (ℕ → ℕ) → ℕ → ℕ
used keys zero = 0
used keys (suc n) = (if keys n == 0 then 0 else 1) + used keys n

-- The invariant: less than 60 percent of the slots hold keys, `len` counts them, and each stands at
-- the first slot for it.
pub record IsTable (m : HMap) : Type 0 where
  pub sized : IsSized m
  pub load : 10 * m.len < 6 * m.cap
  pub counted : m.len ≡ used m.keys m.cap
  pub reach : (i : ℕ) → i < m.cap → m.keys i ≢ 0 → IsFirst m (m.keys i) i

-- The map holds the pairs of `f`, and no others.
pub record Represents (m : HMap) (f : ℕ → Option ℕ) : Type 0 where
  pub sound : (i : ℕ) → i < m.cap → m.keys i ≢ 0 → f (m.keys i) ≡ some (m.values i)
  pub complete :
      (k v : ℕ) → k ≢ 0 → f k ≡ some v → (i : ℕ) × (i < m.cap) × (m.keys i ≡ k) × (m.values i ≡ v)

used-lt : (keys : ℕ → ℕ) (n : ℕ) → used keys n < n → (i : ℕ) × (i < n) × (keys i ≡ 0)
unfolding used
used-lt keys zero h = absurd (omega arith)
used-lt keys (suc n) h = elim (Bool-cases (keys n == 0)) [
  | inl vacant ↦ (n, omega arith, ground arith)
  | inr full ↦ let (i, lt, e) = used-lt keys n (ground arith) in (i, omega arith, e)
]

-- A table has an empty slot on the way of every probe.
pub IsTable-empty :
    (m : HMap) (h : ℕ)
    → IsSized m
    → m.len ≡ used m.keys m.cap
    → m.len < m.cap
    → (d : ℕ) × (d < m.cap) × (m.keys (probe m.cap h d) ≡ 0)
IsTable-empty m h s counted lt =
    let (i, i_lt, e) = used-lt m.keys m.cap (omega arith) in
    let (d, d_lt, at_i) = probe-reaches m.cap h i i_lt in (d, d_lt, ap m.keys at_i ∙ e)

pub IsFirst-unique : {m : HMap} {key i j : ℕ} → IsFirst m key i → IsFirst m key j → i ≡ j
IsFirst-unique {m} {key} {i} {j} a b = elim (Bool-cases (ltb a.dist b.dist)) [
  | inl earlier ↦ absurd (not_passed a (b.before a.dist (ground arith)))
  | inr not_earlier ↦ elim (Bool-cases (ltb b.dist a.dist)) [
    | inl later ↦ absurd (not_passed b (a.before b.dist (ground arith)))
    | inr not_later ↦
        let same : a.dist ≡ b.dist = ground arith in
        a.at_dist ∙ ap (probe m.cap (hash_uint64 key)) same ∙ sym b.at_dist
  ]
]
  where
    not_passed :
        {m : HMap} {key i : ℕ} (f : IsFirst m key i)
        → Passed m key (probe m.cap (hash_uint64 key) f.dist)
        → ⊥
    not_passed {m} {key} f p = elim f.stops [
      | inl vacant ↦ p.used (ap m.keys (sym f.at_dist) ∙ vacant)
      | inr hit ↦ p.other (ap m.keys (sym f.at_dist) ∙ hit)
    ]

-- What hmap_get finds, none where its loop does not end
abbrev pub value_at : HMap → Slot → Option (Option ℕ)
value_at m (found slot) = some (some (m.values slot))
value_at m absent = some none
value_at m unfinished = none

pub slot-lt : {m : HMap} {key i : ℕ} → IsSized m → IsFirst m key i → i < m.cap
slot-lt {m} {key} {i} s f =
    subst (λ t. t < m.cap) (sym f.at_dist) (mod-lt (hash_uint64 key + f.dist) (cap_pos m s))

-- A key that is in the map stands at the first slot for it.
pub at_first-slot :
    (m : HMap) (f : ℕ → Option ℕ) (key v slot : ℕ)
    → IsTable m
    → Represents m f
    → key ≢ 0
    → IsFirst m key slot
    → f key ≡ some v
    → m.keys slot ≡ key
at_first-slot m f key v slot t r nonzero first e =
    let (i, lt, at_key, at_value) = r.complete key v nonzero e in
    let own = t.reach i lt (λ z. nonzero (sym at_key ∙ z)) in
    let same : i ≡ slot = IsFirst-unique (subst (λ k. IsFirst m k i) at_key own) first in
    ap m.keys (sym same) ∙ at_key

at_first-Represents :
    (m : HMap) (f : ℕ → Option ℕ) (key slot : ℕ)
    → IsTable m
    → Represents m f
    → key ≢ 0
    → IsFirst m key slot
    → value_at m (at_first m key slot) ≡ some (f key)
at_first-Represents m f key slot t r nonzero first = elim (Bool-cases (m.keys slot == key)) [
  | inl hit ↦
      let here : m.keys slot ≡ key = ground arith in
      rw (hit) (
        ap some
          (sym (r.sound slot (slot-lt t.sized first) (λ z. nonzero (sym here ∙ z))) ∙ ap f here))
  | inr miss ↦ elim (Option-cases (f key)) [
    | inl nothing ↦ rw (miss, nothing) refl
    | inr (v, e) ↦
        let here = at_first-slot m f key v slot t r nonzero first e in absurd (ground arith)
  ]
]

-- On a table that stands for a map, and a key that is not 0, hmap_get ends, and finds the value that the map
-- has for the key, or that it has none.
pub hmap_get-Represents :
    (m : HMap) (f : ℕ → Option ℕ) (key : ℕ)
    → IsTable m
    → Represents m f
    → key ≢ 0
    → value_at m (hmap_get m key) ≡ some (f key)
hmap_get-Represents m f key t r nonzero =
    let (d, d_lt, vacant) =
      IsTable-empty m (hash_uint64 key) t.sized t.counted (omega (arith, t.load)) in
    let (slot, run, first) = hmap_get-IsFirst m t.sized key d d_lt vacant in
    ap (value_at m) run ∙ at_first-Represents m f key slot t r nonzero first
