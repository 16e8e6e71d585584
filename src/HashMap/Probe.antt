-- ===== src/HashMap/Probe.antt =====
-- The probe loops of hmap_put and hmap_get in src/hash_map.c stop at the first slot that is empty or
-- holds the key.
use nibble.Prelude.{
  ℕ, zero, suc, ◌+◌, ◌-◌, ◌%◌, ◌^◌, ◌<◌, ◌≤◌, ◌≡◌, ◌≢◌, ◌⊎◌, refl, ap, ◌∙◌, inl, inr, false, some,
  ltb, ◌==◌, if◌then◌else◌, bit_and, arith, Bool-cases, subst,
}
use native.Mathlib.Nat.{mod-lt, mod-eq_of_lt}
use nibble.HashMap.Hash.{hash_uint64}
use nibble.HashMap.Table.{HMap, put_slot, get_loop, hmap_get, Slot, found, absent}
use nibble.HashMap.Index.{probe, probe-suc, bit_and-mask, pow_pos}

-- A map whose capacity is a power of two
pub record IsSized (m : HMap) : Type 0 where
  pub log : ℕ
  pub cap_pow : m.cap ≡ 2 ^ log
  pub mask_cap : m.mask ≡ m.cap - 1
  pub cap_small : m.cap < 2 ^ 60

pub cap_pos : (m : HMap) → IsSized m → 0 < m.cap
cap_pos m s = omega (arith, pow_pos s.log)

pub mask-probe : (m : HMap) → IsSized m → (x : ℕ) → bit_and x m.mask ≡ x % m.cap
mask-probe m s x = rw (s.mask_cap, s.cap_pow) (bit_and-mask s.log x)

-- The next index, masked, is the next probe.
next_slot :
    (m : HMap)
    → IsSized m
    → (h d : ℕ) → bit_and ((probe m.cap h d + 1) % 2 ^ 64) m.mask ≡ probe m.cap h (suc d)
next_slot m s h d =
    let within : probe m.cap h d < m.cap = mod-lt (h + d) (cap_pos m s) in
    let exact : (probe m.cap h d + 1) % 2 ^ 64 ≡ probe m.cap h d + 1 =
      mod-eq_of_lt (omega (arith, s.cap_small)) in
    ap (λ t. bit_and t m.mask) exact ∙ mask-probe m s (probe m.cap h d + 1) ∙ probe-suc m.cap h d

-- Neither empty nor the slot of the key
pub record Passed (m : HMap) (key i : ℕ) : Type 0 where
  pub used : m.keys i ≢ 0
  pub other : m.keys i ≢ key

-- The first slot that a probe for the key does not pass
pub record IsFirst (m : HMap) (key slot : ℕ) : Type 0 where
  pub dist : ℕ
  pub dist_lt : dist < m.cap
  pub at_dist : slot ≡ probe m.cap (hash_uint64 key) dist
  pub stops : (m.keys slot ≡ 0) ⊎ (m.keys slot ≡ key)
  pub before : (e : ℕ) → e < dist → Passed m key (probe m.cap (hash_uint64 key) e)

extend :
    (m : HMap) (key h d : ℕ)
    → ((e : ℕ) → e < d → Passed m key (probe m.cap h e))
    → Passed m key (probe m.cap h d)
    → (e : ℕ) → e < suc d
    → Passed m key (probe m.cap h e)
extend m key h d before here e lt = elim (Bool-cases (ltb e d)) [
  | inl earlier ↦ before e (ground arith)
  | inr last ↦
      let same : d ≡ e = ground arith in subst (λ t. Passed m key (probe m.cap h t)) same here
]

put_slot-passes :
    (fuel : ℕ) (m : HMap) (key i slot : ℕ)
    → bit_and i m.mask ≡ slot
    → (m.keys slot == 0) ≡ false
    → (m.keys slot == key) ≡ false
    → put_slot (suc fuel) m key i ≡ put_slot fuel m key ((slot + 1) % 2 ^ 64)
unfolding put_slot
put_slot-passes fuel m key i slot e used other = rw (e, used, other) refl

get_loop-passes :
    (fuel : ℕ) (m : HMap) (key i slot : ℕ)
    → bit_and ((i + 1) % 2 ^ 64) m.mask ≡ slot
    → (m.keys slot == 0) ≡ false
    → (m.keys slot == key) ≡ false
    → get_loop (suc fuel) m key i ≡ get_loop fuel m key slot
unfolding get_loop
get_loop-passes fuel m key i slot e used other = rw (e, used, other) refl

get_past_home :
    (m : HMap) (key slot : ℕ)
    → bit_and (hash_uint64 key) m.mask ≡ slot
    → (m.cap == 0) ≡ false
    → (m.keys slot == 0) ≡ false
    → (m.keys slot == key) ≡ false
    → hmap_get m key ≡ get_loop m.cap m key slot
unfolding hmap_get
get_past_home m key slot home some_cap used other = rw (home, some_cap, other, used) refl

-- What hmap_get makes of the first slot
abbrev pub at_first : (m : HMap) (key slot : ℕ) → Slot
at_first m key slot = if m.keys slot == key then found slot else absent

module _ (m : HMap) (s : IsSized m) (key empty : ℕ) (lt : empty < m.cap)
    (is_empty : m.keys (probe m.cap (hash_uint64 key) empty) ≡ 0) where
  put_slot-from :
      (fuel d i : ℕ)
      → empty < d + fuel
      → bit_and i m.mask ≡ probe m.cap (hash_uint64 key) d
      → d ≤ empty
      → ((e : ℕ) → e < d → Passed m key (probe m.cap (hash_uint64 key) e))
      → (slot : ℕ) × (put_slot fuel m key i ≡ some slot) × IsFirst m key slot
  unfolding put_slot
  put_slot-from zero d i room at_d le before = absurd (omega arith)
  put_slot-from (suc fuel) d i room at_d le before =
      let slot = probe m.cap (hash_uint64 key) d in
      elim (Bool-cases (m.keys slot == 0)) [
        | inl vacant ↦ (
          slot,
          rw (at_d, vacant) refl,
          record {
            dist = d;
            dist_lt = omega arith;
            at_dist = refl;
            stops = inl (ground arith);
            before = before;
          },
        )
        | inr used ↦ elim (Bool-cases (m.keys slot == key)) [
          | inl hit ↦ (
            slot,
            rw (at_d, used, hit) refl,
            record {
              dist = d;
              dist_lt = omega arith;
              at_dist = refl;
              stops = inr (ground arith);
              before = before;
            },
          )
          | inr other ↦
              let here : Passed m key slot = record { used = ground arith; other = ground arith } in
              let differs : d ≢ empty =
                λ e. here.used (ap (λ t. m.keys (probe m.cap (hash_uint64 key) t)) e ∙ is_empty) in
              let (slot', run, first) =
                put_slot-from fuel (suc d) ((slot + 1) % 2 ^ 64) (omega arith)
                  (next_slot m s (hash_uint64 key) d) (omega arith)
                  (extend m key (hash_uint64 key) d before here) in
              (slot', put_slot-passes fuel m key i slot at_d used other ∙ run, first)
        ]
      ]

  get_loop-from :
      (fuel d : ℕ)
      → empty < suc d + fuel
      → suc d ≤ empty
      → ((e : ℕ) → e < suc d → Passed m key (probe m.cap (hash_uint64 key) e))
      → (slot : ℕ) × (get_loop fuel m key (probe m.cap (hash_uint64 key) d) ≡ at_first m key slot)
        × IsFirst m key slot
  unfolding get_loop
  get_loop-from zero d room le before = absurd (omega arith)
  get_loop-from (suc fuel) d room le before =
      let slot = probe m.cap (hash_uint64 key) (suc d) in
      let on = next_slot m s (hash_uint64 key) d in
      elim (Bool-cases (m.keys slot == key)) [
        | inl hit ↦ (
          slot,
          rw (on, hit) refl,
          record {
            dist = suc d;
            dist_lt = omega arith;
            at_dist = refl;
            stops = inr (ground arith);
            before = before;
          },
        )
        | inr other ↦ elim (Bool-cases (m.keys slot == 0)) [
          | inl vacant ↦ (
            slot,
            rw (on, other, vacant) refl,
            record {
              dist = suc d;
              dist_lt = omega arith;
              at_dist = refl;
              stops = inl (ground arith);
              before = before;
            },
          )
          | inr used ↦
              let here : Passed m key slot = record { used = ground arith; other = ground arith } in
              let differs : suc d ≢ empty =
                λ e. here.used (ap (λ t. m.keys (probe m.cap (hash_uint64 key) t)) e ∙ is_empty) in
              let (slot', run, first) =
                get_loop-from fuel (suc d) (omega arith) (omega arith)
                  (extend m key (hash_uint64 key) (suc d) before here) in
              (
                slot',
                get_loop-passes fuel m key (probe m.cap (hash_uint64 key) d) slot on used other
                    ∙ run,
                first,
              )
        ]
      ]

  pub put_slot-IsFirst :
      (slot : ℕ) × (put_slot m.cap m key (hash_uint64 key) ≡ some slot) × IsFirst m key slot
  put_slot-IsFirst =
      put_slot-from m.cap 0 (hash_uint64 key) (omega arith)
        (mask-probe m s (hash_uint64 key) ∙ ap (λ t. t % m.cap) (omega arith)) (omega arith)
        (λ e h. absurd (omega arith))

  pub hmap_get-IsFirst : (slot : ℕ) × (hmap_get m key ≡ at_first m key slot) × IsFirst m key slot
  unfolding hmap_get
  hmap_get-IsFirst =
      let slot = probe m.cap (hash_uint64 key) 0 in
      let home : bit_and (hash_uint64 key) m.mask ≡ slot =
        mask-probe m s (hash_uint64 key) ∙ ap (λ t. t % m.cap) (omega arith) in
      let some_cap : (m.cap == 0) ≡ false = ground (arith, cap_pos m s) in
      elim (Bool-cases (m.keys slot == key)) [
        | inl hit ↦ (
          slot,
          rw (home, some_cap, hit) refl,
          record {
            dist = 0;
            dist_lt = omega (arith, cap_pos m s);
            at_dist = refl;
            stops = inr (ground arith);
            before = λ e h. absurd (omega arith);
          },
        )
        | inr other ↦ elim (Bool-cases (m.keys slot == 0)) [
          | inl vacant ↦ (
            slot,
            rw (home, some_cap, other, vacant) refl,
            record {
              dist = 0;
              dist_lt = omega (arith, cap_pos m s);
              at_dist = refl;
              stops = inl (ground arith);
              before = λ e h. absurd (omega arith);
            },
          )
          | inr used ↦
              let here : Passed m key slot = record { used = ground arith; other = ground arith } in
              let differs : 0 ≢ empty =
                λ e. here.used (ap (λ t. m.keys (probe m.cap (hash_uint64 key) t)) e ∙ is_empty) in
              let (slot', run, first) =
                get_loop-from m.cap 0 (omega arith) (omega arith)
                  (extend m key (hash_uint64 key) 0 (λ e h. absurd (omega arith)) here) in
              (slot', get_past_home m key slot home some_cap used other ∙ run, first)
        ]
      ]
