-- ===== src/HashMap/Store.antt =====
-- hmap_put of src/hash_map.c writes one pair, where there is room.
use nibble.Prelude.{
  ℕ, zero, suc, ◌+◌, ◌*◌, ◌<◌, ◌≤◌, ◌≡◌, ◌≢◌, ◌⊎◌, refl, sym, ap, ◌∙◌, inl, inr, true, false,
  Option, some, ltb, ◌==◌, if◌then◌else◌, arith, Bool-cases, subst, update,
}
use nibble.HashMap.Hash.{hash_uint64}
use nibble.HashMap.Table.{HMap, write_slot, store_at, put_in, stored}
use nibble.HashMap.Probe.{Passed, IsFirst, put_slot-IsFirst}
use nibble.HashMap.Represents.{used, IsTable, Represents, IsTable-empty, IsFirst-unique, slot-lt}

-- The map after `key` is written into an empty slot, and after a value is overwritten
abbrev inserted : HMap → ℕ → ℕ → ℕ → HMap
inserted m key value slot = record m {
  keys = update m.keys slot key;
  values = update m.values slot value;
  len = m.len + 1;
}

abbrev overwritten : HMap → ℕ → ℕ → HMap
overwritten m value slot = record m { values = update m.values slot value }

used-update :
    (keys : ℕ → ℕ) (n slot key : ℕ)
    → keys slot ≡ 0
    → key ≢ 0
    → used (update keys slot key) n ≡ (if ltb slot n then 1 else 0) + used keys n
unfolding used
used-update keys zero slot key e h = ground arith
used-update keys (suc n) slot key e h = ground (arith, used-update keys n slot key e h)

-- A slot that was passed is passed after a write into an empty slot.
Passed-inserted :
    {m : HMap} {k i : ℕ} (key value slot : ℕ)
    → m.keys slot ≡ 0
    → Passed m k i
    → Passed (inserted m key value slot) k i
Passed-inserted {m} {k} {i} key value slot e p = elim (Bool-cases (slot == i)) [
  | inl here ↦ let same : slot ≡ i = ground arith in absurd (p.used (ap m.keys (sym same) ∙ e))
  | inr other ↦ record { used = rw other p.used; other = rw other p.other }
]

IsFirst-inserted :
    {m : HMap} {k i : ℕ} (key value slot : ℕ)
    → m.keys slot ≡ 0
    → (first : IsFirst m k i) → (update m.keys slot key i ≡ 0) ⊎ (update m.keys slot key i ≡ k)
    → IsFirst (inserted m key value slot) k i
IsFirst-inserted key value slot e first stops = record {
  dist = first.dist;
  dist_lt = first.dist_lt;
  at_dist = first.at_dist;
  stops = stops;
  before = λ d lt. Passed-inserted key value slot e (first.before d lt);
}

IsFirst-overwritten :
    {m : HMap} {k i : ℕ} (value slot : ℕ) → IsFirst m k i → IsFirst (overwritten m value slot) k i
IsFirst-overwritten value slot first = record {
  dist = first.dist;
  dist_lt = first.dist_lt;
  at_dist = first.at_dist;
  stops = first.stops;
  before = λ d lt. let p = first.before d lt in record { used = p.used; other = p.other };
}

module _ (m : HMap) (f : ℕ → Option ℕ) (key value slot : ℕ) (t : IsTable m) (r : Represents m f)
    (nonzero : key ≢ 0) (first : IsFirst m key slot) where
  -- No other slot holds the key.
  only_slot : (i : ℕ) → i < m.cap → m.keys i ≢ 0 → m.keys i ≡ key → i ≡ slot
  only_slot i lt u e = IsFirst-unique (subst (λ k. IsFirst m k i) e (t.reach i lt u)) first

  new_value :
      (k v : ℕ) → (key == k) ≡ true → update f key (some value) k ≡ some v → (key ≡ k) × (value ≡ v)
  new_value k v same e = (ground arith, ground arith)

  inserted-IsTable :
      m.keys slot ≡ 0 → 10 * (m.len + 1) < 6 * m.cap → IsTable (inserted m key value slot)
  inserted-IsTable e room = record {
    sized = record {
      log = t.sized.log;
      cap_pow = t.sized.cap_pow;
      mask_cap = t.sized.mask_cap;
      cap_small = t.sized.cap_small;
    };
    load = room;
    counted =
        ground
          (arith, used-update m.keys m.cap slot key e nonzero, t.counted, slot-lt t.sized first);
    reach = λ i lt u. elim (Bool-cases (slot == i)) [
      | inl this ↦
          let same : slot ≡ i = ground arith in
          let own : update m.keys slot key slot ≡ key = ground arith in
          rw this (
            subst (λ j. IsFirst (inserted m key value slot) key j) same
              (IsFirst-inserted key value slot e first (inr own)))
      | inr other ↦
          rw other
            (IsFirst-inserted key value slot e (t.reach i lt (rw other at u)) (inr (rw other refl)))
    ];
  }

  inserted-Represents :
      m.keys slot ≡ 0 → Represents (inserted m key value slot) (update f key (some value))
  inserted-Represents e = record {
    sound = λ i lt u. elim (Bool-cases (slot == i)) [
      | inl this ↦ rw this (ground arith)
      | inr other ↦
          let used_before = rw other at u in
          let not_key : m.keys i ≢ key =
            λ k. let same = only_slot i lt used_before k in used_before (ap m.keys same ∙ e) in
          rw other (ground (arith, r.sound i lt used_before))
    ];
    complete = λ k v k_nonzero found_v. elim (Bool-cases (key == k)) [
      | inl this ↦
          let (same, same_value) = new_value k v this found_v in
          (slot, slot-lt t.sized first, ground arith, ground arith)
      | inr other ↦
          let (i, lt, at_key, at_value) = r.complete k v k_nonzero (rw other at found_v) in
          let elsewhere : slot ≢ i = λ same. k_nonzero (sym at_key ∙ ap m.keys (sym same) ∙ e) in
          (i, lt, ground arith, ground arith)
    ];
  }

  overwritten-IsTable : IsTable (overwritten m value slot)
  overwritten-IsTable = record {
    sized = record {
      log = t.sized.log;
      cap_pow = t.sized.cap_pow;
      mask_cap = t.sized.mask_cap;
      cap_small = t.sized.cap_small;
    };
    load = t.load;
    counted = t.counted;
    reach = λ i lt u. IsFirst-overwritten value slot (t.reach i lt u);
  }

  overwritten-Represents :
      m.keys slot ≡ key → Represents (overwritten m value slot) (update f key (some value))
  overwritten-Represents e = record {
    sound = λ i lt u. elim (Bool-cases (slot == i)) [
      | inl this ↦
          let same : slot ≡ i = ground arith in
          let at_key : m.keys i ≡ key = ap m.keys (sym same) ∙ e in rw (this, at_key) (ground arith)
      | inr other ↦
          let not_key : m.keys i ≢ key = λ k. let same = only_slot i lt u k in ground arith in
          rw other (ground (arith, r.sound i lt u))
    ];
    complete = λ k v k_nonzero found_v. elim (Bool-cases (key == k)) [
      | inl this ↦
          let (same, same_value) = new_value k v this found_v in
          (slot, slot-lt t.sized first, e ∙ same, ground arith)
      | inr other ↦
          let (i, lt, at_key, at_value) = r.complete k v k_nonzero (rw other at found_v) in
          let elsewhere : slot ≢ i =
            λ same. let k_is : k ≡ key = sym at_key ∙ ap m.keys (sym same) ∙ e in ground arith in
          (i, lt, at_key, ground arith)
    ];
  }

-- The map is stored in `m'`, which holds the new pair too.
pub record IsStored (m : HMap) (f : ℕ → Option ℕ) (key value : ℕ) (m' : HMap) : Type 0 where
  pub is_table : IsTable m'
  pub represents : Represents m' (update f key (some value))
  pub len_le : m'.len ≤ m.len + 1

pub write_slot-IsStored :
    (m : HMap) (f : ℕ → Option ℕ) (key value slot : ℕ)
    → IsTable m
    → Represents m f
    → key ≢ 0
    → IsFirst m key slot
    → 10 * (m.len + 1) < 6 * m.cap
    → IsStored m f key value (write_slot m key value slot)
      × ((write_slot m key value slot).cap ≡ m.cap)
unfolding write_slot
write_slot-IsStored m f key value slot t r nonzero first room = elim first.stops [
  | inl vacant ↦
      let vacant' : (m.keys slot == 0) ≡ true = ground arith in
      rw vacant' (
        record {
          is_table = inserted-IsTable m f key value slot t r nonzero first vacant room;
          represents = inserted-Represents m f key value slot t r nonzero first vacant;
          len_le = omega arith;
        },
        refl,
      )
  | inr hit ↦
      let full : (m.keys slot == 0) ≡ false = ground arith in
      rw full (
        record {
          is_table = overwritten-IsTable m f key value slot t r nonzero first;
          represents = overwritten-Represents m f key value slot t r nonzero first hit;
          len_le = omega arith;
        },
        refl,
      )
]

pub put_in-IsStored :
    (m : HMap) (f : ℕ → Option ℕ) (key value : ℕ)
    → IsTable m
    → Represents m f
    → key ≢ 0
    → 10 * (m.len + 1) < 6 * m.cap
    → (m' : HMap) × (put_in key value (stored m) ≡ stored m')
      × IsStored m f key value m'
      × (m'.cap ≡ m.cap)
unfolding put_in store_at
put_in-IsStored m f key value t r nonzero room =
    let (d, d_lt, vacant) =
      IsTable-empty m (hash_uint64 key) t.sized t.counted (omega (arith, t.load)) in
    let (slot, run, first) = put_slot-IsFirst m t.sized key d d_lt vacant in
    let (is_stored, cap) = write_slot-IsStored m f key value slot t r nonzero first room in
    (write_slot m key value slot, ap (store_at m key value) run, is_stored, cap)
