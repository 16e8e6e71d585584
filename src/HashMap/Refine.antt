-- ===== src/HashMap/Refine.antt =====
-- hmap, hmap_expand and hmap_put of src/hash_map.c keep the invariant and change the map that the
-- table stands for as they should.
use nibble.Prelude.{
  ℕ, suc, ◌+◌, ◌*◌, ◌%◌, ◌^◌, ◌<◌, ◌≤◌, ◌≡◌, ◌≢◌, ◌⊎◌, refl, sym, ap, ◌∙◌, inl, inr, Bool, true,
  false, Option, none, some, leb, ltb, arith, Bool-cases, update,
}
use native.Mathlib.Nat.{mod-eq_of_lt, pow-suc, pow-le-pow_right}
use nibble.HashMap.Table.{
  HMap, Put, stored, refused, put_in, emptied, rehash, hmap_expand, hmap_put, hmap,
}
use nibble.HashMap.Index.{pow_pos}
use nibble.HashMap.Probe.{IsSized, cap_pos}
use nibble.HashMap.Represents.{IsTable, Represents}
use nibble.HashMap.Store.{put_in-IsStored}
use nibble.HashMap.Rehash.{Stores, used_nothing, rehash-Represents}

pub emptied-IsTable : (log : ℕ) (cap : ℕ) → cap ≡ 2 ^ log → cap < 2 ^ 60 → IsTable (emptied cap)
emptied-IsTable log cap e small =
    let sized : IsSized (emptied cap) = record {
      log = log;
      cap_pow = e;
      mask_cap = refl;
      cap_small = small;
    } in
    record {
      sized = sized;
      load = omega (arith, cap_pos (emptied cap) sized);
      counted = sym (used_nothing cap);
      reach = λ i lt u. absurd (u refl);
    }

pub emptied-Represents : (cap : ℕ) → Represents (emptied cap) (λ k. none)
emptied-Represents cap = record {
  sound = λ i lt u. absurd (u refl);
  complete = λ k v k_nonzero e. cc;
}

put_in-refused : (key value : ℕ) (m : HMap) → put_in key value (refused m) ≡ refused m
unfolding put_in
put_in-refused key value m = refl

module _ (allocs : ℕ → Bool) where
  -- Where there is room, hmap_put goes straight to the slot.
  hmap_put-room :
      (depth key value : ℕ) (m : HMap)
      → IsSized m
      → 10 * (m.len + 1) < 6 * m.cap
      → hmap_put allocs (suc depth) m key value ≡ put_in key value (stored m)
  unfolding hmap_put
  hmap_put-room depth key value m s room =
      let product : 6 * m.cap % 2 ^ 64 ≡ 6 * m.cap = mod-eq_of_lt (omega (arith, s.cap_small)) in
      let load : 10 * (m.len + 1) % 2 ^ 64 ≡ 10 * (m.len + 1) =
        mod-eq_of_lt (omega (arith, s.cap_small)) in
      let no_growth : leb (6 * m.cap) (10 * (m.len + 1)) ≡ false = ground arith in
      rw (product, load, no_growth) refl

  hmap_put-Stores : (depth : ℕ) → Stores (hmap_put allocs (suc depth))
  hmap_put-Stores depth m f key value t r nonzero room =
      let (m', run, s, cap) = put_in-IsStored m f key value t r nonzero room in
      (m', hmap_put-room depth key value m t.sized room ∙ run, s, cap)

  expands :
      (depth : ℕ) (m m' : HMap)
      → leb (2 * m.cap) m.cap ≡ false
      → allocs (2 * m.cap) ≡ true
      → rehash (hmap_put allocs (suc depth)) m.keys m.values 0 m.cap (emptied (2 * m.cap)) ≡ some m'
      → hmap_expand allocs (hmap_put allocs (suc depth)) m (2 * m.cap) ≡ stored m'
  unfolding hmap_expand
  expands depth m m' grows memory run = rw (grows, memory, run) refl

  refuses :
      (put : HMap → ℕ → ℕ → Put) (m : HMap)
      → leb (2 * m.cap) m.cap ≡ false
      → allocs (2 * m.cap) ≡ false
      → hmap_expand allocs put m (2 * m.cap) ≡ refused m
  unfolding hmap_expand
  refuses put m grows no_memory = rw (grows, no_memory) refl

  put_full :
      (depth key value : ℕ) (m : HMap)
      → IsSized m
      → m.cap < 2 ^ 59
      → ltb (10 * (m.len + 1)) (6 * m.cap) ≡ false
      → 10 * m.len < 6 * m.cap
      → hmap_put allocs (suc (suc depth)) m key value
        ≡ put_in key value (hmap_expand allocs (hmap_put allocs (suc depth)) m (2 * m.cap))
  unfolding hmap_put
  put_full depth key value m s small full load =
      let product : 6 * m.cap % 2 ^ 64 ≡ 6 * m.cap = mod-eq_of_lt (omega (arith, s.cap_small)) in
      let count : 10 * (m.len + 1) % 2 ^ 64 ≡ 10 * (m.len + 1) =
        mod-eq_of_lt (omega (arith, s.cap_small)) in
      let growth : leb (6 * m.cap) (10 * (m.len + 1)) ≡ true = ground arith in
      let double : m.cap * 2 % 2 ^ 64 ≡ 2 * m.cap = omega arith in
      rw (product, count, growth, double) refl

  -- hmap_expand to twice the size moves every pair, if it gets the memory.
  hmap_expand-doubles :
      (depth : ℕ) (m : HMap) (f : ℕ → Option ℕ)
      → IsTable m
      → Represents m f
      → m.cap < 2 ^ 59
      → allocs (2 * m.cap) ≡ true
      → (m' : HMap) × (hmap_expand allocs (hmap_put allocs (suc depth)) m (2 * m.cap) ≡ stored m')
        × IsTable m'
        × Represents m' f
        × (m'.len ≤ m.len)
        × (m'.cap ≡ 2 * m.cap)
  unfolding hmap_expand
  hmap_expand-doubles depth m f t r small memory =
      let fresh =
        emptied-IsTable (suc t.sized.log) (2 * m.cap)
          (omega (arith, pow-suc 2 t.sized.log, t.sized.cap_pow)) (omega arith) in
      let (m', run, is_table, represents, len, cap) =
        rehash-Represents (hmap_put allocs (suc depth)) (hmap_put-Stores depth) m f t r
          (emptied (2 * m.cap)) fresh (emptied-Represents (2 * m.cap)) refl refl in
      let grows : leb (2 * m.cap) m.cap ≡ false = ground (arith, cap_pos m t.sized) in
      (m', expands depth m m' grows memory run, is_table, represents, len, cap)

  -- For a cap_log2 of at most 30, hmap gives a table of 2 ^ cap_log2 slots that stands for the empty map, or,
  -- where there is no memory for it, one without slots.
  pub hmap-Represents :
      (cap_log2 : ℕ)
      → cap_log2 ≤ 30
      → ((m : HMap) × (hmap allocs cap_log2 ≡ some (stored m))
          × IsTable m
          × Represents m (λ k. none)
          × (m.cap ≡ 2 ^ cap_log2))
        ⊎ ((hmap allocs cap_log2 ≡ some (refused (emptied 0))) × (allocs (2 ^ cap_log2) ≡ false))
  unfolding hmap hmap_expand rehash
  hmap-Represents cap_log2 h =
      let size = 2 ^ cap_log2 in
      let positive : leb (2 ^ cap_log2) 0 ≡ false = ground (arith, pow_pos cap_log2) in
      let int : leb cap_log2 30 ≡ true = ground arith in
      let small : 2 ^ cap_log2 ≤ 2 ^ 30 = pow-le-pow_right (omega arith) h in
      elim (Bool-cases (allocs size)) [
        | inl memory ↦ inl (
          emptied size,
          rw (int, positive, memory) refl,
          emptied-IsTable cap_log2 size refl (omega arith),
          emptied-Represents size,
          refl,
        )
        | inr no_memory ↦ inr (rw (int, positive, no_memory) refl, no_memory)
      ]

  -- On a table of less than 2 ^ 59 slots that stands for a map, with a key that is not 0, hmap_put ends: it
  -- gives a table that stands for the map with this pair, or, where there is no memory for a table of twice
  -- the size, it leaves the table as it is and says so.
  pub hmap_put-Represents :
      (depth key value : ℕ) (m : HMap) (f : ℕ → Option ℕ)
      → IsTable m
      → Represents m f
      → key ≢ 0
      → m.cap < 2 ^ 59
      → ((m' : HMap) × (hmap_put allocs (suc (suc depth)) m key value ≡ stored m')
          × IsTable m'
          × Represents m' (update f key (some value)))
        ⊎ ((hmap_put allocs (suc (suc depth)) m key value ≡ refused m)
            × (allocs (2 * m.cap) ≡ false))
  hmap_put-Represents depth key value m f t r nonzero small =
      elim (Bool-cases (ltb (10 * (m.len + 1)) (6 * m.cap))) [
        | inl room ↦
            let (m', run, s, cap) =
              hmap_put-Stores (suc depth) m f key value t r nonzero (ground arith) in
            inl (m', run, s.is_table, s.represents)
        | inr full ↦ elim (Bool-cases (allocs (2 * m.cap))) [
          | inr no_memory ↦
              let grows : leb (2 * m.cap) m.cap ≡ false = ground (arith, cap_pos m t.sized) in
              inr (
                put_full depth key value m t.sized small full t.load
                    ∙ ap (put_in key value)
                        (refuses (hmap_put allocs (suc depth)) m grows no_memory)
                    ∙ put_in-refused key value m,
                no_memory,
              )
          | inl memory ↦
              let (m1, run1, t1, r1, len1, cap1) = hmap_expand-doubles depth m f t r small memory in
              let (m', run, s, cap) =
                put_in-IsStored m1 f key value t1 r1 nonzero
                  (omega (arith, t.load, cap_pos m t.sized)) in
              inl (
                m',
                put_full depth key value m t.sized small full t.load
                    ∙ ap (put_in key value) run1
                    ∙ run,
                s.is_table,
                s.represents,
              )
        ]
      ]
