-- ===== src/HashMap/Tests.antt =====
-- The table of src/hash_map.c on concrete keys, and witnesses of its theorems.
use nibble.Prelude.{
  ℕ, ◌*◌, ◌^◌, ◌≡◌, ◌⊎◌, inl, refl, Bool, true, false, List, [], ◌∷◌, Option, none, some, update,
  arith,
}
use nibble.HashMap.Hash.{hash_uint64}
use nibble.HashMap.Table.{
  HMap, Put, stored, refused, no_fuel, write_slot, emptied, hmap_expand, hmap_put, hmap, get_loop,
  hmap_get,
}
use nibble.HashMap.Index.{probe}
use nibble.HashMap.Probe.{IsFirst}
use nibble.HashMap.Store.{IsStored, write_slot-IsStored}
use nibble.HashMap.Represents.{IsTable, Represents, value_at, hmap_get-Represents}
use nibble.HashMap.Refine.{
  emptied-IsTable, emptied-Represents, hmap-Represents, hmap_put-Represents,
}

abbrev always : ℕ → Bool
always n = true

abbrev put_all : List ℕ → Put → Put
put_all [] p = p
put_all (k ∷ ks) (stored m) = put_all ks (hmap_put always 2 m k (k * 10))
put_all (k ∷ ks) (refused m) = refused m
put_all (k ∷ ks) no_fuel = no_fuel

abbrev look_up : Put → ℕ → Option (Option ℕ)
look_up (stored m) k = value_at m (hmap_get m k)
look_up (refused m) k = none
look_up no_fuel k = none

-- From one slot the table grows four times.
put_nine :
    look_up (put_all (1 ∷ 2 ∷ 3 ∷ 4 ∷ 5 ∷ 6 ∷ 7 ∷ 8 ∷ 3 ∷ []) (stored (emptied 1))) 7
    ≡ some (some 70)
unfolding hmap_put hmap_expand hmap_get get_loop hash_uint64
put_nine = refl

put_missing : look_up (put_all (1 ∷ 2 ∷ 3 ∷ 4 ∷ 5 ∷ 6 ∷ []) (stored (emptied 1))) 7 ≡ some none
unfolding hmap_put hmap_expand hmap_get get_loop hash_uint64
put_missing = refl

hmap-Represents_example :
    ((m : HMap) × (hmap always 3 ≡ some (stored m))
      × IsTable m
      × Represents m (λ k. none)
      × (m.cap ≡ 2 ^ 3))
    ⊎ ((hmap always 3 ≡ some (refused (emptied 0))) × (always (2 ^ 3) ≡ false))
hmap-Represents_example = hmap-Represents always 3 (omega arith)

-- A table of one slot grows for its first pair.
hmap_put-Represents_example :
    ((m' : HMap) × (hmap_put always 2 (emptied 1) 5 50 ≡ stored m')
      × IsTable m'
      × Represents m' (update (λ k. none) 5 (some 50)))
    ⊎ ((hmap_put always 2 (emptied 1) 5 50 ≡ refused (emptied 1)) × (always (2 * 1) ≡ false))
hmap_put-Represents_example =
    hmap_put-Represents always 0 5 50 (emptied 1) (λ k. none)
      (emptied-IsTable 0 1 refl (omega arith)) (emptied-Represents 1) (omega arith) (omega arith)

-- A table of four slots with one pair, at its first slot
abbrev home_of_nine : ℕ
home_of_nine = probe 4 (hash_uint64 9) 0

abbrev one_pair : HMap
one_pair = write_slot (emptied 4) 9 90 home_of_nine

home_of_nine-IsFirst : IsFirst (emptied 4) 9 home_of_nine
home_of_nine-IsFirst = record {
  dist = 0;
  dist_lt = omega arith;
  at_dist = refl;
  stops = inl refl;
  before = λ e h. absurd (omega arith);
}

one_pair-IsStored : IsStored (emptied 4) (λ k. none) 9 90 one_pair
one_pair-IsStored =
    (write_slot-IsStored (emptied 4) (λ k. none) 9 90 home_of_nine
      (emptied-IsTable 2 4 refl (omega arith)) (emptied-Represents 4) (omega arith)
      home_of_nine-IsFirst (omega arith)).0

hmap_get-Represents_example :
    value_at one_pair (hmap_get one_pair 9) ≡ some (update (λ k. none) 9 (some 90) 9)
hmap_get-Represents_example =
    hmap_get-Represents one_pair (update (λ k. none) 9 (some 90)) 9 one_pair-IsStored.is_table
      one_pair-IsStored.represents (omega arith)
