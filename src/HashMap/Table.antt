-- ===== src/HashMap/Table.antt =====
-- The table of src/hash_map.c: open addressing with linear probing.
--
-- The entries are two maps, from an index to a key and to a value; `cap` bounds the indices. The
-- maps are 0 where nothing was written, as alloc_array clears what it gives. A key of 0 marks an
-- empty slot.
use nibble.Prelude.{
  ℕ, zero, suc, ◌+◌, ◌-◌, ◌*◌, ◌%◌, ◌^◌, Bool, true, false, Option, none, some, leb, ◌==◌,
  if◌then◌else◌, bit_and, update,
}
use nibble.HashMap.Hash.{hash_uint64}

-- HMap
pub record HMap : Type 0 where
  pub keys : ℕ → ℕ
  pub values : ℕ → ℕ
  pub cap : ℕ
  pub len : ℕ
  pub mask : ℕ

-- `for (;;)` of hmap_put, on fuel: the slot at which it stops
unfoldable pub put_slot : ℕ → HMap → ℕ → ℕ → Option ℕ
put_slot zero m key i = none
put_slot (suc fuel) m key i =
    let slot = bit_and i m.mask in
    let next = put_slot fuel m key ((slot + 1) % 2 ^ 64) in
    if m.keys slot == 0 then some slot else if m.keys slot == key then some slot else next

-- What hmap_put writes at that slot
unfoldable pub write_slot : HMap → ℕ → ℕ → ℕ → HMap
write_slot m key value slot =
    if m.keys slot == 0
    then record m {
      keys = update m.keys slot key;
      values = update m.values slot value;
      len = m.len + 1;
    }
    else record m { values = update m.values slot value }

-- What hmap_put and hmap_expand come to: the map, and whether they had the memory for it; or the fuel
-- of the model ran out.
pub data Put : Type 0 where
  stored : HMap → Put
  refused : HMap → Put
  no_fuel : Put

unfoldable pub store_at : HMap → ℕ → ℕ → Option ℕ → Put
unfolding write_slot
store_at m key value none = no_fuel
store_at m key value (some slot) = stored (write_slot m key value slot)

-- hmap_put behind its test of the load
unfoldable pub put_in : ℕ → ℕ → Put → Put
unfolding put_slot store_at
put_in key value (stored m) = store_at m key value (put_slot m.cap m key (hash_uint64 key))
put_in key value (refused m) = refused m
put_in key value no_fuel = no_fuel

-- The map that the loop of hmap_expand goes on with: it ignores what hmap_put returns.
abbrev pub onward : Put → Option HMap
onward (stored m) = some m
onward (refused m) = some m
onward no_fuel = none

-- The loop of hmap_expand over the old entries from `i` on, of which there are `n`, with hmap_put as
-- `put`
unfoldable pub rehash : (HMap → ℕ → ℕ → Put) → (ℕ → ℕ) → (ℕ → ℕ) → ℕ → ℕ → HMap → Option HMap
rehash put keys values i zero m = some m
rehash put keys values i (suc n) m = elim (keys i == 0) [
  | true ↦ rehash put keys values (suc i) n m
  | false ↦ elim (onward (put m (keys i) (values i))) [
    | none ↦ none
    | some m' ↦ rehash put keys values (suc i) n m'
  ]
]

abbrev pub all_stored : Option HMap → Put
all_stored none = no_fuel
all_stored (some m) = stored m

-- The map that hmap_expand fills
abbrev pub emptied : ℕ → HMap
emptied cap = record { keys = λ i. 0; values = λ i. 0; cap = cap; len = 0; mask = cap - 1 }

-- `allocs n`: alloc_array gives an array of `n` entries.
module _ (allocs : ℕ → Bool) where
  unfoldable pub hmap_expand : (HMap → ℕ → ℕ → Put) → HMap → ℕ → Put
  unfolding rehash
  hmap_expand put m cap =
      if leb cap m.cap
      then stored m
      else if allocs cap
      then all_stored (rehash put m.keys m.values 0 m.cap (emptied cap))
      else refused m

  -- hmap_put, on fuel for the calls of hmap_expand that it makes
  unfoldable pub hmap_put : ℕ → HMap → ℕ → ℕ → Put
  unfolding hmap_expand put_in
  hmap_put zero m key value = no_fuel
  hmap_put (suc depth) m key value = put_in key value (
      if leb (6 * m.cap % 2 ^ 64) (10 * (m.len + 1) % 2 ^ 64)
      then hmap_expand (hmap_put depth) m (m.cap * 2 % 2 ^ 64)
      else stored m)

  -- hmap, with `1 << cap_log2` an int: none is the behaviour that C leaves open.
  unfoldable pub hmap : ℕ → Option Put
  unfolding hmap_expand
  hmap cap_log2 =
      if leb cap_log2 30 then some (hmap_expand (hmap_put 1) (emptied 0) (2 ^ cap_log2)) else none

-- What hmap_get finds at a slot
pub data Slot : Type 0 where
  found : ℕ → Slot
  absent : Slot
  unfinished : Slot

-- The do-while loop of hmap_get, on fuel
unfoldable pub get_loop : ℕ → HMap → ℕ → ℕ → Slot
get_loop zero m key i = unfinished
get_loop (suc fuel) m key i =
    let slot = bit_and ((i + 1) % 2 ^ 64) m.mask in
    let next = get_loop fuel m key slot in
    if m.keys slot == key then found slot else if m.keys slot == 0 then absent else next

-- hmap_get, where the map has entries; the loop has as much fuel as there are slots
unfoldable pub hmap_get : HMap → ℕ → Slot
unfolding get_loop
hmap_get m key =
    let slot = bit_and (hash_uint64 key) m.mask in
    if m.cap == 0
    then absent
    else if m.keys slot == key
    then found slot
    else if m.keys slot == 0
    then absent
    else get_loop m.cap m key slot
