-- ===== src/Intern/Pool.antt =====
-- intern_str_lit and intern_ident of src/nibble.c, over the hash table of src/hash_map.c.
--
-- The address of an object is its number, from 1 on in the order of allocation; 0 is the null pointer.
use nibble.Prelude.{
  ℕ, zero, suc, ◌+◌, Bool, true, not, ◌&&◌, List, [], ◌∷◌, Option, none, some, length, ◌==◌,
  if◌then◌else◌, update,
}
use nibble.HashMap.Hash.{hash_bytes}
use nibble.HashMap.Table.{
  HMap, Put, stored, refused, no_fuel, Slot, found, absent, unfinished, hmap_put, hmap_get,
}

-- StrLit and Identifier: the links of a chain, and the bytes, behind which a zero stands
pub record StrLit : Type 0 where
  pub next : ℕ
  pub len : ℕ
  pub str : List ℕ

pub record Pool : Type 0 where
  pub map : HMap
  pub objs : ℕ → StrLit
  pub count : ℕ

-- The char that a pointer to these bytes points to
abbrev pub char_at : List ℕ → ℕ
char_at [] = 0
char_at (c ∷ cs) = c

abbrev pub after : List ℕ → List ℕ
after [] = []
after (c ∷ cs) = cs

-- Whether cstr_ncmp gives 0
unfoldable pub cstr_ncmp_is_zero : List ℕ → List ℕ → ℕ → Bool
cstr_ncmp_is_zero str1 str2 zero = true
cstr_ncmp_is_zero str1 str2 (suc num) =
    let same = char_at str1 == char_at str2 in
    let rest = cstr_ncmp_is_zero (after str1) (after str2) num in
    if same && (not (char_at str1 == 0) && (not (char_at str2 == 0) && not (num == 0)))
    then rest
    else same

unfoldable pub is_lit : StrLit → List ℕ → Bool
unfolding cstr_ncmp_is_zero
is_lit it str = (it.len == length str) && cstr_ncmp_is_zero it.str str (length str)

-- The walk along a chain, on fuel: the address that it returns, or 0 at its end
unfoldable pub find_lit : ℕ → (ℕ → StrLit) → List ℕ → ℕ → Option ℕ
unfolding is_lit
find_lit zero objs str it = if it == 0 then some 0 else none
find_lit (suc fuel) objs str it =
    let rest = find_lit fuel objs str (objs it).next in
    if it == 0 then some 0 else if is_lit (objs it) str then some it else rest

-- FNV_INIT
abbrev pub fnv_init : ℕ
fnv_init = 0xcbf29ce484222325

-- What interning comes to: the address of the object and the pool behind it, the end of the program
-- for want of memory, or the model's fuel running out
pub data Interned : Type 0 where
  at : ℕ → Pool → Interned
  exited : Interned
  out_of_fuel : Interned

-- The first object of a chain, from what hmap_get finds
abbrev pub chain_of : HMap → Slot → Option ℕ
chain_of map (found slot) = some (map.values slot)
chain_of map absent = some 0
chain_of map unfinished = none

-- What is returned does not hang on whether hmap_put had memory.
abbrev pub with_map : (ℕ → StrLit) → ℕ → Put → Interned
with_map objs a (stored map) = at a (record { map = map; objs = objs; count = a })
with_map objs a (refused map) = at a (record { map = map; objs = objs; count = a })
with_map objs a no_fuel = out_of_fuel

-- `allocs n`: alloc_array gives an array of `n` entries; `room str`: mem_allocate gives an object for `str`.
module _ (allocs : ℕ → Bool) (room : List ℕ → Bool) where
  -- Adding an object in front of a chain
  unfoldable pub add_lit : Pool → ℕ → List ℕ → ℕ → Interned
  add_lit pool key str intern =
      let a = pool.count + 1 in
      let new_intern : StrLit = record { next = intern; len = length str; str = str } in
      if room str
      then with_map (update pool.objs a new_intern) a (hmap_put allocs 2 pool.map key a)
      else exited

  abbrev pub lit_found : Pool → ℕ → List ℕ → ℕ → Option ℕ → Interned
  lit_found pool key str intern none = out_of_fuel
  lit_found pool key str intern (some it) =
      if it == 0 then add_lit pool key str intern else at it pool

  abbrev pub in_chain : Pool → ℕ → List ℕ → Option ℕ → Interned
  in_chain pool key str none = out_of_fuel
  in_chain pool key str (some intern) =
      lit_found pool key str intern (find_lit pool.count pool.objs str intern)

  unfoldable pub intern_str_lit : Pool → List ℕ → Interned
  unfolding add_lit find_lit
  intern_str_lit pool str =
      let key = hash_bytes str fnv_init in
      in_chain pool key str (chain_of pool.map (hmap_get pool.map key))

  -- intern_ident does the same with the objects of its table.
  abbrev pub intern_ident : Pool → List ℕ → Interned
  intern_ident = intern_str_lit
