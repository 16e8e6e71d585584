-- ===== src/Intern/Tests.antt =====
-- Interning concrete strings, and witnesses of the theorems about it.
use nibble.Prelude.{ℕ, ◌≡◌, ◌≢◌, inl, refl, Bool, true, List, [], ◌∷◌, none, some, update, arith}
use nibble.HashMap.Hash.{hash_uint64, hash_bytes}
use nibble.HashMap.Table.{HMap, write_slot, emptied, hmap_expand, hmap_put, get_loop, hmap_get}
use nibble.HashMap.Index.{probe}
use nibble.HashMap.Probe.{IsFirst}
use nibble.HashMap.Store.{IsStored, write_slot-IsStored}
use nibble.HashMap.Refine.{emptied-IsTable, emptied-Represents}
use nibble.Intern.Pool.{
  StrLit, Pool, cstr_ncmp_is_zero, is_lit, find_lit, Interned, at, exited, out_of_fuel, add_lit,
  intern_str_lit,
}
use nibble.Intern.Compare.{NoZero, no_bytes, one_more}
use nibble.Intern.Unique.{
  IsPool, key_of, InternedAs, pool_with, pool_with-IsPool, intern_str_lit-InternedAs, pool_with,
  pool_with-IsPool,
}

abbrev always {ℓ} : {A : Type ℓ} → A → Bool
always a = true

abbrev no_objs : ℕ → StrLit
no_objs a = record { next = 0; len = 0; str = [] }

abbrev empty_pool : Pool
empty_pool = record { map = emptied 4; objs = no_objs; count = 0 }

-- "if" and "in"
abbrev str_if : List ℕ
str_if = 105 ∷ 102 ∷ []

abbrev str_in : List ℕ
str_in = 105 ∷ 110 ∷ []

abbrev intern_next : List ℕ → Interned → Interned
intern_next str (at a pool) = intern_str_lit always always pool str
intern_next str exited = exited
intern_next str out_of_fuel = out_of_fuel

abbrev address : Interned → ℕ
address (at a pool) = a
address exited = 0
address out_of_fuel = 0

same_twice :
    address
      (intern_next str_if (intern_next str_in (intern_str_lit always always empty_pool str_if)))
    ≡ 1
unfolding intern_str_lit find_lit is_lit cstr_ncmp_is_zero add_lit hash_bytes hmap_put hmap_expand
    hmap_get get_loop hash_uint64
same_twice = refl

different : address (intern_next str_in (intern_str_lit always always empty_pool str_if)) ≡ 2
unfolding intern_str_lit find_lit is_lit cstr_ncmp_is_zero add_lit hash_bytes hmap_put hmap_expand
    hmap_get get_loop hash_uint64
different = refl

empty_pool-IsPool : IsPool empty_pool (λ k. none)
empty_pool-IsPool = record {
  is_table = emptied-IsTable 2 4 refl (omega arith);
  represents = emptied-Represents 4;
  proper = λ a nonzero h. absurd (nonzero (omega arith));
  links = record { older = λ a nonzero h. absurd (nonzero (omega arith)) };
  heads = λ k. omega arith;
  listed = λ a nonzero h. absurd (nonzero (omega arith));
  distinct = λ a b nonzero h b_nonzero b_le e. absurd (nonzero (omega arith));
}

str_if-NoZero : NoZero str_if
str_if-NoZero = one_more (λ e. omega arith) (one_more (λ e. omega arith) no_bytes)

key_of_if : key_of str_if ≢ 0
unfolding hash_bytes
key_of_if e = absurd (omega arith)

intern_str_lit-InternedAs_example :
    InternedAs always always empty_pool str_if (intern_str_lit always always empty_pool str_if)
intern_str_lit-InternedAs_example =
    intern_str_lit-InternedAs always always empty_pool (λ k. none) str_if empty_pool-IsPool
      str_if-NoZero key_of_if (omega arith)

-- The pool that holds "if"
abbrev home_of_if : ℕ
home_of_if = probe 4 (hash_uint64 (key_of str_if)) 0

abbrev map_of_if : HMap
map_of_if = write_slot (emptied 4) (key_of str_if) 1 home_of_if

home_of_if-IsFirst : IsFirst (emptied 4) (key_of str_if) home_of_if
home_of_if-IsFirst = record {
  dist = 0;
  dist_lt = omega arith;
  at_dist = refl;
  stops = inl refl;
  before = λ e h. absurd (omega arith);
}

map_of_if-IsStored : IsStored (emptied 4) (λ k. none) (key_of str_if) 1 map_of_if
map_of_if-IsStored =
    (write_slot-IsStored (emptied 4) (λ k. none) (key_of str_if) 1 home_of_if
      (emptied-IsTable 2 4 refl (omega arith)) (emptied-Represents 4) key_of_if home_of_if-IsFirst
      (omega arith)).0

abbrev pool_of_if : Pool
pool_of_if = pool_with empty_pool (λ k. none) str_if empty_pool-IsPool map_of_if

pool_of_if-IsPool : IsPool pool_of_if (update (λ k. none) (key_of str_if) (some 1))
pool_of_if-IsPool =
    pool_with-IsPool empty_pool (λ k. none) str_if empty_pool-IsPool map_of_if
      map_of_if-IsStored.is_table map_of_if-IsStored.represents str_if-NoZero
      (λ a nonzero h. absurd (nonzero (omega arith)))
