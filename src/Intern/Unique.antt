-- ===== src/Intern/Unique.antt =====
-- Interning, src/nibble.c, gives equal strings one object and different strings different ones.
use mathlib.Core.Option.{some-injective, none-ne-some}
use nibble.Prelude.{
  ℕ, ◌+◌, ◌*◌, ◌^◌, ◌≤◌, ◌<◌, ◌≡◌, ◌≢◌, inl, inr, refl, sym, ap, ◌∙◌, subst, Bool, true, false,
  List, Option, none, some, length, ◌==◌, arith, Bool-cases, update,
}
use nibble.HashMap.Hash.{hash_bytes}
use nibble.HashMap.Table.{HMap, Slot, found, absent, unfinished, hmap_get}
use nibble.HashMap.Represents.{IsTable, Represents, value_at, hmap_get-Represents}
use nibble.HashMap.Refine.{hmap_put-Represents}
use nibble.Intern.Pool.{
  StrLit, Pool, is_lit, find_lit, fnv_init, Interned, at, exited, chain_of, add_lit, lit_found,
  intern_str_lit,
}
use nibble.Intern.Compare.{NoZero, IsProper, is_lit-eq, is_lit_self}
use nibble.Intern.Chains.{
  InChain, here, there, Older, Walked, reached, nowhere, find_lit-Walked, InChain-update,
  Older-update,
}

abbrev pub head_of : Option ℕ → ℕ
head_of none = 0
head_of (some a) = a

abbrev pub key_of : List ℕ → ℕ
key_of str = hash_bytes str fnv_init

-- A pool whose table holds `f`: each object is in the chain of its hash, and no two have the same bytes.
pub record IsPool (pool : Pool) (f : ℕ → Option ℕ) : Type 0 where
  pub is_table : IsTable pool.map
  pub represents : Represents pool.map f
  pub proper : (a : ℕ) → a ≢ 0 → a ≤ pool.count → IsProper (pool.objs a)
  pub links : Older pool.objs pool.count
  pub heads : (k : ℕ) → head_of (f k) ≤ pool.count
  pub listed :
      (a : ℕ)
      → a ≢ 0
      → a ≤ pool.count
      → InChain pool.objs a (head_of (f (key_of (pool.objs a).str)))
  pub distinct :
      (a b : ℕ)
      → a ≢ 0
      → a ≤ pool.count
      → b ≢ 0
      → b ≤ pool.count
      → (pool.objs a).str ≡ (pool.objs b).str
      → a ≡ b

chain_of-head :
    (m : HMap) (s : Slot) (o : Option ℕ) → value_at m s ≡ some o → chain_of m s ≡ some (head_of o)
chain_of-head m (found slot) o e =
    ap (λ t. some (head_of t)) (some-injective (some (m.values slot)) o e)
chain_of-head m absent o e = ap (λ t. some (head_of t)) (some-injective none o e)
chain_of-head m unfinished o e = absurd (none-ne-some o e)

module _ (pool : Pool) (f : ℕ → Option ℕ) (str : List ℕ) (p : IsPool pool f) where
  abbrev pub key : ℕ
  key = key_of str

  abbrev pub head : ℕ
  head = head_of (f (key_of str))

  -- A string that is not in its chain is nowhere.
  is_new :
      ((a : ℕ) → InChain pool.objs a head → is_lit (pool.objs a) str ≡ false)
      → (a : ℕ) → a ≢ 0
      → a ≤ pool.count
      → (pool.objs a).str ≢ str
  is_new others a nonzero a_le e =
      let listed =
        subst (λ t. InChain pool.objs a (head_of (f (key_of t)))) e (p.listed a nonzero a_le) in
      let is = is_lit_self (pool.objs a) str (p.proper a nonzero a_le) e in
      let is_not = others a listed in cc

  abbrev pub added_lit : StrLit
  added_lit = record { next = head; len = length str; str = str }

  abbrev pub objs_with : ℕ → StrLit
  objs_with = update pool.objs (pool.count + 1) added_lit

  abbrev pub heads_with : ℕ → Option ℕ
  heads_with = update f key (some (pool.count + 1))

  heads_with-le : (k : ℕ) → head_of (heads_with k) ≤ pool.count + 1
  heads_with-le k = elim (Bool-cases (key == k)) [
    | inl same ↦ rw same (omega arith)
    | inr other ↦ rw other (omega (arith, p.heads k))
  ]

  -- A chain of the pool goes on to be one, behind the new object where it has its hash.
  InChain-with :
      (a k : ℕ) → InChain pool.objs a (head_of (f k)) → InChain objs_with a (head_of (heads_with k))
  InChain-with a k i =
      let kept =
        InChain-update (pool.count + 1) added_lit pool.count p.links (omega arith) (p.heads k) i in
      elim (Bool-cases (key == k)) [
        | inl same ↦
            let e : k ≡ key = ground arith in
            let test : (pool.count + 1 == pool.count + 1) ≡ true = ground arith in
            rw same (
              there (λ z. omega arith)
                (rw test (subst (λ t. InChain objs_with a (head_of (f t))) e kept)))
        | inr other ↦ rw other kept
      ]

  IsProper-with : NoZero str → (a : ℕ) → a ≢ 0 → a ≤ pool.count + 1 → IsProper (objs_with a)
  IsProper-with no_zero a nonzero a_le = elim (Bool-cases (pool.count + 1 == a)) [
    | inl new ↦ rw new (record { len_right = refl; no_zero = no_zero })
    | inr old ↦ rw old (p.proper a nonzero (ground arith))
  ]

  InChain-listed :
      (a : ℕ)
      → a ≢ 0
      → a ≤ pool.count + 1
      → InChain objs_with a (head_of (heads_with (key_of (objs_with a).str)))
  InChain-listed a nonzero a_le = elim (Bool-cases (pool.count + 1 == a)) [
    | inl new ↦
        let e : a ≡ pool.count + 1 = ground arith in
        let test : (key == key) ≡ true = ground arith in
        rw (new, test)
          (subst (λ t. InChain objs_with t (pool.count + 1)) (sym e) (here (λ z. omega arith)))
    | inr old ↦
        rw old (InChain-with a (key_of (pool.objs a).str) (p.listed a nonzero (ground arith)))
  ]

  new_at : (a : ℕ) → (pool.count + 1 == a) ≡ true → (objs_with a).str ≡ str
  new_at a new = rw new refl

  old_at : (a : ℕ) → (pool.count + 1 == a) ≡ false → (objs_with a).str ≡ (pool.objs a).str
  old_at a old = rw old refl

  distinct-with :
      ((a : ℕ) → a ≢ 0 → a ≤ pool.count → (pool.objs a).str ≢ str)
      → (a b : ℕ) → a ≢ 0
      → a ≤ pool.count + 1
      → b ≢ 0
      → b ≤ pool.count + 1
      → (objs_with a).str ≡ (objs_with b).str
      → a ≡ b
  distinct-with fresh a b a_nonzero a_le b_nonzero b_le e =
      elim (Bool-cases (pool.count + 1 == a)) [
        | inl a_new ↦ elim (Bool-cases (pool.count + 1 == b)) [
          | inl b_new ↦ ground arith
          | inr b_old ↦
              absurd
                (fresh b b_nonzero (ground arith) (sym (old_at b b_old) ∙ sym e ∙ new_at a a_new))
        ]
        | inr a_old ↦ elim (Bool-cases (pool.count + 1 == b)) [
          | inl b_new ↦
              absurd (fresh a a_nonzero (ground arith) (sym (old_at a a_old) ∙ e ∙ new_at b b_new))
          | inr b_old ↦
              p.distinct a b a_nonzero (ground arith) b_nonzero (ground arith)
                (sym (old_at a a_old) ∙ e ∙ old_at b b_old)
        ]
      ]

  abbrev pub pool_with : HMap → Pool
  pool_with map = record { map = map; objs = objs_with; count = pool.count + 1 }

  pub pool_with-IsPool :
      (map : HMap)
      → IsTable map
      → Represents map heads_with
      → NoZero str
      → ((a : ℕ) → a ≢ 0 → a ≤ pool.count → (pool.objs a).str ≢ str)
      → IsPool (pool_with map) heads_with
  pool_with-IsPool map t r no_zero fresh = record {
    is_table = t;
    represents = r;
    proper = IsProper-with no_zero;
    links = Older-update pool.objs pool.count added_lit p.links (p.heads key);
    heads = heads_with-le;
    listed = InChain-listed;
    distinct = distinct-with fresh;
  }

-- What interning a string comes to
pub data InternedAs (allocs : ℕ → Bool) (room : List ℕ → Bool) (pool : Pool) (str : List ℕ)
    : Interned → Type 0 where
  -- The object with these bytes, of which there is one
  known :
      (a : ℕ)
      → a ≢ 0
      → a ≤ pool.count
      → (pool.objs a).str ≡ str
      → ((b : ℕ) → b ≢ 0 → b ≤ pool.count → (pool.objs b).str ≡ str → b ≡ a)
      → InternedAs allocs room pool str (at a pool)
  -- A new object, where none had these bytes; the others stay.
  added :
      (new : Pool) (f : ℕ → Option ℕ)
      → ((a : ℕ) → a ≢ 0 → a ≤ pool.count → (pool.objs a).str ≢ str)
      → new.count ≡ pool.count + 1
      → (new.objs (pool.count + 1)).str ≡ str
      → ((a : ℕ) → a ≤ pool.count → new.objs a ≡ pool.objs a)
      → IsPool new f
      → InternedAs allocs room pool str (at (pool.count + 1) new)
  -- The object is made, but the table has no memory to hold it.
  unlisted :
      (new : Pool)
      → ((a : ℕ) → a ≢ 0 → a ≤ pool.count → (pool.objs a).str ≢ str)
      → (new.objs (pool.count + 1)).str ≡ str
      → allocs (2 * pool.map.cap) ≡ false
      → InternedAs allocs room pool str (at (pool.count + 1) new)
  no_room :
      ((a : ℕ) → a ≢ 0 → a ≤ pool.count → (pool.objs a).str ≢ str)
      → room str ≡ false
      → InternedAs allocs room pool str exited

module _ (allocs : ℕ → Bool) (room : List ℕ → Bool) (pool : Pool) (f : ℕ → Option ℕ) (str : List ℕ)
    (p : IsPool pool f) where
  add_lit-InternedAs :
      NoZero str
      → key_of str ≢ 0
      → pool.map.cap < 2 ^ 59
      → ((a : ℕ) → a ≢ 0 → a ≤ pool.count → (pool.objs a).str ≢ str)
      → InternedAs allocs room pool str
          (add_lit allocs room pool (key_of str) str (head_of (f (key_of str))))
  unfolding add_lit
  add_lit-InternedAs no_zero nonzero small fresh = elim (Bool-cases (room str)) [
    | inr full ↦ rw full (no_room fresh full)
    | inl fits ↦
        elim (hmap_put-Represents allocs 0 (key_of str) (pool.count + 1) pool.map f p.is_table
          p.represents nonzero small) [
            | inl (map, run, t, r) ↦
                rw (fits, run)
                  (added (pool_with pool f str p map) (heads_with pool f str p) fresh refl
                    (new_at pool f str p (pool.count + 1) (ground arith))
                    (λ a a_le.
                      let old : (pool.count + 1 == a) ≡ false = ground arith in rw old refl)
                    (pool_with-IsPool pool f str p map t r no_zero fresh))
            | inr (run, no_memory) ↦
                rw (fits, run)
                  (unlisted (pool_with pool f str p pool.map) fresh
                    (new_at pool f str p (pool.count + 1) (ground arith)) no_memory)
          ]
  ]

  lit_found-InternedAs :
      NoZero str
      → key_of str ≢ 0
      → pool.map.cap < 2 ^ 59
      → (o : Option ℕ) → Walked pool.objs str (head_of (f (key_of str))) o
      → InternedAs allocs room pool str
          (lit_found allocs room pool (key_of str) str (head_of (f (key_of str))) o)
  lit_found-InternedAs no_zero nonzero small o (reached a a_nonzero a_le is) =
      let inside : a ≤ pool.count = omega (arith, p.heads (key_of str)) in
      let same = is_lit-eq (pool.objs a) str (p.proper a a_nonzero inside) is in
      let test : (a == 0) ≡ false = ground arith in
      rw test (
        known a a_nonzero inside same
          (λ b b_nonzero b_le e. p.distinct b a b_nonzero b_le a_nonzero inside (e ∙ sym same)))
  lit_found-InternedAs no_zero nonzero small o (nowhere others) =
      add_lit-InternedAs no_zero nonzero small (is_new pool f str p others)

-- In a pool of which each object is in the chain of its hash and no two have the same bytes, with a table of
-- less than 2 ^ 59 slots, and for bytes without a zero whose hash is not 0, intern_str_lit ends. It gives the one object
-- with these bytes, or, where there is none, a new one, and the pool stays of this kind with the others
-- as they were. It fails in two ways: the program ends where there is no memory for the object, and the
-- object is in no chain where there is none for a table of twice the size.
pub intern_str_lit-InternedAs :
    (allocs : ℕ → Bool) (room : List ℕ → Bool) (pool : Pool) (f : ℕ → Option ℕ) (str : List ℕ)
    → IsPool pool f
    → NoZero str
    → key_of str ≢ 0
    → pool.map.cap < 2 ^ 59
    → InternedAs allocs room pool str (intern_str_lit allocs room pool str)
unfolding intern_str_lit
intern_str_lit-InternedAs allocs room pool f str p no_zero nonzero small =
    let got = hmap_get-Represents pool.map f (key_of str) p.is_table p.represents nonzero in
    let first = chain_of-head pool.map (hmap_get pool.map (key_of str)) (f (key_of str)) got in
    let head = head_of (f (key_of str)) in
    let walk =
      find_lit-Walked pool.objs str pool.count head pool.count (p.heads (key_of str))
        (p.heads (key_of str)) p.links in
    rw first (
      lit_found-InternedAs allocs room pool f str p no_zero nonzero small
        (find_lit pool.count pool.objs str head) walk)
