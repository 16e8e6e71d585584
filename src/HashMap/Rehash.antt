-- ===== src/HashMap/Rehash.antt =====
-- hmap_expand of src/hash_map.c moves every pair.
use nibble.Prelude.{
  ℕ, zero, suc, ◌+◌, ◌*◌, ◌<◌, ◌≤◌, ◌≡◌, ◌≢◌, refl, sym, ap, ◌∙◌, inl, inr, true, false, Option,
  none, some, leb, ltb, ◌==◌, arith, Bool-cases, subst, update,
}
use nibble.HashMap.Table.{HMap, Put, stored, rehash}
use nibble.HashMap.Represents.{used, IsTable, Represents}
use nibble.HashMap.Store.{IsStored}

-- What hmap_expand needs of hmap_put: where there is room, it stores.
abbrev pub Stores : (HMap → ℕ → ℕ → Put) → Type 0
Stores put =
    (m : HMap) (f : ℕ → Option ℕ) (key value : ℕ)
    → IsTable m
    → Represents m f
    → key ≢ 0
    → 10 * (m.len + 1) < 6 * m.cap
    → (m' : HMap) × (put m key value ≡ stored m') × IsStored m f key value m' × (m'.cap ≡ m.cap)

used_mono : (keys : ℕ → ℕ) (n i : ℕ) → i ≤ n → used keys i ≤ used keys n
unfolding used
used_mono keys zero zero h = omega arith
used_mono keys zero (suc i) h = absurd (omega arith)
used_mono keys (suc n) i h = elim (Bool-cases (leb i n)) [
  | inl within ↦ ground (arith, used_mono keys n i)
  | inr whole ↦
      let same : suc n ≡ i = ground arith in
      subst (λ j. used keys j ≤ used keys (suc n)) same (omega arith)
]

used_full : (keys : ℕ → ℕ) (i : ℕ) → (keys i == 0) ≡ false → used keys (suc i) ≡ used keys i + 1
unfolding used
used_full keys i full = rw full (omega arith)

used_vacant : (keys : ℕ → ℕ) (i : ℕ) → used keys i ≤ used keys (suc i)
unfolding used
used_vacant keys i = omega arith

pub used_nothing : (n : ℕ) → used (λ i. 0) n ≡ 0
unfolding used
used_nothing zero = refl
used_nothing (suc n) = omega (arith, used_nothing n)

-- `g` holds the pairs of the first `n` slots.
record IsPrefix (keys values : ℕ → ℕ) (g : ℕ → Option ℕ) (n : ℕ) : Type 0 where
  covers : (j : ℕ) → j < n → keys j ≢ 0 → g (keys j) ≡ some (values j)
  only : (k v : ℕ) → k ≢ 0 → g k ≡ some v → (j : ℕ) × (j < n) × (keys j ≡ k) × (values j ≡ v)

module _ (put : HMap → ℕ → ℕ → Put) (stores : Stores put) (old : HMap) (f : ℕ → Option ℕ)
    (t : IsTable old) (r : Represents old f) where
  IsPrefix-skip :
      (g : ℕ → Option ℕ) (i : ℕ)
      → old.keys i ≡ 0
      → IsPrefix old.keys old.values g i
      → IsPrefix old.keys old.values g (suc i)
  IsPrefix-skip g i vacant p = record {
    covers = λ j lt u. elim (Bool-cases (ltb j i)) [
      | inl before ↦ p.covers j (ground arith) u
      | inr last ↦ let same : j ≡ i = ground arith in absurd (u (ap old.keys same ∙ vacant))
    ];
    only = λ k v k_nonzero e.
        let (j, lt, at_key, at_value) = p.only k v k_nonzero e in
        (j, omega arith, at_key, at_value);
  }

  IsPrefix-add :
      (g : ℕ → Option ℕ) (i : ℕ)
      → i < old.cap
      → old.keys i ≢ 0
      → IsPrefix old.keys old.values g i
      → IsPrefix old.keys old.values (update g (old.keys i) (some (old.values i))) (suc i)
  IsPrefix-add g i i_lt full p = record {
    covers = λ j lt u. elim (Bool-cases (old.keys i == old.keys j)) [
      | inl same_key ↦
          let same : old.keys i ≡ old.keys j = ground arith in
          rw same_key (sym (r.sound i i_lt full) ∙ ap f same ∙ r.sound j (omega arith) u)
      | inr other ↦
          let differs : j ≢ i = λ z. let same = ap old.keys z in ground arith in
          rw other (p.covers j (omega arith) u)
    ];
    only = λ k v k_nonzero e. elim (Bool-cases (old.keys i == k)) [
      | inl this ↦ (i, omega arith, ground arith, ground arith)
      | inr other ↦
          let (j, lt, at_key, at_value) = p.only k v k_nonzero (rw other at e) in
          (j, omega arith, at_key, at_value)
    ];
  }

  -- A map that holds the pairs of all slots holds those of `f`.
  IsPrefix-whole :
      (m : HMap) (g : ℕ → Option ℕ)
      → IsPrefix old.keys old.values g old.cap
      → Represents m g
      → Represents m f
  IsPrefix-whole m g p s = record {
    sound = λ i lt u.
        let (j, j_lt, at_key, at_value) = p.only (m.keys i) (m.values i) u (s.sound i lt u) in
        sym (ap f at_key) ∙ r.sound j j_lt (λ z. u (sym at_key ∙ z)) ∙ ap some at_value;
    complete = λ k v k_nonzero e.
        let (j, j_lt, at_key, at_value) = r.complete k v k_nonzero e in
        s.complete k v k_nonzero (
          sym (ap g at_key) ∙ p.covers j j_lt (λ z. k_nonzero (sym at_key ∙ z)) ∙ ap some at_value);
  }

  -- What the loop has made of the first `i` slots
  record Moved (i : ℕ) (m : HMap) : Type 0 where
    moved : ℕ → Option ℕ
    is_table : IsTable m
    represents : Represents m moved
    prefix : IsPrefix old.keys old.values moved i
    len_le : m.len ≤ used old.keys i
    larger : m.cap ≡ 2 * old.cap

  rehash-done : (i : ℕ) (m : HMap) → rehash put old.keys old.values i 0 m ≡ some m
  unfolding rehash
  rehash-done i m = refl

  rehash-skips :
      (n i : ℕ) (m : HMap)
      → (old.keys i == 0) ≡ true
      → rehash put old.keys old.values i (suc n) m ≡ rehash put old.keys old.values (suc i) n m
  unfolding rehash
  rehash-skips n i m vacant = rw (vacant, rehash) refl

  rehash-moves :
      (n i : ℕ) (m m' : HMap)
      → (old.keys i == 0) ≡ false
      → put m (old.keys i) (old.values i) ≡ stored m'
      → rehash put old.keys old.values i (suc n) m ≡ rehash put old.keys old.values (suc i) n m'
  unfolding rehash
  rehash-moves n i m m' full run = rw (full, rehash, run) refl

  rehash-Moved :
      (n i : ℕ) (m : HMap)
      → i + n ≡ old.cap
      → Moved i m
      → (m' : HMap) × (rehash put old.keys old.values i n m ≡ some m') × Moved old.cap m'
  rehash-Moved zero i m e moved =
      let all : i ≡ old.cap = omega arith in (m, rehash-done i m, subst (λ j. Moved j m) all moved)
  rehash-Moved (suc n) i m e moved = elim (Bool-cases (old.keys i == 0)) [
    | inl vacant ↦
        let on : Moved (suc i) m = record {
          moved = moved.moved;
          is_table = moved.is_table;
          represents = moved.represents;
          prefix = IsPrefix-skip moved.moved i (ground arith) moved.prefix;
          len_le = omega (arith, used_vacant old.keys i, moved.len_le);
          larger = moved.larger;
        } in
        let (m', run, done) = rehash-Moved n (suc i) m (omega arith) on in
        (m', rehash-skips n i m vacant ∙ run, done)
    | inr full ↦
        let nonzero : old.keys i ≢ 0 = ground arith in
        let grows = used_full old.keys i full in
        let below = used_mono old.keys old.cap (suc i) (omega arith) in
        let room : 10 * (m.len + 1) < 6 * m.cap =
          omega (arith, moved.len_le, moved.larger, t.load, t.counted) in
        let (m1, run1, s, cap) =
          stores m moved.moved (old.keys i) (old.values i) moved.is_table moved.represents nonzero
            room in
        let on : Moved (suc i) m1 = record {
          moved = update moved.moved (old.keys i) (some (old.values i));
          is_table = s.is_table;
          represents = s.represents;
          prefix = IsPrefix-add moved.moved i (omega arith) nonzero moved.prefix;
          len_le = omega (arith, s.len_le, moved.len_le);
          larger = cap ∙ moved.larger;
        } in
        let (m', run, done) = rehash-Moved n (suc i) m1 (omega arith) on in
        (m', rehash-moves n i m m1 full run1 ∙ run, done)
  ]

  pub rehash-Represents :
      (m : HMap)
      → IsTable m
      → Represents m (λ k. none)
      → m.len ≡ 0
      → m.cap ≡ 2 * old.cap
      → (m' : HMap) × (rehash put old.keys old.values 0 old.cap m ≡ some m')
        × IsTable m'
        × Represents m' f
        × (m'.len ≤ old.len)
        × (m'.cap ≡ 2 * old.cap)
  rehash-Represents m is_table nothing no_len larger =
      let start : Moved 0 m = record {
        moved = λ k. none;
        is_table = is_table;
        represents = nothing;
        prefix = record { covers = λ j lt u. absurd (omega arith); only = λ k v k_nonzero e. cc };
        len_le = omega arith;
        larger = larger;
      } in
      let (m', run, done) = rehash-Moved old.cap 0 m (omega arith) start in
      (
        m',
        run,
        done.is_table,
        IsPrefix-whole m' done.moved done.prefix done.represents,
        omega (arith, done.len_le, t.counted),
        done.larger,
      )
