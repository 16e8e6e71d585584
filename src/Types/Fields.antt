-- ===== src/Types/Fields.antt =====
-- What the layout of src/ast/module.c gives: fields that are aligned, apart and inside their struct.
use nibble.Prelude.{ℕ, ◌+◌, ◌%◌, ◌^◌, ◌<◌, ◌≤◌, ◌≡◌, refl, ap, List, [], ◌∷◌, arith}
use native.Mathlib.Nat.{mod-eq_of_lt}
use nibble.Types.Layout.{
  TypeExtent, TypeAggregateField, Aggregate, align_up_size, larger, add_field, struct_fields,
  complete_struct_type,
}
use nibble.Types.Powers.{
  IsPow2, pow_pos, IsAlignedUp, align_up_size-IsAlignedUp, IsPow2-multiple, IsPow2-larger,
}

-- Alignments are powers of two.
unfoldable pub HasAligns : List TypeExtent → Type 0
HasAligns [] = Unit {0}
HasAligns (t ∷ ts) = IsPow2 t.align × HasAligns ts

-- A bound of the size, padding included
unfoldable pub bound : List TypeExtent → ℕ
bound [] = 0
bound (t ∷ ts) = t.align + t.size + bound ts

-- The alignment is a multiple of that of each field.
unfoldable pub AlignsAll : ℕ → List TypeExtent → Type 0
AlignsAll align [] = Unit {0}
AlignsAll align (t ∷ ts) = (align % t.align ≡ 0) × AlignsAll align ts

-- The fields stand one behind the other from `from` to `end`, each at the first offset that is a
-- multiple of its alignment.
unfoldable pub Placed : ℕ → ℕ → List TypeExtent → List TypeAggregateField → ℕ → Type 0
Placed from i [] [] end = end ≡ from
Placed from i [] (f ∷ fs) end = ⊥
Placed from i (t ∷ ts) [] end = ⊥
Placed from i (t ∷ ts) (f ∷ fs) end =
    (f.type ≡ t)
    × (f.index ≡ i)
    × IsAlignedUp from t.align f.offset
    × Placed (f.offset + t.size) (i + 1) ts fs end

-- What the loop gives
record Laid (size align i : ℕ) (types : List TypeExtent) (body : Aggregate) : Type 0 where
  placed : Placed size i types body.fields body.extent.size
  within : body.extent.size ≤ size + bound types
  grows : align ≤ body.extent.align
  small : body.extent.align ≤ align + bound types
  power : IsPow2 body.extent.align
  aligns : AlignsAll body.extent.align types

module _ (t : TypeExtent) (ts : List TypeExtent) where
  Laid-step :
      (size align offset i : ℕ) (rest : Aggregate)
      → IsPow2 t.align
      → IsAlignedUp size t.align offset
      → Laid (offset + t.size) (larger align t.align) (i + 1) ts rest
      → Laid size align i (t ∷ ts) (add_field t offset i rest)
  unfolding Placed bound AlignsAll
  Laid-step size align offset i rest p up l = record {
    placed = (refl, refl, up, l.placed);
    within = omega (arith, l.within, up.near);
    grows = ground (arith, l.grows);
    small = ground (arith, l.small);
    power = l.power;
    aligns =
        (IsPow2-multiple t.align rest.extent.align p l.power (ground (arith, l.grows)), l.aligns);
  }

struct_fields-step :
    (size align i : ℕ) (t : TypeExtent) (ts : List TypeExtent)
    → IsPow2 t.align
    → size + bound (t ∷ ts) < 2 ^ 64
    → ((offset : ℕ)
        → IsAlignedUp size t.align offset
        → Laid
            (offset + t.size)
            (larger align t.align)
            (i + 1)
            ts
            (struct_fields (offset + t.size) (larger align t.align) (i + 1) ts))
    → Laid size align i (t ∷ ts) (struct_fields size align i (t ∷ ts))
unfolding struct_fields bound
struct_fields-step size align i t ts (k, p) room rest =
    let a_pos : 0 < t.align = rw p (pow_pos k) in
    let up = align_up_size-IsAlignedUp size t.align a_pos (omega arith) in
    let offset = align_up_size size t.align in
    let exact : (offset + t.size) % 2 ^ 64 ≡ offset + t.size =
      mod-eq_of_lt (omega (arith, up.near)) in
    let same : struct_fields size align i (t ∷ ts)
        ≡ add_field t offset i (struct_fields (offset + t.size) (larger align t.align) (i + 1) ts) =
      ap (λ z. add_field t offset i (struct_fields z (larger align t.align) (i + 1) ts)) exact in
    rw same (Laid-step t ts size align offset i _ (k, p) up (rest offset up))

struct_fields-Laid :
    (size align i : ℕ) (types : List TypeExtent)
    → IsPow2 align
    → HasAligns types
    → size + bound types < 2 ^ 64
    → Laid size align i types (struct_fields size align i types)
unfolding struct_fields HasAligns bound Placed AlignsAll
struct_fields-Laid size align i [] p has room = record {
  placed = refl;
  within = omega arith;
  grows = omega arith;
  small = omega arith;
  power = p;
  aligns = tt;
}
struct_fields-Laid size align i (t ∷ ts) p (t_pow, has) room =
    struct_fields-step size align i t ts t_pow room (λ offset up.
      struct_fields-Laid (offset + t.size) (larger align t.align) (i + 1) ts
        (IsPow2-larger align t.align p t_pow) has (omega (arith, up.near)))

first_field-Laid :
    (t : TypeExtent) (ts : List TypeExtent)
    → IsPow2 t.align
    → HasAligns ts
    → bound (t ∷ ts) < 2 ^ 64
    → Laid 0 0 0 (t ∷ ts) (struct_fields 0 0 0 (t ∷ ts))
unfolding bound
first_field-Laid t ts (k, p) has room =
    let a_pos : 0 < t.align = rw p (pow_pos k) in
    let first : larger 0 t.align ≡ t.align = ground arith in
    struct_fields-step 0 0 0 t ts (k, p) (omega arith)
      (λ offset up.
        struct_fields-Laid (offset + t.size) (larger 0 t.align) 1 ts (rw first (k, p)) has
          (omega (arith, up.near)))

-- What complete_struct_type gives
pub record LaidOut (types : List TypeExtent) (s : Aggregate) : Type 0 where
  pub placed_to : ℕ
  pub placed : Placed 0 0 types s.fields placed_to
  pub padded : IsAlignedUp placed_to s.extent.align s.extent.size
  pub power : IsPow2 s.extent.align
  pub aligns : AlignsAll s.extent.align types

-- complete_struct_type, on at least one field, with alignments that are powers of two and sizes and
-- alignments that together stay below 2 ^ 63: the fields stand in their order, each at the first offset
-- behind the one before that is a multiple of its alignment; the size is the first multiple of the struct's
-- alignment that is not below their end, and that alignment is a power of two and a multiple of each field's.
pub complete_struct_type-LaidOut :
    (t : TypeExtent) (ts : List TypeExtent)
    → HasAligns (t ∷ ts)
    → bound (t ∷ ts) < 2 ^ 63
    → LaidOut (t ∷ ts) (complete_struct_type (t ∷ ts))
unfolding complete_struct_type HasAligns bound
complete_struct_type-LaidOut t ts has room =
    let (t_pow, ts_pows) = has in
    let l = first_field-Laid t ts t_pow ts_pows (omega arith) in
    let body = struct_fields 0 0 0 (t ∷ ts) in
    let (k, p) = l.power in
    let a_pos : 0 < body.extent.align = rw p (pow_pos k) in
    record {
      placed_to = body.extent.size;
      placed = l.placed;
      padded =
          align_up_size-IsAlignedUp body.extent.size body.extent.align a_pos
            (omega (arith, l.within, l.small));
      power = l.power;
      aligns = l.aligns;
    }
