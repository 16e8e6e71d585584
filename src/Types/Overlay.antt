-- ===== src/Types/Overlay.antt =====
-- The layout of unions, complete_union_type of src/ast/module.c.
use nibble.Prelude.{ℕ, ◌+◌, ◌≤◌, ◌≡◌, List, [], ◌∷◌}
use nibble.Types.Layout.{TypeExtent, TypeAggregateField, Aggregate}
use nibble.Types.Powers.{IsPow2, IsAlignedUp}
use nibble.Types.Fields.{bound, AlignsAll}

-- All fields of a union start at 0, in their order.
unfoldable pub Overlaid : ℕ → List TypeExtent → List TypeAggregateField → ℕ → Type 0
Overlaid i [] [] size = Unit {0}
Overlaid i [] (f ∷ fs) size = ⊥
Overlaid i (t ∷ ts) [] size = ⊥
Overlaid i (t ∷ ts) (f ∷ fs) size =
    (f.type ≡ t) × (f.index ≡ i) × (f.offset ≡ 0) × (t.size ≤ size) × Overlaid (i + 1) ts fs size

record Shared (size align i : ℕ) (types : List TypeExtent) (body : Aggregate) : Type 0 where
  overlaid : Overlaid i types body.fields body.extent.size
  larger_size : size ≤ body.extent.size
  within : body.extent.size ≤ size + bound types
  grows : align ≤ body.extent.align
  small : body.extent.align ≤ align + bound types
  power : IsPow2 body.extent.align
  aligns : AlignsAll body.extent.align types

-- What complete_union_type gives
pub record Overlay (types : List TypeExtent) (u : Aggregate) : Type 0 where
  pub content : ℕ
  pub overlaid : Overlaid 0 types u.fields content
  pub padded : IsAlignedUp content u.extent.align u.extent.size
  pub power : IsPow2 u.extent.align
  pub aligns : AlignsAll u.extent.align types
