-- ===== src/Types/Layout.antt =====
-- The layout of structs and unions: complete_struct_type and complete_union_type of
-- src/ast/module.c.
use nibble.Prelude.{ℕ, ◌+◌, ◌-◌, ◌%◌, ◌^◌, List, [], ◌∷◌, ltb, if◌then◌else◌}

-- What the layout reads and sets of a Type
pub record TypeExtent : Type 0 where
  pub size : ℕ
  pub align : ℕ

-- TypeAggregateField, without its name
pub record TypeAggregateField : Type 0 where
  pub type : TypeExtent
  pub offset : ℕ
  pub index : ℕ

-- TypeAggregateBody with the extent of its type
pub record Aggregate : Type 0 where
  pub extent : TypeExtent
  pub fields : List TypeAggregateField

-- ALIGN_UP of a size_t: for a power of two, `& ~(align - 1)` clears what is below it.
unfoldable pub align_up_size : ℕ → ℕ → ℕ
align_up_size size align = let q = (size + align - 1) % 2 ^ 64 in q - q % align

abbrev pub larger : ℕ → ℕ → ℕ
larger a b = if ltb a b then b else a

abbrev pub add_field : TypeExtent → ℕ → ℕ → Aggregate → Aggregate
add_field type offset index rest = record rest {
  fields = record { type = type; offset = offset; index = index } ∷ rest.fields;
}

-- The loop of complete_struct_type from the field `i` on
unfoldable pub struct_fields : ℕ → ℕ → ℕ → List TypeExtent → Aggregate
unfolding align_up_size
struct_fields size align i [] = record {
  extent = record { size = size; align = align };
  fields = [];
}
struct_fields size align i (t ∷ ts) =
    let offset = align_up_size size t.align in
    add_field t offset i
      (struct_fields ((offset + t.size) % 2 ^ 64) (larger align t.align) (i + 1) ts)

abbrev pub pad_end : Aggregate → Aggregate
pad_end body = record body {
  extent = record {
    size = align_up_size body.extent.size body.extent.align;
    align = body.extent.align;
  };
}

-- complete_struct_type, of the types of its fields
unfoldable pub complete_struct_type : List TypeExtent → Aggregate
unfolding struct_fields align_up_size
complete_struct_type types = pad_end (struct_fields 0 0 0 types)

-- The loop of complete_union_type from the field `i` on
unfoldable pub union_fields : ℕ → ℕ → ℕ → List TypeExtent → Aggregate
union_fields size align i [] = record {
  extent = record { size = size; align = align };
  fields = [];
}
union_fields size align i (t ∷ ts) =
    add_field t 0 i (union_fields (larger size t.size) (larger align t.align) (i + 1) ts)

-- complete_union_type, of the types of its fields
unfoldable pub complete_union_type : List TypeExtent → Aggregate
unfolding union_fields align_up_size
complete_union_type types = pad_end (union_fields 0 0 0 types)
