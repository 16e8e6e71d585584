-- ===== src/Types/Tests.antt =====
-- Layouts of concrete structs and unions, and witnesses of the theorems about them.
use nibble.Prelude.{ℕ, ◌≡◌, ◌≤◌, ◌%◌, refl, List, [], ◌∷◌, arith}
use nibble.Types.Layout.{
  TypeExtent, TypeAggregateField, align_up_size, struct_fields, complete_struct_type,
}
use nibble.Types.Fields.{HasAligns, bound, LaidOut, complete_struct_type-LaidOut}
use nibble.Types.Apart.{field_end, complete_struct_type-apart}
use nibble.Types.Overlay.{Overlay}

abbrev extent : ℕ → ℕ → TypeExtent
extent size align = record { size = size; align = align }

-- Fields of one, eight and two bytes
abbrev byte : TypeExtent
byte = extent 1 1

abbrev others : List TypeExtent
others = extent 8 8 ∷ extent 2 2 ∷ []

size_of_three : (complete_struct_type (byte ∷ others)).extent ≡ extent 24 8
unfolding complete_struct_type struct_fields align_up_size
size_of_three = refl

aligns_of_three : HasAligns (byte ∷ others)
unfolding HasAligns
aligns_of_three = ((0, refl), ((3, refl), ((1, refl), tt)))

bound_of_three : bound (byte ∷ others) ≡ 22
unfolding bound
bound_of_three = refl

complete_struct_type-LaidOut_example :
    LaidOut (byte ∷ others) (complete_struct_type (byte ∷ others))
complete_struct_type-LaidOut_example =
    complete_struct_type-LaidOut byte others aligns_of_three (omega (arith, bound_of_three))

abbrev at_eight : TypeAggregateField
at_eight = record { type = extent 8 8; offset = 8; index = 1 }

abbrev at_sixteen : TypeAggregateField
at_sixteen = record { type = extent 2 2; offset = 16; index = 2 }

fields_of_three :
    (complete_struct_type (byte ∷ others)).fields
    ≡ record { type = byte; offset = 0; index = 0 } ∷ at_eight ∷ at_sixteen ∷ []
unfolding complete_struct_type struct_fields align_up_size
fields_of_three = refl

complete_struct_type-apart_example :
    (field_end at_eight ≤ at_sixteen.offset)
    × (at_sixteen.offset % at_sixteen.type.align ≡ 0)
    × (field_end at_sixteen ≤ (complete_struct_type (byte ∷ others)).extent.size)
    × (at_sixteen.index ≡ 2)
unfolding complete_struct_type struct_fields align_up_size
complete_struct_type-apart_example =
    complete_struct_type-apart byte others 1 2 at_eight at_sixteen aligns_of_three
      (omega (arith, bound_of_three)) (omega arith) refl refl
