-- ===== src/Types/Apart.antt =====
-- That the fields of a struct do not overlap and lie inside it, complete_struct_type of
-- src/ast/module.c.
use mathlib.Core.Option.{some-injective, none-ne-some}
use nibble.Prelude.{
  ℕ, zero, suc, ◌+◌, ◌%◌, ◌^◌, ◌<◌, ◌≤◌, ◌≡◌, sym, List, [], ◌∷◌, some, get_elem?, arith,
}
use nibble.Types.Layout.{TypeExtent, TypeAggregateField, complete_struct_type}
use nibble.Types.Fields.{HasAligns, bound, Placed, complete_struct_type-LaidOut}

abbrev pub field_end : TypeAggregateField → ℕ
field_end f = f.offset + f.type.size

module _ (end : ℕ) where
  Placed-le :
      (from i : ℕ) (ts : List TypeExtent) (fs : List TypeAggregateField)
      → Placed from i ts fs end
      → from ≤ end
  unfolding Placed
  Placed-le from i [] [] p = omega (arith, p)
  Placed-le from i [] (f ∷ fs) p = absurd p
  Placed-le from i (t ∷ ts) [] p = absurd p
  Placed-le from i (t ∷ ts) (f ∷ fs) (same, index, up, rest) =
      omega (arith, up.above, Placed-le (f.offset + t.size) (i + 1) ts fs rest)

  -- Each field is aligned, behind the start, and ends before the end.
  Placed-field :
      (n from i : ℕ) (ts : List TypeExtent) (fs : List TypeAggregateField) (f : TypeAggregateField)
      → Placed from i ts fs end
      → get_elem? fs n ≡ some f
      → (f.offset % f.type.align ≡ 0) × (from ≤ f.offset) × (field_end f ≤ end) × (f.index ≡ i + n)
  unfolding Placed
  Placed-field n from i [] [] g p at = absurd (none-ne-some g at)
  Placed-field n from i [] (f ∷ fs) g p at = absurd p
  Placed-field n from i (t ∷ ts) [] g p at = absurd p
  Placed-field zero from i (t ∷ ts) (f ∷ fs) g (same, index, up, rest) at =
      let last = Placed-le (f.offset + t.size) (i + 1) ts fs rest in
      rw (sym (some-injective f g at), same) (up.aligned, up.above, last, omega (arith, index))
  Placed-field (suc n) from i (t ∷ ts) (f ∷ fs) g (same, index, up, rest) at =
      let (al, behind, before, ix) = Placed-field n (f.offset + t.size) (i + 1) ts fs g rest at in
      (al, omega (arith, up.above), before, omega arith)

  Placed-apart :
      (n m from i : ℕ) (ts : List TypeExtent) (fs : List TypeAggregateField)
      (f g : TypeAggregateField)
      → Placed from i ts fs end
      → n < m
      → get_elem? fs n ≡ some f
      → get_elem? fs m ≡ some g
      → field_end f ≤ g.offset
  unfolding Placed
  Placed-apart n m from i [] [] f g p h at_f at_g = absurd (none-ne-some f at_f)
  Placed-apart n m from i [] (e ∷ fs) f g p h at_f at_g = absurd p
  Placed-apart n m from i (t ∷ ts) [] f g p h at_f at_g = absurd p
  Placed-apart n zero from i (t ∷ ts) (e ∷ fs) f g p h at_f at_g = absurd (omega arith)
  Placed-apart zero (suc m) from i (t ∷ ts) (e ∷ fs) f g (same, index, up, rest) h at_f at_g =
      let (al, behind, before, ix) = Placed-field m (e.offset + t.size) (i + 1) ts fs g rest at_g in
      rw (sym (some-injective e f at_f), same) behind
  Placed-apart (suc n) (suc m) from i (t ∷ ts) (e ∷ fs) f g (same, index, up, rest) h at_f at_g =
      Placed-apart n m (e.offset + t.size) (i + 1) ts fs f g rest (omega arith) at_f at_g

-- Of two different fields of a struct, the first ends before the second starts, and this one is aligned and
-- ends inside the struct: for alignments that are powers of two, and sizes and alignments that together
-- stay below 2 ^ 63.
pub complete_struct_type-apart :
    (t : TypeExtent) (ts : List TypeExtent) (n m : ℕ) (f g : TypeAggregateField)
    → HasAligns (t ∷ ts)
    → bound (t ∷ ts) < 2 ^ 63
    → n < m
    → get_elem? (complete_struct_type (t ∷ ts)).fields n ≡ some f
    → get_elem? (complete_struct_type (t ∷ ts)).fields m ≡ some g
    → (field_end f ≤ g.offset)
      × (g.offset % g.type.align ≡ 0)
      × (field_end g ≤ (complete_struct_type (t ∷ ts)).extent.size)
      × (g.index ≡ m)
complete_struct_type-apart t ts n m f g has room h at_f at_g =
    let s = complete_struct_type (t ∷ ts) in
    let l = complete_struct_type-LaidOut t ts has room in
    let (al, behind, before, ix) =
      Placed-field l.placed_to m 0 0 (t ∷ ts) s.fields g l.placed at_g in
    (
      Placed-apart l.placed_to n m 0 0 (t ∷ ts) s.fields f g l.placed h at_f at_g,
      al,
      omega (arith, l.padded.above),
      omega (arith, ix),
    )
