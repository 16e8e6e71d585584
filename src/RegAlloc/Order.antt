-- ===== src/RegAlloc/Order.antt =====
-- The ordered lists of src/x64_gen/reg_alloc.c: what they hold, and in which order.
use nibble.Prelude.{
  ℕ, ◌≤◌, ◌≡◌, refl, Bool, true, false, not, ◌&&◌, ◌||◌, List, [], ◌∷◌, ◌++◌, ◌==◌, arith,
  Bool-cases, inl, inr,
}
use nibble.RegAlloc.State.{list_rm, belongs_at_end, add_before_later, list_add_by}

-- The interval stands in the list.
unfoldable pub has : ℕ → List ℕ → Bool
has i [] = false
has i (x ∷ xs) = x == i || has i xs

-- No interval stands in the list twice.
abbrev pub IsDistinct : List ℕ → Type 0
IsDistinct [] = Unit
IsDistinct (x ∷ xs) = (has x xs ≡ false) × IsDistinct xs

-- The keys rise along the list, from `low` on.
abbrev pub IsAscending : (ℕ → ℕ) → ℕ → List ℕ → Type 0
IsAscending key low [] = Unit
IsAscending key low (x ∷ xs) = (low ≤ key x) × IsAscending key (key x) xs

pub has-list_rm :
    (i node : ℕ) (xs : List ℕ) → has i (list_rm node xs) ≡ (not (node == i) && has i xs)
unfolding has list_rm
has-list_rm i node [] = ground arith
has-list_rm i node (x ∷ xs) = ground (arith, has-list_rm i node xs)

has-append : (i node : ℕ) (xs : List ℕ) → has i (xs ++ (node ∷ [])) ≡ (node == i || has i xs)
unfolding has
has-append i node [] = refl
has-append i node (x ∷ xs) = ground (arith, has-append i node xs)

has-add_before_later :
    (key : ℕ → ℕ) (i node : ℕ) (xs : List ℕ)
    → has i (add_before_later key node xs) ≡ (node == i || has i xs)
unfolding has add_before_later
has-add_before_later key i node [] = refl
has-add_before_later key i node (x ∷ xs) = ground (arith, has-add_before_later key i node xs)

-- An addition puts the new interval into the list and keeps the others.
pub has-list_add_by :
    (key : ℕ → ℕ) (i node : ℕ) (xs : List ℕ)
    → has i (list_add_by key node xs) ≡ (node == i || has i xs)
unfolding list_add_by
has-list_add_by key i node xs = elim (Bool-cases (belongs_at_end key node xs)) [
  | inl e ↦ rw e (has-append i node xs)
  | inr e ↦ rw e (has-add_before_later key i node xs)
]

pub IsDistinct-list_rm : (node : ℕ) (xs : List ℕ) → IsDistinct xs → IsDistinct (list_rm node xs)
unfolding has list_rm
IsDistinct-list_rm node [] d = tt
IsDistinct-list_rm node (x ∷ xs) d =
    ground (arith, has-list_rm x node xs, IsDistinct-list_rm node xs d.1)

IsDistinct-append :
    (node : ℕ) (xs : List ℕ) → has node xs ≡ false → IsDistinct xs → IsDistinct (xs ++ (node ∷ []))
unfolding has
IsDistinct-append node [] f d = (refl, tt)
IsDistinct-append node (x ∷ xs) f d =
    (ground (arith, has-append x node xs), IsDistinct-append node xs (ground arith) d.1)

IsDistinct-add_before_later :
    (key : ℕ → ℕ) (node : ℕ) (xs : List ℕ)
    → has node xs ≡ false
    → IsDistinct xs
    → IsDistinct (add_before_later key node xs)
unfolding has add_before_later
IsDistinct-add_before_later key node [] f d = (refl, tt)
IsDistinct-add_before_later key node (x ∷ xs) f d =
    ground (arith, has-add_before_later key x node xs, IsDistinct-add_before_later key node xs)

pub IsDistinct-list_add_by :
    (key : ℕ → ℕ) (node : ℕ) (xs : List ℕ)
    → has node xs ≡ false
    → IsDistinct xs
    → IsDistinct (list_add_by key node xs)
unfolding list_add_by
IsDistinct-list_add_by key node xs f d = elim (Bool-cases (belongs_at_end key node xs)) [
  | inl e ↦ rw e (IsDistinct-append node xs f d)
  | inr e ↦ rw e (IsDistinct-add_before_later key node xs f d)
]

IsAscending-append :
    (key : ℕ → ℕ) (low node : ℕ) (xs : List ℕ)
    → belongs_at_end key node xs ≡ true
    → IsAscending key low xs
    → IsAscending key low (xs ++ (node ∷ []))
unfolding belongs_at_end
IsAscending-append key low node [] e a = cc
IsAscending-append key low node (x ∷ []) e a = ground arith
IsAscending-append key low node (x ∷ y ∷ xs) e a =
    (a.0, IsAscending-append key (key x) node (y ∷ xs) e a.1)

IsAscending-add_before_later :
    (key : ℕ → ℕ) (low node : ℕ) (xs : List ℕ)
    → low ≤ key node
    → IsAscending key low xs
    → IsAscending key low (add_before_later key node xs)
unfolding add_before_later
IsAscending-add_before_later key low node [] h a = (h, tt)
IsAscending-add_before_later key low node (x ∷ xs) h a =
    ground (arith, IsAscending-add_before_later key (key x) node xs)

-- An addition keeps the list in rising order of its key.
pub IsAscending-list_add_by :
    (key : ℕ → ℕ) (low node : ℕ) (xs : List ℕ)
    → low ≤ key node
    → IsAscending key low xs
    → IsAscending key low (list_add_by key node xs)
unfolding list_add_by
IsAscending-list_add_by key low node xs h a = elim (Bool-cases (belongs_at_end key node xs)) [
  | inl e ↦ rw e (IsAscending-append key low node xs e a)
  | inr e ↦ rw e (IsAscending-add_before_later key low node xs h a)
]
