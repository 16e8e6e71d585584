-- ===== src/Intern/Compare.antt =====
-- What the comparison of src/cstring.c tells of strings without a zero.
use nibble.Prelude.{
  ℕ, zero, suc, ◌≡◌, ◌≢◌, inl, inr, refl, sym, Bool, true, false, not, ◌&&◌, List, [], ◌∷◌, length,
  ◌==◌, if◌then◌else◌, arith, Bool-cases,
}
use nibble.Intern.Pool.{StrLit, char_at, after, cstr_ncmp_is_zero, is_lit}

-- No byte is 0.
pub data NoZero : List ℕ → Type 0 where
  no_bytes : NoZero []
  one_more : {c : ℕ} {cs : List ℕ} → c ≢ 0 → NoZero cs → NoZero (c ∷ cs)

if_same : (b : Bool) → (if b then true else true) ≡ true
if_same true = refl
if_same false = refl

both_true : (a b : Bool) → (a && b) ≡ true → (a ≡ true) × (b ≡ true)
both_true true b h = (refl, h)
both_true false b h = absurd (ground arith)

-- What a round of the comparison tells where the whole gives 0
if_and :
    (same more rest : Bool)
    → (if same && more then rest else same) ≡ true
    → (same ≡ true) × (more ≡ true → rest ≡ true)
if_and true true rest h = (refl, λ e. h)
if_and true false rest h = (refl, λ e. absurd (ground arith))
if_and false more rest h = absurd (ground arith)

cstr_ncmp_is_zero_self : (cs : List ℕ) (n : ℕ) → cstr_ncmp_is_zero cs cs n ≡ true
unfolding cstr_ncmp_is_zero
cstr_ncmp_is_zero_self cs zero = refl
cstr_ncmp_is_zero_self cs (suc n) =
    let same : (char_at cs == char_at cs) ≡ true = ground arith in
    let rest = cstr_ncmp_is_zero_self (after cs) n in
    rw (same, rest) (if_same (not (char_at cs == 0) && (not (char_at cs == 0) && not (n == 0))))

cstr_ncmp_is_zero-eq :
    (xs ys : List ℕ)
    → length xs ≡ length ys
    → NoZero xs
    → cstr_ncmp_is_zero xs ys (length ys) ≡ true
    → xs ≡ ys
unfolding cstr_ncmp_is_zero
cstr_ncmp_is_zero-eq [] [] h z e = refl
cstr_ncmp_is_zero-eq [] (y ∷ ys) h z e = absurd (omega arith)
cstr_ncmp_is_zero-eq (x ∷ xs) [] h z e = absurd (omega arith)
cstr_ncmp_is_zero-eq (x ∷ xs) (y ∷ ys) h (one_more nonzero z) e =
    let more = not (x == 0) && (not (y == 0) && not (length ys == 0)) in
    let (same, next) = if_and (x == y) more (cstr_ncmp_is_zero xs ys (length ys)) e in
    let head : x ≡ y = ground arith in
    let rest : cstr_ncmp_is_zero xs ys (length ys) ≡ true = elim (Bool-cases (length ys == 0)) [
      | inl ended ↦ let zero_left : length ys ≡ 0 = ground arith in rw zero_left refl
      | inr longer ↦ next (ground arith)
    ] in
    rw (head, cstr_ncmp_is_zero-eq xs ys (omega arith) z rest) refl

-- An object that says how long its bytes are, none of which is 0
pub record IsProper (it : StrLit) : Type 0 where
  pub len_right : it.len ≡ length it.str
  pub no_zero : NoZero it.str

pub is_lit-eq : (it : StrLit) (str : List ℕ) → IsProper it → is_lit it str ≡ true → it.str ≡ str
unfolding is_lit
is_lit-eq it str p e =
    let (same, equal) =
      both_true (it.len == length str) (cstr_ncmp_is_zero it.str str (length str)) e in
    cstr_ncmp_is_zero-eq it.str str (ground (arith, p.len_right)) p.no_zero equal

pub is_lit_self : (it : StrLit) (str : List ℕ) → IsProper it → it.str ≡ str → is_lit it str ≡ true
unfolding is_lit
is_lit_self it str p e =
    let same : (it.len == length str) ≡ true = rw (sym e) (ground (arith, p.len_right)) in
    let equal : cstr_ncmp_is_zero it.str str (length str) ≡ true =
      rw e (cstr_ncmp_is_zero_self str (length str)) in
    rw (same, equal) refl
