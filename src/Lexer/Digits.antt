-- ===== src/Lexer/Digits.antt =====
-- The numbers that scan_digits of src/lexer/module.c reads.
use nibble.Prelude.{
  ℕ, ◌+◌, ◌-◌, ◌*◌, ◌/◌, ◌^◌, ◌<◌, ◌≤◌, ◌≡◌, refl, Bool, true, false, ◌&&◌, inl, inr, List, [], ◌∷◌,
  ltb, leb, ◌==◌, if◌then◌else◌, arith, Bool-cases, sym, ◌∙◌, ltb→lt,
}
use native.Mathlib.Nat.{le-div_iff_mul-le, le-mul_of_pos_right}
use nibble.Lexer.Chars.{biased_digit}
use nibble.Lexer.State.{Lexer}
use nibble.Lexer.Numbers.{
  ScanDigitsErr, no_error, exceed_base, overflow, next_value, scan_digits_loop, scan_digits,
}

-- The digits that a text begins with: each may have one `_` behind it.
unfoldable pub digits_of : List ℕ → List ℕ
digits_of [] = []
digits_of (c ∷ []) = if biased_digit c == 0 then [] else (biased_digit c - 1) ∷ []
digits_of (c ∷ d ∷ cs) =
    let behind = digits_of cs in
    let at_next = digits_of (d ∷ cs) in
    if biased_digit c == 0
    then []
    else (biased_digit c - 1) ∷ (if d == b'_' then behind else at_next)

-- The number that digits stand for, behind the number `acc`.
unfoldable pub horner : ℕ → ℕ → List ℕ → ℕ
horner base acc [] = acc
horner base acc (d ∷ ds) = horner base (acc * base + d) ds

unfoldable pub all_digits : ℕ → List ℕ → Bool
all_digits base [] = true
all_digits base (d ∷ ds) = ltb d base && all_digits base ds

-- What each result says of the digits read behind the number `acc`.
pub data Reads (base max acc : ℕ) (ds : List ℕ) : ScanDigitsErr → ℕ → Type 0 where
  number :
      {v : ℕ}
      → all_digits base ds ≡ true
      → v ≡ horner base acc ds
      → v ≤ max
      → Reads base max acc ds no_error v
  beyond_base : all_digits base ds ≡ false → Reads base max acc ds exceed_base 0
  beyond_max : max < horner base acc ds → Reads base max acc ds overflow 0

horner-ge : (base acc : ℕ) (ds : List ℕ) → 0 < base → acc ≤ horner base acc ds
unfolding horner
horner-ge base acc [] h = omega arith
horner-ge base acc (d ∷ ds) h =
    omega (arith, horner-ge base (acc * base + d) ds h, le-mul_of_pos_right acc h)

lt_horner :
    (base max acc d : ℕ) (ds : List ℕ)
    → 0 < base
    → max < acc * base + d
    → max < horner base (acc * base + d) ds
lt_horner base max acc d ds hb h = omega (arith, horner-ge base (acc * base + d) ds hb)

ltb-false-le : (a b : ℕ) → ltb a b ≡ false → b ≤ a
ltb-false-le a b h = ground arith

-- The guard before the multiplication is exact.
guard_iff :
    (base max acc d : ℕ)
    → 0 < base
    → d ≤ max
    → ltb ((max - d) / base) acc ≡ ltb max (acc * base + d)
guard_iff base max acc d hb hd =
    let (fits, fits_back) = le-div_iff_mul-le {k = base} {x = acc} {y = max - d} hb in
    elim (Bool-cases (ltb max (acc * base + d))) [
      | inl beyond ↦ ground (arith, fits)
      | inr within ↦
          ground (
            arith,
            fits_back (let within' = ltb-false-le max (acc * base + d) within in omega arith),
          )
    ]

next_value-exact :
    (base max acc d : ℕ)
    → max < 2 ^ 64
    → acc * base + d ≤ max
    → next_value base acc d ≡ acc * base + d
next_value-exact base max acc d hm h = omega arith

guard_beyond :
    (base max acc d : ℕ)
    → 0 < base
    → d ≤ max
    → ltb ((max - d) / base) acc ≡ true
    → max < acc * base + d
guard_beyond base max acc d hb hd h =
    ltb→lt max (acc * base + d) (sym (guard_iff base max acc d hb hd) ∙ h)

guard_within :
    (base max acc d : ℕ)
    → 0 < base
    → d ≤ max
    → ltb ((max - d) / base) acc ≡ false
    → acc * base + d ≤ max
guard_within base max acc d hb hd h =
    ltb-false-le max (acc * base + d) (sym (guard_iff base max acc d hb hd) ∙ h)

Reads-digit :
    {base max acc d v : ℕ} {ds : List ℕ} {err : ScanDigitsErr}
    → ltb d base ≡ true
    → Reads base max (acc * base + d) ds err v
    → Reads base max acc (d ∷ ds) err v
unfolding horner all_digits
Reads-digit h (number all e le) = number (rw h all) e le
Reads-digit h (beyond_base bad) = beyond_base (rw h bad)
Reads-digit h (beyond_max lt) = beyond_max lt

scan_digits_loop-Reads :
    (base max acc used : ℕ) (text : List ℕ)
    → 0 < base
    → base ≤ max
    → max < 2 ^ 64
    → acc ≤ max
    → let r = scan_digits_loop base max text acc used in
      Reads base max acc (digits_of text) r.err r.value
unfolding scan_digits_loop digits_of horner all_digits
scan_digits_loop-Reads base max acc used [] hb hm h64 ha = number refl refl ha
scan_digits_loop-Reads base max acc used (c ∷ []) hb hm h64 ha =
    elim (Bool-cases (biased_digit c == 0)) [
      | inl end ↦ rw (end) (number refl refl ha)
      | inr digit ↦ elim (Bool-cases (leb base (biased_digit c - 1))) [
        | inl large ↦ rw (digit, large) (beyond_base (ground arith))
        | inr small ↦ elim (Bool-cases (ltb ((max - (biased_digit c - 1)) / base) acc)) [
          | inl over ↦
              rw (digit, small, over)
                (beyond_max (guard_beyond base max acc (biased_digit c - 1) hb (ground arith) over))
          | inr fits ↦
              let within = guard_within base max acc (biased_digit c - 1) hb (ground arith) fits in
              rw (digit, small, fits, next_value-exact base max acc (biased_digit c - 1) h64 within)
                (Reads-digit (ground arith) (number refl refl within))
        ]
      ]
    ]
scan_digits_loop-Reads base max acc used (c ∷ d ∷ cs) hb hm h64 ha =
    elim (Bool-cases (biased_digit c == 0)) [
      | inl end ↦ rw (end) (number refl refl ha)
      | inr digit ↦ elim (Bool-cases (leb base (biased_digit c - 1))) [
        | inl large ↦ rw (digit, large) (beyond_base (ground arith))
        | inr small ↦ elim (Bool-cases (ltb ((max - (biased_digit c - 1)) / base) acc)) [
          | inl over ↦
              rw (digit, small, over)
                (beyond_max (
                  lt_horner base max acc (biased_digit c - 1)
                    (if d == b'_' then digits_of cs else digits_of (d ∷ cs)) hb
                    (guard_beyond base max acc (biased_digit c - 1) hb (ground arith) over)))
          | inr fits ↦
              let within = guard_within base max acc (biased_digit c - 1) hb (ground arith) fits in
              let next = next_value-exact base max acc (biased_digit c - 1) h64 within in
              elim (Bool-cases (d == b'_')) [
                | inl underscore ↦
                    rw (digit, small, fits, underscore, next)
                      (Reads-digit (ground arith) (
                        scan_digits_loop-Reads base max (acc * base + (biased_digit c - 1))
                          (used + 2) cs hb hm h64 within))
                | inr other ↦
                    rw (digit, small, fits, other, next)
                      (Reads-digit (ground arith) (
                        scan_digits_loop-Reads base max (acc * base + (biased_digit c - 1))
                          (used + 1) (d ∷ cs) hb hm h64 within))
              ]
        ]
      ]
    ]

-- scan_digits in a base of at most max, a number below 2^64. It gives a number exactly if all digits are below the base and stand
-- for at most max: then it is their number. It answers that a digit exceeds the base only if one
-- does, and that the number overflows only if the digits stand for more than max.
pub scan_digits-Reads :
    (base max : ℕ) (lx : Lexer)
    → 0 < base
    → base ≤ max
    → max < 2 ^ 64
    → let r = (scan_digits base max lx).0 in Reads base max 0 (digits_of lx.at) r.err r.value
unfolding scan_digits
scan_digits-Reads base max lx hb hm h64 =
    scan_digits_loop-Reads base max 0 0 lx.at hb hm h64 (omega arith)
