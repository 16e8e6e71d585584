-- ===== src/Lexer/Within.antt =====
-- The steps of the lexer, src/lexer/module.c, stay in a text that has no backslash and no apostrophe.
use nibble.Prelude.{
  ℕ, zero, suc, ◌+◌, ◌≤◌, ◌<◌, ◌≡◌, refl, Bool, true, false, not, ◌&&◌, ◌||◌, ◌*◌, ◌-◌, ◌%◌, ◌^◌,
  List, [], ◌∷◌, length, take, ◌==◌, if◌then◌else◌, arith,
}
use nibble.Lexer.State.{
  Lexer, ErrorKind, ProgRange, peek, peek1, rest_of, is_end, advance, advance_by, on_error, on_line,
  count_while, skip_while, skip_char, skip_word_end,
}
use nibble.Lexer.Chars.{is_dec_digit, is_alphanum, biased_digit}
use nibble.Lexer.Numbers.{
  ScanDigitsErr, no_error, exceed_base, overflow, TokenInt, TokenIntRep, scan_digits_loop,
  scan_digits, Base, scan_base, scan_suffix, finish_int, int_of_digits, scan_int, FloatKind, f32,
  f64, TokenFloat, scan_fraction, skip_sign, float_of, scan_float, u64_max,
}
use nibble.Lexer.Passes.{left}

unfoldable pub is_plain : List ℕ → Bool
is_plain [] = true
is_plain (c ∷ cs) = not (c == 92) && (not (c == 39) && is_plain cs)

-- The lexer has not left its text, which is plain from here on.
pub record IsWithin (lx : Lexer) : Type 0 where
  pub inside : lx.overrun ≡ false
  pub plain : is_plain lx.at ≡ true

pub if-elim :
    {A : Type 0} (P : A → Type 0) {s t : A} (b : Bool)
    → (b ≡ true → P s)
    → (b ≡ false → P t)
    → P (if b then s else t)
if-elim P true hs ht = hs refl
if-elim P false hs ht = ht refl

rest_of-plain : (cs : List ℕ) → is_plain cs ≡ true → is_plain (rest_of cs) ≡ true
unfolding is_plain
rest_of-plain [] h = h
rest_of-plain (c ∷ cs) h = ground (arith, h)

is_end-more : (cs : List ℕ) → 0 < length cs → is_end cs ≡ false
is_end-more [] h = absurd (omega arith)
is_end-more (c ∷ cs) h = refl

-- A character that passes a test, which the end does not pass
pub test-more :
    (test : ℕ → Bool) (cs : List ℕ) → test 0 ≡ false → test (peek cs) ≡ true → 0 < length cs
test-more test [] not_end h = absurd (cc (not_end, h))
test-more test (c ∷ cs) not_end h = omega arith

test-more1 :
    (test : ℕ → Bool) (cs : List ℕ) → test 0 ≡ false → test (peek1 cs) ≡ true → 2 ≤ length cs
test-more1 test [] not_end h = absurd (cc (not_end, h))
test-more1 test (c ∷ []) not_end h = absurd (cc (not_end, h))
test-more1 test (c ∷ d ∷ cs) not_end h = omega arith

pub advance-IsWithin : (lx : Lexer) → 0 < left lx → IsWithin lx → IsWithin (advance lx)
unfolding advance
advance-IsWithin lx more w = record {
  inside = rw (is_end-more lx.at more) w.inside;
  plain = rest_of-plain lx.at w.plain;
}

left-advance : (lx : Lexer) → left lx ≤ left (advance lx) + 1
unfolding advance
left-advance lx = go lx.at
  where
    go : (cs : List ℕ) → length cs ≤ length (rest_of cs) + 1
    go [] = omega arith
    go (c ∷ cs) = omega arith

pub advance_by-IsWithin :
    (n : ℕ) (lx : Lexer) → n ≤ left lx → IsWithin lx → IsWithin (advance_by n lx)
unfolding advance_by
advance_by-IsWithin zero lx h w = w
advance_by-IsWithin (suc n) lx h w =
    advance_by-IsWithin n (advance lx) (omega (arith, left-advance lx, h))
      (advance-IsWithin lx (omega (arith, h)) w)

count_while-length : (test : ℕ → Bool) (cs : List ℕ) → count_while test cs ≤ length cs
unfolding count_while
count_while-length test [] = omega arith
count_while-length test (c ∷ cs) = ground (arith, count_while-length test cs)

pub skip_while-IsWithin :
    (test : ℕ → Bool) (lx : Lexer) → IsWithin lx → IsWithin (skip_while test lx)
unfolding skip_while
skip_while-IsWithin test lx w =
    advance_by-IsWithin (count_while test lx.at) lx (count_while-length test lx.at) w

pub skip_word_end-IsWithin : (lx : Lexer) → IsWithin lx → IsWithin (skip_word_end lx)
unfolding skip_word_end
skip_word_end-IsWithin lx w = skip_while-IsWithin _ lx w

pub on_error-IsWithin :
    (kind : ErrorKind) (range : ProgRange) (lx : Lexer)
    → IsWithin lx
    → IsWithin (on_error kind range lx)
unfolding on_error
on_error-IsWithin kind range lx w = record { inside = w.inside; plain = w.plain }

pub on_line-IsWithin : (lx : Lexer) → IsWithin lx → IsWithin (on_line lx)
unfolding on_line
on_line-IsWithin lx w = record { inside = w.inside; plain = w.plain }

pub skip_char-IsWithin : (c : ℕ) (lx : Lexer) → 0 < c → IsWithin lx → IsWithin (skip_char c lx)
unfolding skip_char
skip_char-IsWithin c lx some_char w =
    if-elim IsWithin (peek lx.at == c)
      (λ e. advance-IsWithin lx (test-more (λ t. t == c) lx.at (ground (arith, some_char)) e) w)
      (λ e. w)

scan_digits_loop-used :
    (base max : ℕ) (cs : List ℕ) (value used : ℕ)
    → (scan_digits_loop base max cs value used).used ≤ used + length cs
unfolding scan_digits_loop
scan_digits_loop-used base max [] value used = omega arith
scan_digits_loop-used base max (c ∷ []) value used = ground arith
scan_digits_loop-used base max (c ∷ d ∷ cs) value used =
    let next = (value * base % 2 ^ 64 + (biased_digit c - 1)) % 2 ^ 64 in
    ground (
      arith,
      scan_digits_loop-used base max cs next (used + 2),
      scan_digits_loop-used base max (d ∷ cs) next (used + 1),
    )

scan_base-used : (cs : List ℕ) → (scan_base cs).used ≤ length cs
unfolding scan_base is_dec_digit
scan_base-used cs =
    let c = peek1 cs in
    let P : Base → Type 0 = λ r. r.used ≤ length cs in
    if-elim P (not (peek cs == b'0')) (λ e. omega arith)
      (λ e.
        let zero_digit : (peek cs == b'0') ≡ true = ground (arith, e) in
        let more = test-more (λ t. t == b'0') cs refl zero_digit in
        if-elim P (c == b'x' || c == b'X') (λ e. test-more1 (λ t. t == b'x' || t == b'X') cs refl e)
          (λ e.
            if-elim P (c == b'b' || c == b'B')
              (λ e. test-more1 (λ t. t == b'b' || t == b'B') cs refl e)
              (λ e.
                if-elim P (is_dec_digit c) (λ e. omega (arith, more)) (λ e. omega (arith, more)))))

scan_suffix-used : (cs : List ℕ) → (scan_suffix (peek cs)).1 ≤ length cs
unfolding scan_suffix
scan_suffix-used [] = omega arith
scan_suffix-used (c ∷ cs) = ground arith

finish_int-IsWithin :
    (from : ℕ) (rep : TokenIntRep) (value : ℕ) (lx : Lexer)
    → IsWithin lx
    → IsWithin (finish_int from rep value lx).1
unfolding finish_int
finish_int-IsWithin from rep value lx w =
    let end = advance_by (scan_suffix (peek lx.at)).1 lx in
    let at_end = advance_by-IsWithin (scan_suffix (peek lx.at)).1 lx (scan_suffix-used lx.at) w in
    if-elim (λ (r : TokenInt × Lexer). IsWithin r.1) (is_alphanum (peek end.at))
      (λ e. skip_word_end-IsWithin _ (on_error-IsWithin _ _ end at_end)) (λ e. at_end)

int_of_digits-IsWithin :
    (from : ℕ) (rep : TokenIntRep) (err : ScanDigitsErr) (value : ℕ) (lx : Lexer)
    → IsWithin lx
    → IsWithin (int_of_digits from rep err value lx).1
unfolding int_of_digits
int_of_digits-IsWithin from rep no_error value lx w = finish_int-IsWithin from rep value lx w
int_of_digits-IsWithin from rep exceed_base value lx w =
    skip_word_end-IsWithin _ (on_error-IsWithin _ _ lx w)
int_of_digits-IsWithin from rep overflow value lx w =
    skip_word_end-IsWithin _ (on_error-IsWithin _ _ lx w)

pub scan_int-IsWithin : (lx : Lexer) → IsWithin lx → IsWithin (scan_int lx).1
unfolding scan_int scan_digits
scan_int-IsWithin lx w =
    let b = scan_base lx.at in
    let digits = advance_by b.used lx in
    let at_digits = advance_by-IsWithin b.used lx (scan_base-used lx.at) w in
    if-elim (λ (r : TokenInt × Lexer). IsWithin r.1)
      (biased_digit (peek digits.at) == 0 && not (b.base == 10))
      (λ e. skip_word_end-IsWithin _ (on_error-IsWithin _ _ digits at_digits))
      (λ e. int_of_digits-IsWithin lx.offset b.rep _ _ _ (
        advance_by-IsWithin _ digits
          (omega (arith, scan_digits_loop-used b.base u64_max digits.at 0 0)) at_digits))

scan_fraction-IsWithin : (lx : Lexer) → IsWithin lx → IsWithin (scan_fraction lx)
unfolding scan_fraction
scan_fraction-IsWithin lx w =
    let whole = skip_while is_dec_digit lx in
    let at_whole = skip_while-IsWithin is_dec_digit lx w in
    skip_while-IsWithin is_dec_digit _ (
      if-elim IsWithin (peek whole.at == b'.')
        (λ e. advance-IsWithin whole (test-more (λ t. t == b'.') whole.at refl e) at_whole)
        (λ e. at_whole))

skip_sign-IsWithin : (lx : Lexer) → IsWithin lx → IsWithin (skip_sign lx)
unfolding skip_sign
skip_sign-IsWithin lx w =
    if-elim IsWithin (peek lx.at == b'-' || peek lx.at == b'+')
      (λ e. advance-IsWithin lx (test-more (λ t. t == b'-' || t == b'+') lx.at refl e) w) (λ e. w)

module _ (huge : FloatKind → List ℕ → Bool) where
  float_of-IsWithin : (lx end : Lexer) → IsWithin end → IsWithin (float_of huge lx end).1
  unfolding float_of
  float_of-IsWithin lx end w =
      if-elim (λ (r : TokenFloat × Lexer). IsWithin r.1)
        (peek end.at == b'f' || peek end.at == b'F')
        (λ e.
          let behind =
            advance-IsWithin end (test-more (λ t. t == b'f' || t == b'F') end.at refl e) w in
          if-elim (λ (r : TokenFloat × Lexer). IsWithin r.1)
            (huge f32 (take (end.offset - lx.offset) lx.at)) (λ e. on_error-IsWithin _ _ _ behind)
            (λ e. behind))
        (λ e.
          if-elim (λ (r : TokenFloat × Lexer). IsWithin r.1)
            (huge f64 (take (end.offset - lx.offset) lx.at)) (λ e. on_error-IsWithin _ _ end w)
            (λ e. w))

  pub scan_float-IsWithin : (lx : Lexer) → IsWithin lx → IsWithin (scan_float huge lx).1
  unfolding scan_float
  scan_float-IsWithin lx w =
      let mantissa = scan_fraction lx in
      let at_mantissa = scan_fraction-IsWithin lx w in
      let signed = skip_sign (advance mantissa) in
      if-elim (λ (r : TokenFloat × Lexer). IsWithin r.1)
        (not (peek mantissa.at == b'e' || peek mantissa.at == b'E'))
        (λ e. float_of-IsWithin lx mantissa at_mantissa)
        (λ e.
          let letter : (peek mantissa.at == b'e' || peek mantissa.at == b'E') ≡ true =
            ground (arith, e) in
          let at_signed = skip_sign-IsWithin (advance mantissa) (
            advance-IsWithin mantissa
              (test-more (λ t. t == b'e' || t == b'E') mantissa.at refl letter) at_mantissa) in
          if-elim (λ (r : TokenFloat × Lexer). IsWithin r.1) (not (is_dec_digit (peek signed.at)))
            (λ e. skip_word_end-IsWithin _ (on_error-IsWithin _ _ signed at_signed))
            (λ e. float_of-IsWithin lx _ (skip_while-IsWithin is_dec_digit signed at_signed)))
