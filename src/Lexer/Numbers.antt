-- ===== src/Lexer/Numbers.antt =====
-- Number literals: scan_digits, scan_int and scan_float of src/lexer/module.c.
use nibble.Prelude.{
  ℕ, ◌+◌, ◌-◌, ◌*◌, ◌/◌, ◌%◌, ◌^◌, Bool, not, ◌&&◌, ◌||◌, List, [], ◌∷◌, ltb, leb, ◌==◌,
  if◌then◌else◌, take,
}
use nibble.Lexer.Chars.{is_dec_digit, is_alphanum, biased_digit}
use nibble.Lexer.State.{
  Lexer, bad_base_char, digit_outside_base, int_too_large, bad_suffix_char, bad_exponent,
  f32_too_large, f64_too_large, peek, peek1, advance, advance_by, on_error, range_from, skip_while,
  skip_word_end,
}

-- enum ScanDigitsErr
pub data ScanDigitsErr : Type 0 where
  no_error exceed_base overflow : ScanDigitsErr

-- ScanDigitsResult, with the number of characters that the loop has passed
pub record ScanDigitsResult : Type 0 where
  pub err : ScanDigitsErr
  pub value : ℕ
  pub used : ℕ

abbrev pub result : ScanDigitsErr → ℕ → ℕ → ScanDigitsResult
result err value used = record { err = err; value = value; used = used }

-- The next value, in u64 arithmetic.
abbrev pub next_value : ℕ → ℕ → ℕ → ℕ
next_value base value digit = (value * base % 2 ^ 64 + digit) % 2 ^ 64

-- The loop of scan_digits, `used` characters in.
unfoldable pub scan_digits_loop : ℕ → ℕ → List ℕ → ℕ → ℕ → ScanDigitsResult
scan_digits_loop base max [] value used = result no_error value used
scan_digits_loop base max (c ∷ []) value used =
    let digit = biased_digit c - 1 in
    if biased_digit c == 0
    then result no_error value used
    else if leb base digit
    then result exceed_base 0 used
    else if ltb ((max - digit) / base) value
    then result overflow 0 used
    else result no_error (next_value base value digit) (used + 1)
scan_digits_loop base max (c ∷ d ∷ cs) value used =
    let digit = biased_digit c - 1 in
    let next = next_value base value digit in
    let behind = scan_digits_loop base max cs next (used + 2) in
    let at_next = scan_digits_loop base max (d ∷ cs) next (used + 1) in
    if biased_digit c == 0
    then result no_error value used
    else if leb base digit
    then result exceed_base 0 used
    else if ltb ((max - digit) / base) value
    then result overflow 0 used
    else if d == b'_'
    then behind
    else at_next

-- UINT64_MAX
abbrev pub u64_max : ℕ
u64_max = 0xFFFFFFFFFFFFFFFF

-- scan_digits: the result and the lexer behind the digits
unfoldable pub scan_digits : ℕ → ℕ → Lexer → ScanDigitsResult × Lexer
unfolding scan_digits_loop
scan_digits base max lx = let r = scan_digits_loop base max lx.at 0 0 in (r, advance_by r.used lx)

-- TokenIntRep and TokenIntSuffix
pub data TokenIntRep : Type 0 where
  bin oct dec hex char_rep : TokenIntRep

pub data TokenIntSuffix : Type 0 where
  no_suffix suffix_u suffix_s : TokenIntSuffix

-- TokenInt
pub record TokenInt : Type 0 where
  pub value : ℕ
  pub rep : TokenIntRep
  pub suffix : TokenIntSuffix

abbrev pub token_int : ℕ → TokenIntRep → TokenIntSuffix → TokenInt
token_int value rep suffix = record { value = value; rep = rep; suffix = suffix }

-- The base of a literal, as scan_int reads it off its first characters.
pub record Base : Type 0 where
  pub base : ℕ
  pub rep : TokenIntRep
  pub used : ℕ

unfoldable pub scan_base : List ℕ → Base
scan_base at =
    let c = peek1 at in
    if not (peek at == b'0')
    then record { base = 10; rep = dec; used = 0 }
    else if c == b'x' || c == b'X'
    then record { base = 16; rep = hex; used = 2 }
    else if c == b'b' || c == b'B'
    then record { base = 2; rep = bin; used = 2 }
    else if is_dec_digit c
    then record { base = 8; rep = oct; used = 1 }
    else record { base = 10; rep = dec; used = 1 }

unfoldable pub scan_suffix : ℕ → TokenIntSuffix × ℕ
scan_suffix c =
    if c == b'u' then (suffix_u, 1) else if c == b's' then (suffix_s, 1) else (no_suffix, 0)

-- The end of scan_int: the suffix, and what may not follow it.
unfoldable pub finish_int : ℕ → TokenIntRep → ℕ → Lexer → TokenInt × Lexer
unfolding scan_suffix skip_word_end on_error
finish_int from rep value lx =
    let (suffix, n) = scan_suffix (peek lx.at) in
    let end = advance_by n lx in
    let tint = token_int value rep suffix in
    if is_alphanum (peek end.at)
    then (tint, skip_word_end (on_error bad_suffix_char (range_from from end) end))
    else (tint, end)

-- What scan_int makes of the result of scan_digits.
unfoldable pub int_of_digits : ℕ → TokenIntRep → ScanDigitsErr → ℕ → Lexer → TokenInt × Lexer
unfolding finish_int skip_word_end on_error
int_of_digits from rep no_error value lx = finish_int from rep value lx
int_of_digits from rep exceed_base value lx =
    (token_int 0 rep no_suffix, skip_word_end (on_error digit_outside_base (range_from from lx) lx))
int_of_digits from rep overflow value lx =
    (token_int 0 rep no_suffix, skip_word_end (on_error int_too_large (range_from from lx) lx))

-- scan_int
unfoldable pub scan_int : Lexer → TokenInt × Lexer
unfolding scan_base scan_digits int_of_digits
scan_int lx =
    let b = scan_base lx.at in
    let digits = advance_by b.used lx in
    let (r, end) = scan_digits b.base u64_max digits in
    if biased_digit (peek digits.at) == 0 && not (b.base == 10)
    then (
      token_int 0 b.rep no_suffix,
      skip_word_end (on_error bad_base_char (range_from lx.offset digits) digits),
    )
    else int_of_digits lx.offset b.rep r.err r.value end

-- FloatKind
pub data FloatKind : Type 0 where
  f64 f32 : FloatKind

-- TokenFloat: the value is what strtod or strtof makes of the characters. A literal that is refused
-- has none.
pub record TokenFloat : Type 0 where
  pub kind : FloatKind
  pub chars : List ℕ

-- The digits, the point and the digits of a literal
unfoldable pub scan_fraction : Lexer → Lexer
unfolding skip_while
scan_fraction lx =
    let whole = skip_while is_dec_digit lx in
    skip_while is_dec_digit (if peek whole.at == b'.' then advance whole else whole)

-- The exponent's sign behind its letter
unfoldable pub skip_sign : Lexer → Lexer
skip_sign lx = if peek lx.at == b'-' || peek lx.at == b'+' then advance lx else lx

-- `huge k chars`: strtod or strtof reads HUGE_VAL off the characters of a literal.
module _ (huge : FloatKind → List ℕ → Bool) where
  unfoldable pub float_of : Lexer → Lexer → TokenFloat × Lexer
  unfolding on_error advance
  float_of lx end =
      let chars = take (end.offset - lx.offset) lx.at in
      if peek end.at == b'f' || peek end.at == b'F'
      then (let behind = advance end in
          if huge f32 chars
          then (
            record { kind = f64; chars = [] },
            on_error f32_too_large (range_from lx.offset behind) behind,
          )
          else (record { kind = f32; chars = chars }, behind))
      else if huge f64 chars
      then (
        record { kind = f64; chars = [] },
        on_error f64_too_large (range_from lx.offset end) end,
      )
      else (record { kind = f64; chars = chars }, end)

  -- scan_float
  unfoldable pub scan_float : Lexer → TokenFloat × Lexer
  unfolding scan_fraction skip_sign float_of skip_word_end on_error
  scan_float lx =
      let mantissa = scan_fraction lx in
      let signed = skip_sign (advance mantissa) in
      if not (peek mantissa.at == b'e' || peek mantissa.at == b'E')
      then float_of lx mantissa
      else if not (is_dec_digit (peek signed.at))
      then (
        record { kind = f64; chars = [] },
        skip_word_end (on_error bad_exponent (range_from lx.offset signed) signed),
      )
      else float_of lx (skip_while is_dec_digit signed)
