-- ===== src/Lexer/Tokens.antt =====
-- Tokens: scan_token of src/lexer/module.c.
use nibble.Prelude.{
  ℕ, zero, suc, ◌+◌, ◌-◌, ◌%◌, ◌^◌, Bool, ◌⊎◌, inl, inr, not, ◌&&◌, ◌||◌, List, [], ◌∷◌, Option,
  none, some, leb, ◌==◌, if◌then◌else◌, take,
}
use nibble.Lexer.Chars.{is_whitespace, is_dec_digit, is_alphanum}
use nibble.Lexer.State.{
  Lexer, ProgRange, only_intrinsics, unexpected_char, lexer_pos, peek, peek1, peek2, advance,
  advance_by, on_error, on_line, skip_while,
}
use nibble.Lexer.Comments.{skip_c_comment}
use nibble.Lexer.Numbers.{FloatKind, TokenInt, TokenFloat, scan_int, scan_float}
use nibble.Lexer.Literals.{scan_char, scan_string}
use nibble.Lexer.Operators.{TokenKind, eof, str, ident, kw, int, float, operator}

-- What a token carries beside its kind and range
pub data Payload : Type 0 where
  nothing : Payload
  as_int : TokenInt → Payload
  as_float : TokenFloat → Payload
  as_str : List ℕ → Payload
  as_word : List ℕ → Payload

-- Token
pub record Token : Type 0 where
  pub kind : TokenKind
  pub range : ProgRange
  pub payload : Payload

-- The kinds of an identifier
pub data IdentifierKind : Type 0 where
  name keyword intrinsic : IdentifierKind

-- The loop over white space
unfoldable pub skip_blanks : List ℕ → Lexer → Lexer
unfolding advance on_line
skip_blanks [] lx = lx
skip_blanks (c ∷ cs) lx =
    let behind = skip_blanks cs (advance (if c == 10 then on_line lx else lx)) in
    if is_whitespace c then behind else lx

-- The characters for which the code has the case of white space
abbrev pub begins_blank : ℕ → Bool
begins_blank c = c == 32 || (c == 9 || (c == 10 || (c == 13 || c == 11)))

abbrev pub is_letter : ℕ → Bool
is_letter c = (leb b'a' c && leb c b'z') || (leb b'A' c && leb c b'Z')

-- The characters for which the code has the case of a word
abbrev pub begins_word : ℕ → Bool
begins_word c = is_letter c || (c == b'_' || c == b'#')

-- A character of a line comment
abbrev pub in_line : ℕ → Bool
in_line c = not (c == 0) && (not (c == 10) && not (c == 13))

abbrev pub token_from : ℕ → TokenKind → Payload → Lexer → Token × Lexer
token_from start kind payload end = (
  record { kind = kind; range = record { start = start; end = lexer_pos end }; payload = payload },
  end,
)

-- What one turn of scan_token comes to: a token, a character of no token, or no fuel
pub data Scanned : Type 0 where
  found : Token × Lexer → Scanned
  unexpected no_fuel : Scanned

abbrev pub of_operator : Option (TokenKind × ℕ) → ℕ → Lexer → Scanned
of_operator none start lx = unexpected
of_operator (some (kind, length)) start lx =
    found (token_from start kind nothing (advance_by length lx))

abbrev pub of_string : Option (List ℕ × Lexer) → ℕ → Scanned
of_string none start = no_fuel
of_string (some (chars, end)) start = found (token_from start str (as_str chars) end)

-- Whether the digits in front lead on to a floating point literal
unfoldable pub is_float : Lexer → Bool
unfolding skip_while
is_float lx = let c = peek (skip_while is_dec_digit lx).at in c == b'.' || (c == b'e' || c == b'E')

-- The default case
unfoldable pub skip_unexpected : Lexer → Lexer
unfolding on_error advance
skip_unexpected lx = advance (
    on_error unexpected_char (record { start = lexer_pos lx; end = (lexer_pos lx + 1) % 2 ^ 32 })
      lx)

-- `kind_of` is what the table of identifiers says of a word, and `huge` is what the C library makes
-- of a floating point literal.
module _ (kind_of : List ℕ → IdentifierKind) (huge : FloatKind → List ℕ → Bool) where
  -- The token of a word, whose characters are `chars`
  unfoldable pub word_token : ℕ → List ℕ → Lexer → IdentifierKind → Token × Lexer
  unfolding on_error
  word_token start chars end keyword = token_from start kw (as_word chars) end
  word_token start chars end intrinsic = token_from start ident (as_word chars) end
  word_token start chars end name =
      if peek chars == b'#'
      then token_from start ident (as_word chars)
          (on_error only_intrinsics (record { start = start; end = lexer_pos end }) end)
      else token_from start ident (as_word chars) end

  unfoldable pub scan_word : Lexer → Token × Lexer
  unfolding word_token skip_while
  scan_word lx =
      let end = skip_while is_alphanum (advance lx) in
      let chars = take (end.offset - lx.offset) lx.at in
      word_token (lexer_pos lx) chars end (kind_of chars)

  unfoldable pub scan_number : Lexer → Token × Lexer
  unfolding is_float scan_float scan_int
  scan_number lx =
      let (tfloat, float_end) = scan_float huge lx in
      let (tint, int_end) = scan_int lx in
      if is_float lx
      then token_from (lexer_pos lx) float (as_float tfloat) float_end
      else token_from (lexer_pos lx) int (as_int tint) int_end

  -- The cases that give a token, and the default case
  unfoldable pub scan_case : ℕ → Lexer → Scanned
  unfolding scan_number scan_float scan_char scan_string scan_word operator
  scan_case fuel lx =
      let c = peek lx.at in
      let start = lexer_pos lx in
      let (tfloat, float_end) = scan_float huge lx in
      let (tint, int_end) = scan_char lx in
      if c == 0
      then found (token_from start eof nothing lx)
      else if c == b'.' && is_dec_digit (peek1 lx.at)
      then found (token_from start float (as_float tfloat) float_end)
      else if leb b'0' c && leb c b'9'
      then found (scan_number lx)
      else if c == 39
      then found (token_from start int (as_int tint) int_end)
      else if c == b'"'
      then of_string (scan_string fuel lx) start
      else if begins_word c
      then found (scan_word lx)
      else of_operator (operator c (peek1 lx.at) (peek2 lx.at)) start lx

  -- One turn from `top`: what it scans, or the lexer from which the code goes back to it
  unfoldable pub scan_turn : ℕ → Lexer → Scanned ⊎ Lexer
  unfolding skip_blanks skip_while skip_c_comment scan_case
  scan_turn fuel lx =
      let c = peek lx.at in
      let d = peek1 lx.at in
      if begins_blank c
      then inr (skip_blanks lx.at lx)
      else if c == b'/' && d == b'/'
      then inr (skip_while in_line lx)
      else if c == b'/' && d == b'*'
      then inr (skip_c_comment lx)
      else inl (scan_case fuel lx)

  -- scan_token, on fuel
  unfoldable pub scan_token : ℕ → Lexer → Option (Token × Lexer)
  unfolding scan_turn skip_unexpected
  scan_token zero lx = none
  scan_token (suc fuel) lx = elim (scan_turn (suc fuel) lx) [
    | inr behind ↦ scan_token fuel behind
    | inl (found t) ↦ some t
    | inl unexpected ↦ scan_token fuel (skip_unexpected lx)
    | inl no_fuel ↦ none
  ]
