-- ===== src/Lexer/Tests.antt =====
-- The lexer of src/lexer/module.c on concrete texts, and witnesses of its theorems.
use nibble.Prelude.{
  take, ◌≤◌, ℕ, ◌≡◌, refl, Bool, true, false, List, [], ◌∷◌, ◌++◌, Option, none, some, arith,
}
use nibble.Lexer.Chars.{is_alphanum, is_cntrl, biased_digit, unescape_char}
use nibble.Lexer.State.{Lexer, advance, advance_by, on_error}
use nibble.Lexer.Comments.{comment_loop, skip_c_comment}
use nibble.Lexer.Numbers.{
  u64_max, scan_digits, scan_digits_loop, scan_base, scan_suffix, finish_int, int_of_digits,
  scan_int, token_int, hex, suffix_u, FloatKind, overflow,
}
use nibble.Lexer.Literals.{
  scan_hex_escape, string_escape, string_char, string_loop, string_end, ended, scan_string,
}
use nibble.Lexer.Escape.{escape_letter, print_hex, escape_char, cstr_escape}
use nibble.Lexer.Operators.{TokenKind, rshift, rshift_assign, operator}
use nibble.Lexer.Tokens.{IdentifierKind, name, nothing, token_from, scan_token}
use nibble.Lexer.Names.{token_kind_names}
use nibble.Lexer.Spelling.{Spelled, operator-Spelled}
use nibble.Lexer.Longest.{begins_other, scan_token-longest}
use nibble.Lexer.Nesting.{char, nested, closing, skip_c_comment-print}
use nibble.Lexer.Digits.{Reads, digits_of, scan_digits-Reads}
use nibble.Lexer.RoundTrip.{Moved, Bytes, scan_string-cstr_escape}

abbrev lexer_on : List ℕ → Lexer
lexer_on text = record {
  at = text;
  offset = 0;
  start = 0;
  errors = [];
  line_pos = [];
  overrun = false;
}

abbrev no_word : List ℕ → IdentifierKind
no_word chars = name

abbrev never : FloatKind → List ℕ → Bool
never kind chars = false

-- 0x1Fu
abbrev hex_text : List ℕ
hex_text = b'0' ∷ b'x' ∷ b'1' ∷ b'F' ∷ b'u' ∷ []

scan_int_hex : (scan_int (lexer_on hex_text)).0 ≡ token_int 31 hex suffix_u
unfolding scan_int scan_base scan_digits scan_digits_loop biased_digit int_of_digits finish_int
    scan_suffix advance_by advance is_alphanum
scan_int_hex = refl

-- 18446744073709551616, which is 2^64
abbrev large_text : List ℕ
large_text =
    b'1' ∷ b'8' ∷ b'4' ∷ b'4' ∷ b'6' ∷ b'7' ∷ b'4' ∷ b'4' ∷ b'0' ∷ b'7' ∷ b'3' ∷ b'7' ∷ b'0' ∷ b'9'
    ∷ b'5' ∷ b'5' ∷ b'1' ∷ b'6' ∷ b'1' ∷ b'6' ∷ []

scan_digits_large : (scan_digits 10 u64_max (lexer_on large_text)).0.err ≡ overflow
unfolding scan_digits scan_digits_loop biased_digit
scan_digits_large = refl

-- /*/**/*/;
abbrev nested_text : List ℕ
nested_text = b'/' ∷ b'*' ∷ b'/' ∷ b'*' ∷ b'*' ∷ b'/' ∷ b'*' ∷ b'/' ∷ b';' ∷ []

skip_c_comment_nested : (skip_c_comment (lexer_on nested_text)).at ≡ b';' ∷ []
unfolding skip_c_comment comment_loop advance_by advance
skip_c_comment_nested = refl

operator_shift : operator b'>' b'>' b'=' ≡ some (rshift_assign, 3)
unfolding operator
operator_shift = refl

abbrev has_overrun : Option (List ℕ × Lexer) → Bool
has_overrun none = false
has_overrun (some (chars, end)) = end.overrun

-- The text ends behind a backslash: the lexer moves on past its end.
overrun_in_string : has_overrun (scan_string 9 (lexer_on (b'"' ∷ 92 ∷ []))) ≡ true
unfolding scan_string string_loop string_char string_escape ended string_end scan_hex_escape
    unescape_char advance on_error biased_digit
overrun_in_string = refl

scan_digits-Reads_example :
    let r = (scan_digits 10 u64_max (lexer_on large_text)).0 in
    Reads 10 u64_max 0 (digits_of large_text) r.err r.value
scan_digits-Reads_example =
    scan_digits-Reads 10 u64_max (lexer_on large_text) (omega arith) (omega arith) (omega arith)

-- A letter, a new line, a quote, a zero, a control character, a backquote and a byte beyond ASCII
abbrev some_bytes : List ℕ
some_bytes = b'h' ∷ 10 ∷ 34 ∷ 0 ∷ 1 ∷ b'`' ∷ 200 ∷ []

abbrev escaped_text : List ℕ
escaped_text =
    34 ∷ b'h' ∷ 92 ∷ b'n' ∷ 92 ∷ 34 ∷ 92 ∷ b'0' ∷ 92 ∷ b'x' ∷ b'0' ∷ b'1' ∷ 92 ∷ b'x' ∷ b'6' ∷ b'0'
    ∷ 200 ∷ 34 ∷ b';' ∷ []

escaped_text_ok : escaped_text ≡ 34 ∷ (cstr_escape b'`' some_bytes ++ (34 ∷ b';' ∷ []))
unfolding cstr_escape escape_char escape_letter print_hex is_cntrl
escaped_text_ok = refl

some_bytes-Bytes : Bytes some_bytes
some_bytes-Bytes = (
  omega arith,
  (omega arith, (omega arith, (omega arith, (omega arith, (omega arith, (omega arith, tt)))))),
)

scan_string-cstr_escape_example :
    (end : Lexer) × (scan_string 8 (lexer_on escaped_text) ≡ some (some_bytes, end))
    × Moved (lexer_on escaped_text) end (b';' ∷ [])
scan_string-cstr_escape_example =
    scan_string-cstr_escape 8 b'`' some_bytes (lexer_on escaped_text) (b';' ∷ []) (omega arith)
      some_bytes-Bytes (omega arith) escaped_text_ok

operator-Spelled_example : Spelled (b'>' ∷ b'>' ∷ b'=' ∷ []) (operator b'>' b'>' b'=')
operator-Spelled_example = operator-Spelled b'>' b'>' b'='

-- >>=1
abbrev shift_text : List ℕ
shift_text = b'>' ∷ b'>' ∷ b'=' ∷ b'1' ∷ []

scan_token-longest_example :
    (kind : TokenKind) × (n : ℕ) × (token_kind_names kind ≡ take n (b'>' ∷ b'>' ∷ b'=' ∷ []))
    × (2 ≤ n)
    × (scan_token no_word never 1 (lexer_on shift_text)
        ≡ some (token_from 0 kind nothing (advance_by n (lexer_on shift_text))))
unfolding token_kind_names begins_other
scan_token-longest_example =
    scan_token-longest no_word never rshift 0 (lexer_on shift_text) refl refl

-- /*a/**/*/;
abbrev commented_text : List ℕ
commented_text = b'/' ∷ b'*' ∷ b'a' ∷ b'/' ∷ b'*' ∷ b'*' ∷ b'/' ∷ b'*' ∷ b'/' ∷ b';' ∷ []

skip_c_comment-print_example :
    Moved (lexer_on commented_text) (skip_c_comment (lexer_on commented_text)) (b';' ∷ [])
skip_c_comment-print_example =
    skip_c_comment-print (char b'a' (nested closing closing)) (b';' ∷ []) (lexer_on commented_text)
      (refl, (tt, tt)) refl

-- A blank, a comment, a character of no token and a word
abbrev word_text : List ℕ
word_text = 32 ∷ b'/' ∷ b'*' ∷ b'*' ∷ b'/' ∷ b'$' ∷ b'a' ∷ b'1' ∷ b';' ∷ []
