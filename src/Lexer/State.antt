-- ===== src/Lexer/State.antt =====
-- The lexer's state and its small steps, from src/lexer/module.h and the top of src/lexer/module.c.
--
-- The source text is a C string. `at` holds its bytes from lexer->at up to the terminating zero,
-- which is read as 0 at the end of the list. Moving on from the end leaves the string: the flag
-- `overrun` records it, since what follows there is not defined.
use nibble.Prelude.{
  ℕ, zero, suc, ◌+◌, ◌%◌, ◌^◌, Bool, true, false, not, ◌&&◌, List, [], ◌∷◌, ◌++◌, ◌==◌,
  if◌then◌else◌,
}
use nibble.Lexer.Chars.{is_alphanum}

-- The messages of lexer_on_error, in the order of the file
pub data ErrorKind : Type 0 where
  unclosed_comment bad_base_char digit_outside_base int_too_large bad_suffix_char : ErrorKind
  bad_exponent f32_too_large f64_too_large bad_hex_digit hex_digit_too_large bad_escape : ErrorKind
  string_spans_lines string_at_eof empty_char newline_in_char unclosed_char : ErrorKind
  only_intrinsics unexpected_char : ErrorKind

-- ProgRange
pub record ProgRange : Type 0 where
  pub start : ℕ
  pub end : ℕ

pub record LexerError : Type 0 where
  pub kind : ErrorKind
  pub range : ProgRange

-- Lexer, with the offset of `at` in the text. Errors and lines are appended.
pub record Lexer : Type 0 where
  pub at : List ℕ
  pub offset : ℕ
  pub start : ℕ
  pub errors : List LexerError
  pub line_pos : List ℕ
  pub overrun : Bool

-- lexer->at[0] and lexer->at[1]
abbrev pub peek : List ℕ → ℕ
peek [] = 0
peek (c ∷ cs) = c

abbrev pub peek1 : List ℕ → ℕ
peek1 [] = 0
peek1 (c ∷ cs) = peek cs

abbrev pub peek2 : List ℕ → ℕ
peek2 [] = 0
peek2 (c ∷ cs) = peek1 cs

-- `lexer->at++`
abbrev pub rest_of : List ℕ → List ℕ
rest_of [] = []
rest_of (c ∷ cs) = cs

abbrev pub is_end : List ℕ → Bool
is_end [] = true
is_end (c ∷ cs) = false

unfoldable pub advance : Lexer → Lexer
advance lx = record lx {
  at = rest_of lx.at;
  offset = lx.offset + 1;
  overrun = if is_end lx.at then true else lx.overrun;
}

-- `lexer->at += n`
unfoldable pub advance_by : ℕ → Lexer → Lexer
advance_by zero lx = lx
advance_by (suc n) lx = advance_by n (advance lx)

-- lexer_calc_pos, of a u32
abbrev pub calc_pos : Lexer → ℕ → ℕ
calc_pos lx offset = (offset % 2 ^ 32 + lx.start) % 2 ^ 32

-- LEXER_POS
abbrev pub lexer_pos : Lexer → ℕ
lexer_pos lx = calc_pos lx lx.offset

-- lexer_on_error, where an error stream is given
unfoldable pub on_error : ErrorKind → ProgRange → Lexer → Lexer
on_error kind range lx = record lx {
  errors = lx.errors ++ (record { kind = kind; range = range } ∷ []);
}

-- The range from `from` to the character at which the lexer stands.
abbrev pub range_from : ℕ → Lexer → ProgRange
range_from from lx = record { start = calc_pos lx from; end = (lexer_pos lx + 1) % 2 ^ 32 }

-- lexer_on_line, where an array of lines is given
unfoldable pub on_line : Lexer → Lexer
on_line lx = record lx { line_pos = lx.line_pos ++ ((lexer_pos lx + 1) % 2 ^ 32 ∷ []) }

-- How many characters a loop `while (test(at[0])) at++` passes.
unfoldable pub count_while : (ℕ → Bool) → List ℕ → ℕ
count_while test [] = 0
count_while test (c ∷ cs) = if test c then suc (count_while test cs) else 0

unfoldable pub skip_while : (ℕ → Bool) → Lexer → Lexer
skip_while test lx = advance_by (count_while test lx.at) lx

-- skip_word_end
unfoldable pub skip_word_end : Lexer → Lexer
skip_word_end = skip_while (λ c. not (c == 0) && is_alphanum c)

-- skip_char
unfoldable pub skip_char : ℕ → Lexer → Lexer
skip_char c lx = if peek lx.at == c then advance lx else lx
