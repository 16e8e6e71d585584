-- ===== src/Lexer/Literals.antt =====
-- String and character literals: scan_hex_escape, scan_string and scan_char of src/lexer/module.c.
use nibble.Prelude.{
  ℕ, zero, suc, ◌+◌, ◌-◌, ◌*◌, Bool, true, false, not, ◌&&◌, ◌||◌, List, [], ◌∷◌, Option, none,
  some, ltb, leb, ◌==◌, if◌then◌else◌,
}
use nibble.Lexer.Chars.{biased_digit, unescape_char}
use nibble.Lexer.State.{
  Lexer, bad_hex_digit, hex_digit_too_large, bad_escape, string_spans_lines, string_at_eof,
  empty_char, newline_in_char, unclosed_char, peek, advance, on_error, on_line, range_from,
  skip_char, skip_word_end,
}
use nibble.Lexer.Numbers.{TokenInt, token_int, char_rep, no_suffix}

-- scan_hex_escape: the value, or none for -1
unfoldable pub scan_hex_escape : Lexer → Option ℕ × Lexer
unfolding advance on_error
scan_hex_escape lx =
    let b1 = biased_digit (peek lx.at) in
    let second = advance lx in
    let b2 = biased_digit (peek second.at) in
    if b1 == 0 || leb 16 (b1 - 1)
    then (none, on_error bad_hex_digit (range_from lx.offset lx) lx)
    else if b2 == 0
    then (some (b1 - 1), second)
    else if leb 16 (b2 - 1)
    then (none, on_error hex_digit_too_large (range_from lx.offset second) second)
    else (some ((b1 - 1) * 16 + (b2 - 1)), advance second)

-- What a hexadecimal escape in a string stands for: `?` where it is refused.
unfoldable pub string_hex : Option ℕ → Lexer → ℕ × Lexer
string_hex none lx = (b'?', skip_word_end lx)
string_hex (some v) lx = (v, lx)

-- An escape behind its backslash, in a literal that begins at `from`
unfoldable pub string_escape : ℕ → Lexer → ℕ × Lexer
unfolding scan_hex_escape string_hex advance on_error
string_escape from lx =
    let c = peek lx.at in
    let (value, end) = scan_hex_escape (advance lx) in
    let v = unescape_char c in
    if c == b'x' || c == b'X'
    then string_hex value end
    else if v == 0 && not (c == b'0')
    then (v, advance (on_error bad_escape (range_from from lx) lx))
    else (v, advance lx)

-- One turn of the loop of scan_string: the byte that it pushes
unfoldable pub string_char : ℕ → Lexer → ℕ × Lexer
unfolding string_escape advance
string_char from lx =
    if peek lx.at == 92 then string_escape from (advance lx) else (peek lx.at, advance lx)

-- The condition of the loop
abbrev pub in_string : ℕ → Bool
in_string c = not (c == 0) && (not (c == b'"') && not (c == 10))

-- `array_push`, in front of what the rest of the loop pushes
abbrev pub push : ℕ → Option (List ℕ × Lexer) → Option (List ℕ × Lexer)
push c none = none
push c (some (cs, end)) = some (c ∷ cs, end)

-- The loop of scan_string, on fuel
unfoldable pub string_loop : ℕ → ℕ → Lexer → Option (List ℕ × Lexer)
unfolding string_char
string_loop zero from lx = none
string_loop (suc fuel) from lx = elim (in_string (peek lx.at)) [
  | false ↦ some ([], lx)
  | true ↦ push (string_char from lx).0 (string_loop fuel from (string_char from lx).1)
]

-- The end of scan_string
unfoldable pub string_end : ℕ → Lexer → Lexer
unfolding advance on_error on_line skip_char
string_end from lx =
    if peek lx.at == b'"'
    then advance lx
    else if peek lx.at == 10
    then skip_char b'"' (advance (on_line (on_error string_spans_lines (range_from from lx) lx)))
    else on_error string_at_eof (range_from from lx) lx

unfoldable pub ended : ℕ → Option (List ℕ × Lexer) → Option (List ℕ × Lexer)
unfolding string_end
ended from none = none
ended from (some (cs, end)) = some (cs, string_end from end)

-- scan_string: the bytes of the literal, which the code interns
unfoldable pub scan_string : ℕ → Lexer → Option (List ℕ × Lexer)
unfolding string_loop ended advance
scan_string fuel lx = ended lx.offset (string_loop fuel lx.offset (advance lx))

-- A char as an int, converted to u64: chars are signed.
abbrev pub sign_extend : ℕ → ℕ
sign_extend c = if ltb c 128 then c else c + 0xFFFFFFFFFFFFFF00

abbrev pub value_or_zero : Option ℕ → ℕ
value_or_zero none = 0
value_or_zero (some v) = v

-- An escape in a character literal, behind its backslash
unfoldable pub char_escape : ℕ → Lexer → ℕ × Lexer
unfolding scan_hex_escape advance on_error
char_escape from lx =
    let c = peek lx.at in
    let (value, end) = scan_hex_escape (advance lx) in
    let v = unescape_char c in
    if c == b'x' || c == b'X'
    then (value_or_zero value, end)
    else if v == 0 && not (c == b'0')
    then (v, advance (on_error bad_escape (range_from from lx) lx))
    else (v, advance lx)

-- The end of scan_char
unfoldable pub char_end : ℕ → Lexer → Lexer
unfolding advance on_error skip_char skip_word_end
char_end from lx =
    if peek lx.at == 39
    then advance lx
    else skip_char 39 (skip_word_end (on_error unclosed_char (range_from from lx) lx))

abbrev pub char_token : ℕ → TokenInt
char_token value = token_int value char_rep no_suffix

-- scan_char
unfoldable pub scan_char : Lexer → TokenInt × Lexer
unfolding char_escape char_end advance on_error on_line skip_char
scan_char lx =
    let first = advance lx in
    let c = peek first.at in
    let (value, end) = char_escape lx.offset (advance first) in
    let range = range_from lx.offset first in
    if c == 39
    then (char_token 0, advance (on_error empty_char range first))
    else if c == 10
    then (char_token 0, skip_char 39 (advance (on_line (on_error newline_in_char range first))))
    else if c == 92
    then (char_token value, char_end lx.offset end)
    else (char_token (sign_extend c), char_end lx.offset (advance first))
