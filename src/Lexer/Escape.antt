-- ===== src/Lexer/Escape.antt =====
-- Escaping: cstr_escape of src/cstring.c, which prints the bytes of a string literal.
use nibble.Prelude.{
  ℕ, ◌+◌, ◌-◌, ◌/◌, ◌%◌, ◌||◌, List, [], ◌∷◌, ◌++◌, ltb, ◌==◌, if◌then◌else◌, replicate,
}
use nibble.Lexer.Chars.{is_cntrl}

-- The character that cstr_escape puts behind a backslash for a byte that has a case of its own; 0
-- for the default case
unfoldable pub escape_letter : ℕ → ℕ
escape_letter c =
    if c == 0
    then b'0'
    else if c == 7
    then b'a'
    else if c == 8
    then b'b'
    else if c == 12
    then b'f'
    else if c == 10
    then b'n'
    else if c == 13
    then b'r'
    else if c == 9
    then b't'
    else if c == 11
    then b'v'
    else if c == 92
    then 92
    else if c == 39
    then 39
    else if c == 34
    then 34
    else if c == 63
    then 63
    else 0

abbrev pub hex_digit : ℕ → ℕ
hex_digit d = if ltb d 10 then d + b'0' else d - 10 + b'a'

-- `%.2x` of a char, which is signed: from 0x80 on, an int with its sign has eight digits.
unfoldable pub print_hex : ℕ → List ℕ
print_hex c =
    (if ltb c 128 then [] else replicate 6 b'f') ++ (hex_digit (c / 16) ∷ hex_digit (c % 16) ∷ [])

-- One turn of the loop of cstr_escape
unfoldable pub escape_char : ℕ → ℕ → List ℕ
unfolding escape_letter print_hex
escape_char extra c =
    if escape_letter c == 0
    then if is_cntrl c || c == extra then 92 ∷ b'x' ∷ print_hex c else c ∷ []
    else 92 ∷ escape_letter c ∷ []

-- cstr_escape, less the zero at the end
unfoldable pub cstr_escape : ℕ → List ℕ → List ℕ
unfolding escape_char
cstr_escape extra [] = []
cstr_escape extra (c ∷ cs) = escape_char extra c ++ cstr_escape extra cs
