-- ===== src/Lexer/Operators.antt =====
-- Operators and punctuation: TokenKind of src/lexer/module.h, and the cases of scan_token in
-- src/lexer/module.c that read no literal, word, comment or blank.
use nibble.Prelude.{ℕ, ◌==◌, Option, none, some, if◌then◌else◌}

-- TokenKind
pub data TokenKind : Type 0 where
  invalid eof lparen rparen lbrace rbrace lbracket rbracket semicolon colon dbl_colon : TokenKind
  comma dot ellipsis uninit arrow cast bit_cast at_sign str ident kw int float : TokenKind
  asterisk div mod_op divmod rshift lshift and_op logic_and logic_or not_op neg question : TokenKind
  eq_op noteq gt gteq lt lteq plus minus or_op caret : TokenKind
  assign add_assign sub_assign mul_assign div_assign mod_assign and_assign or_assign : TokenKind
  xor_assign rshift_assign lshift_assign : TokenKind

-- The token of one character and how many characters it takes.
abbrev pub one : TokenKind → Option (TokenKind × ℕ)
one k = some (k, 1)

abbrev pub two : TokenKind → Option (TokenKind × ℕ)
two k = some (k, 2)

-- `c` may be followed by `=`.
abbrev pub or_assigned : TokenKind → TokenKind → ℕ → Option (TokenKind × ℕ)
or_assigned k assigned d = if d == b'=' then two assigned else one k

-- `c` may be followed by `x`, or by `y`.
abbrev pub or_either : TokenKind → ℕ → TokenKind → ℕ → TokenKind → ℕ → Option (TokenKind × ℕ)
or_either k x kx y ky d = if d == x then two kx else if d == y then two ky else one k

-- `c` may be followed by itself, and that by `=`.
abbrev pub shift :
    ℕ → TokenKind → TokenKind → TokenKind → TokenKind → ℕ → ℕ → Option (TokenKind × ℕ)
shift c k k_eq doubled doubled_eq d e =
    if d == b'='
    then two k_eq
    else if d == c
    then if e == b'=' then some (doubled_eq, 3) else two doubled
    else one k

abbrev pub after_colon : ℕ → ℕ → Option (TokenKind × ℕ)
after_colon d e =
    if d == b'>'
    then if e == b'>' then some (bit_cast, 3) else two cast
    else if d == b':'
    then two dbl_colon
    else one colon

-- In the second case the code looks at one character more: `---` is one token, and `--` is two.
abbrev pub after_minus : ℕ → ℕ → Option (TokenKind × ℕ)
after_minus d e =
    if d == b'='
    then two sub_assign
    else if d == b'-'
    then if e == b'-' then some (uninit, 3) else one minus
    else one minus

-- The cases that read one character
unfoldable pub punctuation : ℕ → Option (TokenKind × ℕ)
punctuation c =
    if c == b'('
    then one lparen
    else if c == b')'
    then one rparen
    else if c == b'['
    then one lbracket
    else if c == b']'
    then one rbracket
    else if c == b'{'
    then one lbrace
    else if c == b'}'
    then one rbrace
    else if c == b';'
    then one semicolon
    else if c == b','
    then one comma
    else if c == b'@'
    then one at_sign
    else if c == b'~'
    then one neg
    else if c == b'?'
    then one question
    else none

-- The operators at the first three characters; `/` here begins no comment and `.` no number.
unfoldable pub operator : ℕ → ℕ → ℕ → Option (TokenKind × ℕ)
unfolding punctuation
operator c d e =
    if c == b'/'
    then or_either div b'=' div_assign b'%' divmod d
    else if c == b':'
    then after_colon d e
    else if c == b'+'
    then or_assigned plus add_assign d
    else if c == b'-'
    then after_minus d e
    else if c == b'*'
    then or_assigned asterisk mul_assign d
    else if c == b'%'
    then or_assigned mod_op mod_assign d
    else if c == b'!'
    then or_assigned not_op noteq d
    else if c == b'>'
    then shift b'>' gt gteq rshift rshift_assign d e
    else if c == b'<'
    then shift b'<' lt lteq lshift lshift_assign d e
    else if c == b'&'
    then or_either and_op b'&' logic_and b'=' and_assign d
    else if c == b'|'
    then or_either or_op b'|' logic_or b'=' or_assign d
    else if c == b'^'
    then or_assigned caret xor_assign d
    else if c == b'='
    then or_either assign b'=' eq_op b'>' arrow d
    else if c == b'.'
    then if d == b'.' then two ellipsis else one dot
    else punctuation c
