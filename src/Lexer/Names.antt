-- ===== src/Lexer/Names.antt =====
-- The names of the tokens, token_kind_names of src/lexer/module.c.
use nibble.Prelude.{ℕ, ◌<◌, List, [], ◌∷◌, length, arith}
use nibble.Lexer.Operators.{
  TokenKind, invalid, eof, lparen, rparen, lbrace, rbrace, lbracket, rbracket, semicolon, colon,
  dbl_colon, comma, dot, ellipsis, uninit, arrow, cast, bit_cast, at_sign, str, ident, kw, int,
  float, asterisk, div, mod_op, divmod, rshift, lshift, and_op, logic_and, logic_or, not_op, neg,
  question, eq_op, noteq, gt, gteq, lt, lteq, plus, minus, or_op, caret, assign, add_assign,
  sub_assign, mul_assign, div_assign, mod_assign, and_assign, or_assign, xor_assign, rshift_assign,
  lshift_assign,
}

-- token_kind_names
unfoldable pub token_kind_names : TokenKind → List ℕ
token_kind_names invalid = b'<' ∷ b'i' ∷ b'n' ∷ b'v' ∷ b'a' ∷ b'l' ∷ b'i' ∷ b'd' ∷ b'>' ∷ []
token_kind_names eof = b'<' ∷ b'e' ∷ b'o' ∷ b'f' ∷ b'>' ∷ []
token_kind_names lparen = b'(' ∷ []
token_kind_names rparen = b')' ∷ []
token_kind_names lbrace = b'{' ∷ []
token_kind_names rbrace = b'}' ∷ []
token_kind_names lbracket = b'[' ∷ []
token_kind_names rbracket = b']' ∷ []
token_kind_names semicolon = b';' ∷ []
token_kind_names colon = b':' ∷ []
token_kind_names dbl_colon = b':' ∷ b':' ∷ []
token_kind_names comma = b',' ∷ []
token_kind_names dot = b'.' ∷ []
token_kind_names ellipsis = b'.' ∷ b'.' ∷ []
token_kind_names uninit = b'-' ∷ b'-' ∷ b'-' ∷ []
token_kind_names arrow = b'=' ∷ b'>' ∷ []
token_kind_names cast = b':' ∷ b'>' ∷ []
token_kind_names bit_cast = b':' ∷ b'>' ∷ b'>' ∷ []
token_kind_names at_sign = b'@' ∷ []
token_kind_names str =
    b's' ∷ b't' ∷ b'r' ∷ b'i' ∷ b'n' ∷ b'g' ∷ 32 ∷ b'l' ∷ b'i' ∷ b't' ∷ b'e' ∷ b'r' ∷ b'a' ∷ b'l'
    ∷ []
token_kind_names ident = b'i' ∷ b'd' ∷ b'e' ∷ b'n' ∷ b't' ∷ b'i' ∷ b'f' ∷ b'i' ∷ b'e' ∷ b'r' ∷ []
token_kind_names kw = b'k' ∷ b'e' ∷ b'y' ∷ b'w' ∷ b'o' ∷ b'r' ∷ b'd' ∷ []
token_kind_names int =
    b'i' ∷ b'n' ∷ b't' ∷ b'e' ∷ b'g' ∷ b'e' ∷ b'r' ∷ 32 ∷ b'l' ∷ b'i' ∷ b't' ∷ b'e' ∷ b'r' ∷ b'a'
    ∷ b'l' ∷ []
token_kind_names float =
    b'f' ∷ b'l' ∷ b'o' ∷ b'a' ∷ b't' ∷ b'i' ∷ b'n' ∷ b'g' ∷ b'-' ∷ b'p' ∷ b'o' ∷ b'i' ∷ b'n' ∷ b't'
    ∷ 32 ∷ b'l' ∷ b'i' ∷ b't' ∷ b'e' ∷ b'r' ∷ b'a' ∷ b'l' ∷ []
token_kind_names plus = b'+' ∷ []
token_kind_names minus = b'-' ∷ []
token_kind_names asterisk = b'*' ∷ []
token_kind_names div = b'/' ∷ []
token_kind_names mod_op = b'%' ∷ []
token_kind_names divmod = b'/' ∷ b'%' ∷ []
token_kind_names rshift = b'>' ∷ b'>' ∷ []
token_kind_names lshift = b'<' ∷ b'<' ∷ []
token_kind_names and_op = b'&' ∷ []
token_kind_names or_op = b'|' ∷ []
token_kind_names caret = b'^' ∷ []
token_kind_names logic_and = b'&' ∷ b'&' ∷ []
token_kind_names logic_or = b'|' ∷ b'|' ∷ []
token_kind_names not_op = b'!' ∷ []
token_kind_names neg = b'~' ∷ []
token_kind_names question = b'?' ∷ []
token_kind_names eq_op = b'=' ∷ b'=' ∷ []
token_kind_names noteq = b'!' ∷ b'=' ∷ []
token_kind_names gt = b'>' ∷ []
token_kind_names gteq = b'>' ∷ b'=' ∷ []
token_kind_names lt = b'<' ∷ []
token_kind_names lteq = b'<' ∷ b'=' ∷ []
token_kind_names assign = b'=' ∷ []
token_kind_names add_assign = b'+' ∷ b'=' ∷ []
token_kind_names sub_assign = b'-' ∷ b'=' ∷ []
token_kind_names mul_assign = b'*' ∷ b'=' ∷ []
token_kind_names div_assign = b'/' ∷ b'=' ∷ []
token_kind_names and_assign = b'&' ∷ b'=' ∷ []
token_kind_names or_assign = b'|' ∷ b'=' ∷ []
token_kind_names xor_assign = b'^' ∷ b'=' ∷ []
token_kind_names mod_assign = b'%' ∷ b'=' ∷ []
token_kind_names rshift_assign = b'>' ∷ b'>' ∷ b'=' ∷ []
token_kind_names lshift_assign = b'<' ∷ b'<' ∷ b'=' ∷ []

-- Every kind has a name.
pub token_kind_names-some : (k : TokenKind) → 0 < length (token_kind_names k)
unfolding token_kind_names
token_kind_names-some invalid = omega arith
token_kind_names-some eof = omega arith
token_kind_names-some lparen = omega arith
token_kind_names-some rparen = omega arith
token_kind_names-some lbrace = omega arith
token_kind_names-some rbrace = omega arith
token_kind_names-some lbracket = omega arith
token_kind_names-some rbracket = omega arith
token_kind_names-some semicolon = omega arith
token_kind_names-some colon = omega arith
token_kind_names-some dbl_colon = omega arith
token_kind_names-some comma = omega arith
token_kind_names-some dot = omega arith
token_kind_names-some ellipsis = omega arith
token_kind_names-some uninit = omega arith
token_kind_names-some arrow = omega arith
token_kind_names-some cast = omega arith
token_kind_names-some bit_cast = omega arith
token_kind_names-some at_sign = omega arith
token_kind_names-some str = omega arith
token_kind_names-some ident = omega arith
token_kind_names-some kw = omega arith
token_kind_names-some int = omega arith
token_kind_names-some float = omega arith
token_kind_names-some plus = omega arith
token_kind_names-some minus = omega arith
token_kind_names-some asterisk = omega arith
token_kind_names-some div = omega arith
token_kind_names-some mod_op = omega arith
token_kind_names-some divmod = omega arith
token_kind_names-some rshift = omega arith
token_kind_names-some lshift = omega arith
token_kind_names-some and_op = omega arith
token_kind_names-some or_op = omega arith
token_kind_names-some caret = omega arith
token_kind_names-some logic_and = omega arith
token_kind_names-some logic_or = omega arith
token_kind_names-some not_op = omega arith
token_kind_names-some neg = omega arith
token_kind_names-some question = omega arith
token_kind_names-some eq_op = omega arith
token_kind_names-some noteq = omega arith
token_kind_names-some gt = omega arith
token_kind_names-some gteq = omega arith
token_kind_names-some lt = omega arith
token_kind_names-some lteq = omega arith
token_kind_names-some assign = omega arith
token_kind_names-some add_assign = omega arith
token_kind_names-some sub_assign = omega arith
token_kind_names-some mul_assign = omega arith
token_kind_names-some div_assign = omega arith
token_kind_names-some and_assign = omega arith
token_kind_names-some or_assign = omega arith
token_kind_names-some xor_assign = omega arith
token_kind_names-some mod_assign = omega arith
token_kind_names-some rshift_assign = omega arith
token_kind_names-some lshift_assign = omega arith
