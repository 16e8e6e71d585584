-- ===== src/Lexer/Longest.antt =====
-- scan_token of src/lexer/module.c takes the longest operator that stands at the text.
use nibble.Prelude.{
  ℕ, suc, ◌≤◌, ◌<◌, ◌≡◌, ◌∙◌, refl, subst, List, [], ◌∷◌, length, take, Option, none, some, arith,
  ap, Bool, false, ◌&&◌, ◌||◌, ◌==◌, leb, inl,
}
use nibble.Lexer.Chars.{is_dec_digit}
use nibble.Lexer.Numbers.{FloatKind}
use nibble.Lexer.Spelling.{Spelled, spelled, operator-Spelled}
use nibble.Lexer.Tokens.{
  begins_blank, begins_word, of_operator, nothing, token_from, IdentifierKind, scan_case, scan_turn,
  scan_token,
}
use nibble.Lexer.State.{Lexer, peek, peek1, peek2, lexer_pos, advance_by}
use nibble.Lexer.Operators.{
  TokenKind, punctuation, operator, invalid, eof, lparen, rparen, lbrace, rbrace, lbracket,
  rbracket, semicolon, colon, dbl_colon, comma, dot, ellipsis, uninit, arrow, cast, bit_cast,
  at_sign, str, ident, kw, int, float, plus, minus, asterisk, div, mod_op, divmod, rshift, lshift,
  and_op, or_op, caret, logic_and, logic_or, not_op, neg, question, eq_op, noteq, gt, gteq, lt,
  lteq, assign, add_assign, sub_assign, mul_assign, div_assign, and_assign, or_assign, xor_assign,
  mod_assign, rshift_assign, lshift_assign,
}
use nibble.Lexer.Names.{token_kind_names, token_kind_names-some}

-- How many characters an operator takes
unfoldable pub size : Option (TokenKind × ℕ) → ℕ
size none = 0
size (some (k, n)) = n

-- If the name of a kind in token_kind_names is what stands at the text, then the cases of the operators read one that
-- takes at least as many characters.
operator_longest :
    (k : TokenKind) (c d e : ℕ)
    → take (length (token_kind_names k)) (c ∷ d ∷ e ∷ []) ≡ token_kind_names k
    → length (token_kind_names k) ≤ size (operator c d e)
unfolding operator punctuation token_kind_names size
operator_longest invalid c d e h = absurd (omega (arith, ap length h))
operator_longest eof c d e h = absurd (omega (arith, ap length h))
operator_longest lparen c d e h = ground (arith, ap peek h)
operator_longest rparen c d e h = ground (arith, ap peek h)
operator_longest lbrace c d e h = ground (arith, ap peek h)
operator_longest rbrace c d e h = ground (arith, ap peek h)
operator_longest lbracket c d e h = ground (arith, ap peek h)
operator_longest rbracket c d e h = ground (arith, ap peek h)
operator_longest semicolon c d e h = ground (arith, ap peek h)
operator_longest colon c d e h = ground (arith, ap peek h)
operator_longest dbl_colon c d e h = ground (arith, ap peek h, ap peek1 h)
operator_longest comma c d e h = ground (arith, ap peek h)
operator_longest dot c d e h = ground (arith, ap peek h)
operator_longest ellipsis c d e h = ground (arith, ap peek h, ap peek1 h)
operator_longest uninit c d e h = ground (arith, ap peek h, ap peek1 h, ap peek2 h)
operator_longest arrow c d e h = ground (arith, ap peek h, ap peek1 h)
operator_longest cast c d e h = ground (arith, ap peek h, ap peek1 h)
operator_longest bit_cast c d e h = ground (arith, ap peek h, ap peek1 h, ap peek2 h)
operator_longest at_sign c d e h = ground (arith, ap peek h)
operator_longest str c d e h = absurd (omega (arith, ap length h))
operator_longest ident c d e h = absurd (omega (arith, ap length h))
operator_longest kw c d e h = absurd (omega (arith, ap length h))
operator_longest int c d e h = absurd (omega (arith, ap length h))
operator_longest float c d e h = absurd (omega (arith, ap length h))
operator_longest plus c d e h = ground (arith, ap peek h)
operator_longest minus c d e h = ground (arith, ap peek h)
operator_longest asterisk c d e h = ground (arith, ap peek h)
operator_longest div c d e h = ground (arith, ap peek h)
operator_longest mod_op c d e h = ground (arith, ap peek h)
operator_longest divmod c d e h = ground (arith, ap peek h, ap peek1 h)
operator_longest rshift c d e h = ground (arith, ap peek h, ap peek1 h)
operator_longest lshift c d e h = ground (arith, ap peek h, ap peek1 h)
operator_longest and_op c d e h = ground (arith, ap peek h)
operator_longest or_op c d e h = ground (arith, ap peek h)
operator_longest caret c d e h = ground (arith, ap peek h)
operator_longest logic_and c d e h = ground (arith, ap peek h, ap peek1 h)
operator_longest logic_or c d e h = ground (arith, ap peek h, ap peek1 h)
operator_longest not_op c d e h = ground (arith, ap peek h)
operator_longest neg c d e h = ground (arith, ap peek h)
operator_longest question c d e h = ground (arith, ap peek h)
operator_longest eq_op c d e h = ground (arith, ap peek h, ap peek1 h)
operator_longest noteq c d e h = ground (arith, ap peek h, ap peek1 h)
operator_longest gt c d e h = ground (arith, ap peek h)
operator_longest gteq c d e h = ground (arith, ap peek h, ap peek1 h)
operator_longest lt c d e h = ground (arith, ap peek h)
operator_longest lteq c d e h = ground (arith, ap peek h, ap peek1 h)
operator_longest assign c d e h = ground (arith, ap peek h)
operator_longest add_assign c d e h = ground (arith, ap peek h, ap peek1 h)
operator_longest sub_assign c d e h = ground (arith, ap peek h, ap peek1 h)
operator_longest mul_assign c d e h = ground (arith, ap peek h, ap peek1 h)
operator_longest div_assign c d e h = ground (arith, ap peek h, ap peek1 h)
operator_longest and_assign c d e h = ground (arith, ap peek h, ap peek1 h)
operator_longest or_assign c d e h = ground (arith, ap peek h, ap peek1 h)
operator_longest xor_assign c d e h = ground (arith, ap peek h, ap peek1 h)
operator_longest mod_assign c d e h = ground (arith, ap peek h, ap peek1 h)
operator_longest rshift_assign c d e h = ground (arith, ap peek h, ap peek1 h, ap peek2 h)
operator_longest lshift_assign c d e h = ground (arith, ap peek h, ap peek1 h, ap peek2 h)

-- What scan_token passes over, or reads as the end, a literal or a word, from its first two characters
unfoldable pub begins_other : ℕ → ℕ → Bool
begins_other c d =
    begins_blank c
    || (c == b'/' && (d == b'/' || d == b'*'))
    || c == 0
    || (c == b'.' && is_dec_digit d)
    || (leb b'0' c && leb c b'9')
    || c == 39
    || c == b'"'
    || begins_word c

operator-cases :
    (o : Option (TokenKind × ℕ)) → 0 < size o → (kind : TokenKind) × (n : ℕ) × (o ≡ some (kind, n))
unfolding size
operator-cases none h = absurd (omega (arith, h))
operator-cases (some (kind, n)) h = (kind, n, refl)

name_of :
    {text : List ℕ} {kind : TokenKind} {n : ℕ}
    → Spelled text (some (kind, n))
    → token_kind_names kind ≡ take n text
name_of (spelled e) = e

module _ (kind_of : List ℕ → IdentifierKind) (huge : FloatKind → List ℕ → Bool) where
  scan_turn-operator :
      (fuel : ℕ) (lx : Lexer)
      → begins_other (peek lx.at) (peek1 lx.at) ≡ false
      → scan_turn kind_of huge fuel lx
        ≡ inl (of_operator (operator (peek lx.at) (peek1 lx.at) (peek2 lx.at)) (lexer_pos lx) lx)
  unfolding scan_turn scan_case begins_other
  scan_turn-operator fuel lx h =
      let c = peek lx.at in
      let d = peek1 lx.at in
      let blank : begins_blank c ≡ false = ground (arith, h) in
      let line : (c == b'/' && d == b'/') ≡ false = ground (arith, h) in
      let comment : (c == b'/' && d == b'*') ≡ false = ground (arith, h) in
      let end : (c == 0) ≡ false = ground (arith, h) in
      let point : (c == b'.' && is_dec_digit d) ≡ false = ground (arith, h) in
      let digit : (leb b'0' c && leb c b'9') ≡ false = ground (arith, h) in
      let char : (c == 39) ≡ false = ground (arith, h) in
      let quote : (c == b'"') ≡ false = ground (arith, h) in
      let word : begins_word c ≡ false = ground (arith, h) in
      rw (blank, line, comment, end, point, digit, char, quote, word) refl

  -- Where no blank, comment, literal or word begins and the text has not ended, if the name that token_kind_names gives
  -- a kind is what stands at the text, then scan_token gives the token that begins there and takes some `n` characters:
  -- these spell the name of the token's own kind, and are at least as many as those of the first name.
  pub scan_token-longest :
      (k : TokenKind) (fuel : ℕ) (lx : Lexer)
      → begins_other (peek lx.at) (peek1 lx.at) ≡ false
      → take (length (token_kind_names k)) (peek lx.at ∷ peek1 lx.at ∷ peek2 lx.at ∷ [])
        ≡ token_kind_names k
      → (kind : TokenKind) × (n : ℕ) × (token_kind_names kind
          ≡ take n (peek lx.at ∷ peek1 lx.at ∷ peek2 lx.at ∷ []))
        × (length (token_kind_names k) ≤ n)
        × (scan_token kind_of huge (suc fuel) lx
            ≡ some (token_from (lexer_pos lx) kind nothing (advance_by n lx)))
  unfolding scan_token size
  scan_token-longest k fuel lx other stands =
      let read = operator (peek lx.at) (peek1 lx.at) (peek2 lx.at) in
      let longest = operator_longest k (peek lx.at) (peek1 lx.at) (peek2 lx.at) stands in
      let more : 0 < size read = omega (arith, longest, token_kind_names-some k) in
      let (kind, n, is) = operator-cases read more in
      let turn =
        scan_turn-operator (suc fuel) lx other
        ∙ ap (λ o. inl (of_operator o (lexer_pos lx) lx)) is in
      (
        kind,
        n,
        name_of (
            subst (Spelled (peek lx.at ∷ peek1 lx.at ∷ peek2 lx.at ∷ [])) is
              (operator-Spelled (peek lx.at) (peek1 lx.at) (peek2 lx.at))),
        subst (λ o. length (token_kind_names k) ≤ size o) is longest,
        rw (turn, scan_token) refl,
      )
