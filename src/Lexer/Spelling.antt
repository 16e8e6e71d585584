-- ===== src/Lexer/Spelling.antt =====
-- The operators that scan_token of src/lexer/module.c reads are spelled as token_kind_names says.
use nibble.Prelude.{
  ℕ, ◌≡◌, refl, Bool, true, false, List, [], ◌∷◌, take, Option, none, some, ◌==◌, if◌then◌else◌,
  ==_iff, ◌∙◌,
}
use nibble.Lexer.Operators.{
  TokenKind, div, div_assign, divmod, colon, cast, bit_cast, dbl_colon, plus, add_assign, minus,
  sub_assign, uninit, asterisk, mul_assign, mod_op, mod_assign, not_op, noteq, gt, gteq, rshift,
  rshift_assign, lt, lteq, lshift, lshift_assign, and_op, logic_and, and_assign, or_op, logic_or,
  or_assign, caret, xor_assign, assign, eq_op, arrow, dot, ellipsis, lparen, rparen, lbracket,
  rbracket, lbrace, rbrace, semicolon, comma, at_sign, neg, question, or_assigned, or_either, shift,
  after_colon, after_minus, punctuation, operator,
}
use nibble.Lexer.Names.{token_kind_names}

-- What is read off a text is spelled by the characters that it takes.
pub data Spelled (text : List ℕ) : Option (TokenKind × ℕ) → Type 0 where
  no_operator : Spelled text none
  spelled : {k : TokenKind} {n : ℕ} → token_kind_names k ≡ take n text → Spelled text (some (k, n))

Spelled-if :
    {text : List ℕ} {s t : Option (TokenKind × ℕ)} (b : Bool)
    → (b ≡ true → Spelled text s)
    → (b ≡ false → Spelled text t)
    → Spelled text (if b then s else t)
Spelled-if true hs ht = hs refl
Spelled-if false hs ht = ht refl

one_char :
    {k : TokenKind} {x c d e : ℕ}
    → token_kind_names k ≡ x ∷ []
    → (c == x) ≡ true
    → Spelled (c ∷ d ∷ e ∷ []) (some (k, 1))
one_char {k} {x} {c} name h = spelled (name ∙ rw ((==_iff c x).0 h) refl)

two_chars :
    {k : TokenKind} {x y c d e : ℕ}
    → token_kind_names k ≡ x ∷ y ∷ []
    → (c == x) ≡ true
    → (d == y) ≡ true
    → Spelled (c ∷ d ∷ e ∷ []) (some (k, 2))
two_chars {k} {x} {y} {c} {d} name h i =
    spelled (name ∙ rw ((==_iff c x).0 h, (==_iff d y).0 i) refl)

three_chars :
    {k : TokenKind} {x y z c d e : ℕ}
    → token_kind_names k ≡ x ∷ y ∷ z ∷ []
    → (c == x) ≡ true
    → (d == y) ≡ true
    → (e == z) ≡ true
    → Spelled (c ∷ d ∷ e ∷ []) (some (k, 3))
three_chars {k} {x} {y} {z} {c} {d} {e} name h i j =
    spelled (name ∙ rw ((==_iff c x).0 h, (==_iff d y).0 i, (==_iff e z).0 j) refl)

or_assigned-Spelled :
    (k with_eq : TokenKind) (x c d e : ℕ)
    → token_kind_names k ≡ x ∷ []
    → token_kind_names with_eq ≡ x ∷ b'=' ∷ []
    → (c == x) ≡ true
    → Spelled (c ∷ d ∷ e ∷ []) (or_assigned k with_eq d)
or_assigned-Spelled k with_eq x c d e name name_eq h =
    Spelled-if (d == b'=') (λ i. two_chars name_eq h i) (λ i. one_char name h)

or_either-Spelled :
    (k ky kz : TokenKind) (x y z c d e : ℕ)
    → token_kind_names k ≡ x ∷ []
    → token_kind_names ky ≡ x ∷ y ∷ []
    → token_kind_names kz ≡ x ∷ z ∷ []
    → (c == x) ≡ true
    → Spelled (c ∷ d ∷ e ∷ []) (or_either k y ky z kz d)
or_either-Spelled k ky kz x y z c d e name name_y name_z h =
    Spelled-if (d == y) (λ i. two_chars name_y h i)
      (λ i. Spelled-if (d == z) (λ j. two_chars name_z h j) (λ j. one_char name h))

shift-Spelled :
    (k k_eq doubled doubled_eq : TokenKind) (x c d e : ℕ)
    → token_kind_names k ≡ x ∷ []
    → token_kind_names k_eq ≡ x ∷ b'=' ∷ []
    → token_kind_names doubled ≡ x ∷ x ∷ []
    → token_kind_names doubled_eq ≡ x ∷ x ∷ b'=' ∷ []
    → (c == x) ≡ true
    → Spelled (c ∷ d ∷ e ∷ []) (shift x k k_eq doubled doubled_eq d e)
shift-Spelled k k_eq doubled doubled_eq x c d e name name_eq name2 name2_eq h =
    Spelled-if (d == b'=') (λ i. two_chars name_eq h i)
      (λ i.
        Spelled-if (d == x)
          (λ j. Spelled-if (e == b'=') (λ l. three_chars name2_eq h j l) (λ l. two_chars name2 h j))
          (λ j. one_char name h))

after_colon-Spelled : (c d e : ℕ) → (c == b':') ≡ true → Spelled (c ∷ d ∷ e ∷ []) (after_colon d e)
unfolding token_kind_names
after_colon-Spelled c d e h =
    Spelled-if (d == b'>')
      (λ i.
        Spelled-if (e == b'>') (λ j. three_chars {k = bit_cast} refl h i j)
          (λ j. two_chars {k = cast} refl h i))
      (λ i.
        Spelled-if (d == b':') (λ j. two_chars {k = dbl_colon} refl h j)
          (λ j. one_char {k = colon} refl h))

after_minus-Spelled : (c d e : ℕ) → (c == b'-') ≡ true → Spelled (c ∷ d ∷ e ∷ []) (after_minus d e)
unfolding token_kind_names
after_minus-Spelled c d e h =
    Spelled-if (d == b'=') (λ i. two_chars {k = sub_assign} refl h i)
      (λ i.
        Spelled-if (d == b'-')
          (λ j.
            Spelled-if (e == b'-') (λ l. three_chars {k = uninit} refl h j l)
              (λ l. one_char {k = minus} refl h))
          (λ j. one_char {k = minus} refl h))

punctuation-Spelled : (c d e : ℕ) → Spelled (c ∷ d ∷ e ∷ []) (punctuation c)
unfolding punctuation token_kind_names
punctuation-Spelled c d e =
    Spelled-if (c == b'(') (λ h. one_char {k = lparen} refl h)
      (λ h.
        Spelled-if (c == b')') (λ h. one_char {k = rparen} refl h)
          (λ h.
            Spelled-if (c == b'[') (λ h. one_char {k = lbracket} refl h)
              (λ h.
                Spelled-if (c == b']') (λ h. one_char {k = rbracket} refl h)
                  (λ h.
                    Spelled-if (c == b'{') (λ h. one_char {k = lbrace} refl h)
                      (λ h.
                        Spelled-if (c == b'}') (λ h. one_char {k = rbrace} refl h)
                          (λ h.
                            Spelled-if (c == b';') (λ h. one_char {k = semicolon} refl h)
                              (λ h.
                                Spelled-if (c == b',') (λ h. one_char {k = comma} refl h)
                                  (λ h.
                                    Spelled-if (c == b'@') (λ h. one_char {k = at_sign} refl h)
                                      (λ h.
                                        Spelled-if (c == b'~') (λ h. one_char {k = neg} refl h)
                                          (λ h.
                                            Spelled-if (c == b'?')
                                              (λ h. one_char {k = question} refl h)
                                              (λ h. no_operator)))))))))))

-- An operator that is read is spelled, by the characters that it takes, as token_kind_names spells its
-- kind.
pub operator-Spelled : (c d e : ℕ) → Spelled (c ∷ d ∷ e ∷ []) (operator c d e)
unfolding operator token_kind_names
operator-Spelled c d e =
    Spelled-if (c == b'/')
      (λ h. or_either-Spelled div div_assign divmod b'/' b'=' b'%' c d e refl refl refl h)
      (λ h.
        Spelled-if (c == b':') (λ h. after_colon-Spelled c d e h)
          (λ h.
            Spelled-if (c == b'+') (λ h. or_assigned-Spelled plus add_assign b'+' c d e refl refl h)
              (λ h.
                Spelled-if (c == b'-') (λ h. after_minus-Spelled c d e h)
                  (λ h.
                    Spelled-if (c == b'*')
                      (λ h. or_assigned-Spelled asterisk mul_assign b'*' c d e refl refl h)
                      (λ h.
                        Spelled-if (c == b'%')
                          (λ h. or_assigned-Spelled mod_op mod_assign b'%' c d e refl refl h)
                          (λ h.
                            Spelled-if (c == b'!')
                              (λ h. or_assigned-Spelled not_op noteq b'!' c d e refl refl h)
                              (λ h.
                                Spelled-if (c == b'>')
                                  (λ h.
                                    shift-Spelled gt gteq rshift rshift_assign b'>' c d e refl refl
                                      refl refl h)
                                  (λ h.
                                    Spelled-if (c == b'<')
                                      (λ h.
                                        shift-Spelled lt lteq lshift lshift_assign b'<' c d e refl
                                          refl refl refl h)
                                      (λ h.
                                        Spelled-if (c == b'&')
                                          (λ h.
                                            or_either-Spelled and_op logic_and and_assign b'&' b'&'
                                              b'=' c d e refl refl refl h)
                                          (λ h.
                                            Spelled-if (c == b'|')
                                              (λ h.
                                                or_either-Spelled or_op logic_or or_assign b'|' b'|'
                                                  b'=' c d e refl refl refl h)
                                              (λ h.
                                                Spelled-if (c == b'^')
                                                  (λ h.
                                                    or_assigned-Spelled caret xor_assign b'^' c d e
                                                      refl refl h)
                                                  (λ h.
                                                    Spelled-if (c == b'=')
                                                      (λ h.
                                                        or_either-Spelled assign eq_op arrow b'='
                                                          b'=' b'>' c d e refl refl refl h)
                                                      (λ h.
                                                        Spelled-if (c == b'.')
                                                          (λ h.
                                                            Spelled-if (d == b'.')
                                                            (λ i. two_chars {k = ellipsis} refl h i)
                                                            (λ i. one_char {k = dot} refl h))
                                                          (λ h.
                                                            punctuation-Spelled c d e))))))))))))))
