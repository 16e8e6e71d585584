-- ===== src/Lexer/Progress.antt =====
-- What a turn of scan_token of src/lexer/module.c passes over is never empty.
use nibble.Prelude.{
  ℕ, ◌<◌, ◌≡◌, refl, ap, Bool, true, false, ◌&&◌, ◌⊎◌, inl, inr, List, [], ◌∷◌, length, Option,
  none, some, leb, ◌==◌, if◌then◌else◌, arith,
}
use nibble.Lexer.Chars.{is_whitespace, is_dec_digit}
use nibble.Lexer.State.{Lexer, peek, peek1, peek2, lexer_pos, advance, on_error, on_line}
use nibble.Lexer.Literals.{scan_string}
use nibble.Lexer.Numbers.{FloatKind}
use nibble.Lexer.Tokens.{
  Token, IdentifierKind, skip_blanks, begins_blank, begins_word, in_line, Scanned, found,
  unexpected, of_operator, of_string, scan_case, scan_turn, skip_unexpected,
}
use nibble.Lexer.Operators.{TokenKind, operator}
use nibble.Lexer.Passes.{
  left, length-rest_of, advance-left, skip_while-passes, on_line-left, skip_blanks-left,
  skip_c_comment-passes, of_string_total, peek-more,
}

begins_blank-is_whitespace : (c : ℕ) → begins_blank c ≡ true → is_whitespace c ≡ true
unfolding is_whitespace
begins_blank-is_whitespace c h = elim (one_of c h) [
  | inl e ↦ rw e refl
  | inr (inl e) ↦ rw e refl
  | inr (inr (inl e)) ↦ rw e refl
  | inr (inr (inr (inl e))) ↦ rw e refl
  | inr (inr (inr (inr e))) ↦ rw e refl
]
  where
    one_of : (c : ℕ) → begins_blank c ≡ true → c ≡ 32 ⊎ c ≡ 9 ⊎ c ≡ 10 ⊎ c ≡ 13 ⊎ c ≡ 11
    one_of c h = ground arith

begins_blank-more : (cs : List ℕ) → begins_blank (peek cs) ≡ true → 0 < length cs
begins_blank-more [] h = cc
begins_blank-more (c ∷ cs) h = omega arith

slash-more : (cs : List ℕ) (b : Bool) → (peek cs == b'/' && b) ≡ true → 0 < length cs
slash-more [] b h = cc
slash-more (c ∷ cs) b h = omega arith

slash-in_line : (c : ℕ) (b : Bool) → (c == b'/' && b) ≡ true → in_line c ≡ true
slash-in_line c b h = ground arith

skip_blanks-passes :
    (text : List ℕ) (lx : Lexer)
    → begins_blank (peek text) ≡ true
    → 0 < left lx
    → left (skip_blanks text lx) < left lx
unfolding skip_blanks
skip_blanks-passes [] lx h more = cc
skip_blanks-passes (c ∷ cs) lx h more =
    let next = if c == 10 then on_line lx else lx in
    ground (
      arith,
      begins_blank-is_whitespace c h,
      skip_blanks-left cs (advance next),
      advance-left next,
      on_line-left lx,
    )

pub skip_unexpected-passes : (lx : Lexer) → 0 < left lx → left (skip_unexpected lx) < left lx
unfolding skip_unexpected on_error
skip_unexpected-passes lx h = omega (arith, length-rest_of lx.at)

-- What a turn may scan with `n` characters left: a token, or a character that begins none, if there
-- is one.
pub data Proper (n : ℕ) : Scanned → Type 0 where
  a_token : {t : Token × Lexer} → Proper n (found t)
  no_token : 0 < n → Proper n unexpected

Proper-cases :
    {n : ℕ} {s : Scanned}
    → Proper n s
    → ((t : Token × Lexer) × (s ≡ found t)) ⊎ ((s ≡ unexpected) × 0 < n)
Proper-cases (a_token {t}) = inl (t, refl)
Proper-cases (no_token h) = inr (refl, h)

Proper-if :
    {n : ℕ} {s t : Scanned} (b : Bool)
    → (b ≡ true → Proper n s)
    → (b ≡ false → Proper n t)
    → Proper n (if b then s else t)
Proper-if true hs ht = hs refl
Proper-if false hs ht = ht refl

of_operator-Proper :
    (n start : ℕ) (o : Option (TokenKind × ℕ)) (lx : Lexer)
    → 0 < n
    → Proper n (of_operator o start lx)
of_operator-Proper n start none lx h = no_token h
of_operator-Proper n start (some (kind, size)) lx h = a_token

of_string-Proper :
    (fuel start : ℕ) (lx : Lexer)
    → left lx < fuel
    → Proper (left lx) (of_string (scan_string fuel lx) start)
of_string-Proper fuel start lx h = let (t, e) = of_string_total fuel start lx h in rw e a_token

module _ (kind_of : List ℕ → IdentifierKind) (huge : FloatKind → List ℕ → Bool) where
  scan_case-Proper :
      (fuel : ℕ) (lx : Lexer) → left lx < fuel → Proper (left lx) (scan_case kind_of huge fuel lx)
  unfolding scan_case
  scan_case-Proper fuel lx h =
      let c = peek lx.at in
      Proper-if (c == 0) (λ e. a_token)
        (λ more.
          Proper-if (c == b'.' && is_dec_digit (peek1 lx.at)) (λ e. a_token)
            (λ e.
              Proper-if (leb b'0' c && leb c b'9') (λ e. a_token)
                (λ e.
                  Proper-if (c == 39) (λ e. a_token)
                    (λ e.
                      Proper-if (c == b'"') (λ e. of_string-Proper fuel (lexer_pos lx) lx h)
                        (λ e.
                          Proper-if (begins_word c) (λ e. a_token)
                            (λ e.
                              of_operator-Proper (left lx) (lexer_pos lx)
                                (operator c (peek1 lx.at) (peek2 lx.at)) lx
                                (peek-more lx.at more)))))))

  -- A turn gives a token, meets a character that begins none, or goes back to `top` further on.
  pub data Advances (lx : Lexer) : Scanned ⊎ Lexer → Type 0 where
    scans : {s : Scanned} → Proper (left lx) s → Advances lx (inl s)
    passes : {behind : Lexer} → left behind < left lx → Advances lx (inr behind)

  Advances-if :
      {lx : Lexer} {s t : Scanned ⊎ Lexer} (b : Bool)
      → (b ≡ true → Advances lx s)
      → (b ≡ false → Advances lx t)
      → Advances lx (if b then s else t)
  Advances-if true hs ht = hs refl
  Advances-if false hs ht = ht refl

  pub scan_turn-Advances :
      (fuel : ℕ) (lx : Lexer) → left lx < fuel → Advances lx (scan_turn kind_of huge fuel lx)
  unfolding scan_turn
  scan_turn-Advances fuel lx h =
      let c = peek lx.at in
      let d = peek1 lx.at in
      Advances-if (begins_blank c)
        (λ e. passes (skip_blanks-passes lx.at lx e (begins_blank-more lx.at e)))
        (λ e.
          Advances-if (c == b'/' && d == b'/')
            (λ e. passes (
              skip_while-passes in_line lx (slash-more lx.at (d == b'/') e)
                (slash-in_line c (d == b'/') e)))
            (λ e.
              Advances-if (c == b'/' && d == b'*')
                (λ e. passes (skip_c_comment-passes lx (slash-more lx.at (d == b'*') e)))
                (λ e. scans (scan_case-Proper fuel lx h))))

  pub Advances-cases :
      (lx : Lexer) {s : Scanned ⊎ Lexer}
      → Advances lx s
      → ((t : Token × Lexer) × (s ≡ inl (found t)))
        ⊎ ((s ≡ inl unexpected) × 0 < left lx)
        ⊎ ((behind : Lexer) × (s ≡ inr behind) × left behind < left lx)
  Advances-cases lx (passes {behind} h) = inr (inr (behind, refl, h))
  Advances-cases lx (scans h) = elim (Proper-cases h) [
    | inl (t, e) ↦ inl (t, ap inl e)
    | inr (e, more) ↦ inr (inl (ap inl e, more))
  ]
