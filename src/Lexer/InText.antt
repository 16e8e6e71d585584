-- ===== src/Lexer/InText.antt =====
-- scan_token of src/lexer/module.c stays in a text that has no backslash and no apostrophe.
use nibble.Prelude.{
  ℕ, zero, suc, ◌≤◌, ◌<◌, ◌≡◌, refl, true, false, ◌&&◌, inl, inr, List, [], ◌∷◌, Option, none, some,
  ltb, ◌==◌, if◌then◌else◌, arith, Bool-cases,
}
use nibble.Lexer.Chars.{is_whitespace}
use nibble.Lexer.State.{Lexer, peek, advance, advance_by, on_line}
use nibble.Lexer.Comments.{Loop, enter, leave, pass, comment_loop, skip_c_comment}
use nibble.Lexer.Literals.{
  string_char, in_string, push, string_loop, string_end, ended, scan_string,
}
use nibble.Lexer.Tokens.{Token, skip_blanks, Scanned, found, unexpected, no_fuel, of_string}
use nibble.Lexer.Passes.{left}
use nibble.Lexer.Within.{
  is_plain, IsWithin, if-elim, test-more, advance-IsWithin, advance_by-IsWithin, on_error-IsWithin,
  on_line-IsWithin, skip_char-IsWithin,
}

pub is_plain-peek :
    (cs : List ℕ) → is_plain cs ≡ true → ((peek cs == 92) ≡ false) × ((peek cs == 39) ≡ false)
unfolding is_plain
is_plain-peek [] h = (refl, refl)
is_plain-peek (c ∷ cs) h = (ground (arith, h), ground (arith, h))

-- What a loop of scan_string leaves
data LoopWithin : Option (List ℕ × Lexer) → Type 0 where
  ends : {cs : List ℕ} {end : Lexer} → IsWithin end → LoopWithin (some (cs, end))
  out_of_fuel : LoopWithin none

push-LoopWithin : (c : ℕ) {o : Option (List ℕ × Lexer)} → LoopWithin o → LoopWithin (push c o)
push-LoopWithin c (ends w) = ends w
push-LoopWithin c out_of_fuel = out_of_fuel

string_char-IsWithin :
    (from : ℕ) (lx : Lexer)
    → in_string (peek lx.at) ≡ true
    → IsWithin lx
    → IsWithin (string_char from lx).1
unfolding string_char
string_char-IsWithin from lx inside w =
    rw ((is_plain-peek lx.at w.plain).0)
      (advance-IsWithin lx (test-more in_string lx.at refl inside) w)

string_loop-LoopWithin :
    (fuel from : ℕ) (lx : Lexer) → IsWithin lx → LoopWithin (string_loop fuel from lx)
unfolding string_loop
string_loop-LoopWithin zero from lx w = out_of_fuel
string_loop-LoopWithin (suc fuel) from lx w = elim (Bool-cases (in_string (peek lx.at))) [
  | inr outside ↦ rw (string_loop, outside) (ends w)
  | inl inside ↦
      let rest =
        string_loop-LoopWithin fuel from (string_char from lx).1
          (string_char-IsWithin from lx inside w) in
      rw (string_loop, inside) (push-LoopWithin (string_char from lx).0 rest)
]

string_end-IsWithin : (from : ℕ) (lx : Lexer) → IsWithin lx → IsWithin (string_end from lx)
unfolding string_end
string_end-IsWithin from lx w =
    if-elim IsWithin (peek lx.at == b'"')
      (λ e. advance-IsWithin lx (test-more (λ t. t == b'"') lx.at refl e) w)
      (λ e.
        if-elim IsWithin (peek lx.at == 10)
          (λ e.
            skip_char-IsWithin b'"' _ (omega arith) (
              advance-IsWithin _ (line-more lx e)
                (on_line-IsWithin _ (on_error-IsWithin _ _ lx w))))
          (λ e. on_error-IsWithin _ _ lx w))
  where
    line-more : (lx : Lexer) → (peek lx.at == 10) ≡ true → 0 < left lx
    line-more lx e = test-more (λ t. t == 10) lx.at refl e

-- What a turn of scan_token comes to
pub data TurnWithin : Scanned → Type 0 where
  token_within : {t : Token} {end : Lexer} → IsWithin end → TurnWithin (found (t, end))
  no_token : TurnWithin unexpected
  no_more_fuel : TurnWithin no_fuel

ended-TurnWithin :
    (from start : ℕ) {o : Option (List ℕ × Lexer)}
    → LoopWithin o
    → TurnWithin (of_string (ended from o) start)
unfolding ended
ended-TurnWithin from start (ends {end = end} w) = token_within (string_end-IsWithin from end w)
ended-TurnWithin from start out_of_fuel = no_more_fuel

pub scan_string-TurnWithin :
    (fuel start : ℕ) (lx : Lexer)
    → 0 < left lx
    → IsWithin lx
    → TurnWithin (of_string (scan_string fuel lx) start)
unfolding scan_string
scan_string-TurnWithin fuel start lx more w =
    ended-TurnWithin lx.offset start
      (string_loop-LoopWithin fuel lx.offset (advance lx) (advance-IsWithin lx more w))

pub skip_blanks-IsWithin :
    (text : List ℕ) (lx : Lexer) → lx.at ≡ text → IsWithin lx → IsWithin (skip_blanks text lx)
unfolding skip_blanks advance on_line
skip_blanks-IsWithin [] lx e w = w
skip_blanks-IsWithin (c ∷ cs) lx e w =
    let more : 0 < left lx = rw e (omega arith) in
    elim (Bool-cases (is_whitespace c)) [
      | inr h ↦ rw h w
      | inl h ↦ elim (Bool-cases (c == 10)) [
        | inl l ↦
            rw (h, l)
              (skip_blanks-IsWithin cs (advance (on_line lx)) (rw e refl)
                (advance-IsWithin (on_line lx) more (on_line-IsWithin lx w)))
        | inr l ↦
            rw (h, l)
              (skip_blanks-IsWithin cs (advance lx) (rw e refl) (advance-IsWithin lx more w))
      ]
    ]

next-IsWithin :
    (c : ℕ) (lx : Lexer)
    → 0 < left lx
    → IsWithin lx
    → IsWithin (advance (if c == 10 then on_line lx else lx))
unfolding on_line
next-IsWithin c lx more w = elim (Bool-cases (c == 10)) [
  | inl l ↦ rw l (advance-IsWithin (on_line lx) more (on_line-IsWithin lx w))
  | inr l ↦ rw l (advance-IsWithin lx more w)
]

next-at :
    (c d : ℕ) (cs : List ℕ) (lx : Lexer)
    → lx.at ≡ d ∷ cs
    → (advance (if c == 10 then on_line lx else lx)).at ≡ cs
unfolding advance on_line
next-at c d cs lx e = elim (Bool-cases (c == 10)) [
  | inl l ↦ rw (l, e) refl
  | inr l ↦ rw (l, e) refl
]

by_two-at : (c d : ℕ) (cs : List ℕ) (lx : Lexer) → lx.at ≡ c ∷ d ∷ cs → (advance_by 2 lx).at ≡ cs
unfolding advance_by advance
by_two-at c d cs lx e = rw e refl

comment_loop-IsWithin :
    (text : List ℕ) (l : Loop)
    → l.lexer.at ≡ text
    → IsWithin l.lexer
    → IsWithin (comment_loop text l).lexer
unfolding comment_loop
comment_loop-IsWithin [] l e w = w
comment_loop-IsWithin (c ∷ []) l e w =
    let more : 0 < left l.lexer = rw e (omega arith) in
    let P : Loop → Type 0 = λ r. IsWithin r.lexer in
    if-elim P (c == 0) (λ h. w)
      (λ h. if-elim P (l.level == 0) (λ h. w) (λ h. next-IsWithin c l.lexer more w))
comment_loop-IsWithin (c ∷ d ∷ cs) l e w =
    let more : 2 ≤ left l.lexer = rw e (omega arith) in
    let P : Loop → Type 0 = λ r. IsWithin r.lexer in
    let by_two = advance_by-IsWithin 2 l.lexer more w in
    let two_on = by_two-at c d cs l.lexer e in
    if-elim P (c == 0) (λ h. w)
      (λ h.
        if-elim P (l.level == 0) (λ h. w)
          (λ h.
            if-elim P (c == b'/' && d == b'*')
              (λ h. comment_loop-IsWithin cs (enter l) two_on by_two)
              (λ h.
                if-elim P (c == b'*' && d == b'/')
                  (λ h. comment_loop-IsWithin cs (leave l) two_on by_two)
                  (λ h.
                    comment_loop-IsWithin (d ∷ cs) (pass c l) (next-at c c (d ∷ cs) l.lexer e)
                      (next-IsWithin c l.lexer (omega (arith, more)) w)))))

pub skip_c_comment-IsWithin :
    (lx : Lexer) → 2 ≤ left lx → IsWithin lx → IsWithin (skip_c_comment lx)
unfolding skip_c_comment
skip_c_comment-IsWithin lx more w =
    let inner = advance_by 2 lx in
    let loop : Loop =
      comment_loop inner.at (record { lexer = inner; level = 1; opened = lx.offset }) in
    let within =
      comment_loop-IsWithin inner.at (record { lexer = inner; level = 1; opened = lx.offset }) refl
        (advance_by-IsWithin 2 lx more w) in
    if-elim IsWithin (ltb 0 loop.level) (λ e. on_error-IsWithin _ _ loop.lexer within) (λ e. within)
