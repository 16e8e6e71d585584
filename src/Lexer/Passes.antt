-- ===== src/Lexer/Passes.antt =====
-- How many characters the steps of the lexer, src/lexer/module.c, leave in front of it.
use nibble.Prelude.{
  ℕ, zero, suc, ◌-◌, ◌<◌, ◌≤◌, ◌≡◌, refl, Bool, true, false, inl, inr, List, [], ◌∷◌, length,
  Option, none, some, ◌==◌, if◌then◌else◌, arith, Bool-cases,
}
use nibble.Lexer.State.{
  Lexer, ErrorKind, ProgRange, peek, rest_of, advance, advance_by, on_error, on_line, count_while,
  skip_while, skip_char, skip_word_end,
}
use nibble.Lexer.Comments.{Loop, enter, leave, pass, comment_loop, skip_c_comment}
use nibble.Lexer.Literals.{
  scan_hex_escape, string_hex, string_escape, string_char, in_string, string_loop, string_end,
  ended, scan_string,
}
use nibble.Lexer.Tokens.{Token, skip_blanks, found, of_string, token_from, as_str}
use nibble.Lexer.Operators.{str}

abbrev pub left : Lexer → ℕ
left lx = length lx.at

pub length-rest_of : (cs : List ℕ) → length (rest_of cs) ≡ length cs - 1
length-rest_of [] = refl
length-rest_of (c ∷ cs) = omega arith

pub advance-left : (lx : Lexer) → left (advance lx) ≡ left lx - 1
unfolding advance
advance-left lx = length-rest_of lx.at

advance_by-left : (n : ℕ) (lx : Lexer) → left (advance_by n lx) ≤ left lx
unfolding advance_by
advance_by-left zero lx = omega arith
advance_by-left (suc n) lx = omega (arith, advance_by-left n (advance lx), advance-left lx)

advance_by-suc : (n : ℕ) (lx : Lexer) → 0 < left lx → left (advance_by (suc n) lx) < left lx
unfolding advance_by
advance_by-suc n lx h = omega (arith, advance_by-left n (advance lx), advance-left lx)

skip_while-left : (test : ℕ → Bool) (lx : Lexer) → left (skip_while test lx) ≤ left lx
unfolding skip_while
skip_while-left test lx = advance_by-left (count_while test lx.at) lx

count_while-passes :
    (test : ℕ → Bool) (cs : List ℕ)
    → 0 < length cs
    → test (peek cs) ≡ true
    → count_while test cs ≡ suc (count_while test (rest_of cs))
unfolding count_while
count_while-passes test [] h t = absurd (omega arith)
count_while-passes test (c ∷ cs) h t = rw t refl

pub skip_while-passes :
    (test : ℕ → Bool) (lx : Lexer)
    → 0 < left lx
    → test (peek lx.at) ≡ true
    → left (skip_while test lx) < left lx
unfolding skip_while
skip_while-passes test lx h t =
    rw (count_while-passes test lx.at h t) (advance_by-suc (count_while test (rest_of lx.at)) lx h)

on_error-left :
    (kind : ErrorKind) (range : ProgRange) (lx : Lexer) → left (on_error kind range lx) ≡ left lx
unfolding on_error
on_error-left kind range lx = refl

pub on_line-left : (lx : Lexer) → left (on_line lx) ≡ left lx
unfolding on_line
on_line-left lx = refl

pub skip_blanks-left : (text : List ℕ) (lx : Lexer) → left (skip_blanks text lx) ≤ left lx
unfolding skip_blanks
skip_blanks-left [] lx = omega arith
skip_blanks-left (c ∷ cs) lx =
    let next = if c == 10 then on_line lx else lx in
    ground (arith, skip_blanks-left cs (advance next), advance-left next, on_line-left lx)

comment_loop-left : (text : List ℕ) (l : Loop) → left (comment_loop text l).lexer ≤ left l.lexer
unfolding comment_loop
comment_loop-left [] l = omega arith
comment_loop-left (c ∷ []) l =
    let next = if c == 10 then on_line l.lexer else l.lexer in
    ground (arith, advance-left next, on_line-left l.lexer)
comment_loop-left (c ∷ d ∷ cs) l =
    let next = if c == 10 then on_line l.lexer else l.lexer in
    ground (
      arith,
      advance-left next,
      on_line-left l.lexer,
      advance_by-left 2 l.lexer,
      comment_loop-left cs (enter l),
      comment_loop-left cs (leave l),
      comment_loop-left (d ∷ cs) (pass c l),
    )

pub skip_c_comment-passes : (lx : Lexer) → 0 < left lx → left (skip_c_comment lx) < left lx
unfolding skip_c_comment on_error
skip_c_comment-passes lx h =
    let inner = advance_by 2 lx in
    ground (
      arith,
      advance_by-suc 1 lx h,
      comment_loop-left inner.at (record { lexer = inner; level = 1; opened = lx.offset }),
    )

skip_char-left : (c : ℕ) (lx : Lexer) → left (skip_char c lx) ≤ left lx
unfolding skip_char
skip_char-left c lx = ground (arith, advance-left lx)

skip_word_end-left : (lx : Lexer) → left (skip_word_end lx) ≤ left lx
unfolding skip_word_end
skip_word_end-left lx = skip_while-left _ lx

scan_hex_escape-left : (lx : Lexer) → left (scan_hex_escape lx).1 ≤ left lx
unfolding scan_hex_escape on_error
scan_hex_escape-left lx = ground (arith, advance-left lx, advance-left (advance lx))

string_hex-left : (value : Option ℕ) (lx : Lexer) → left (string_hex value lx).1 ≤ left lx
unfolding string_hex
string_hex-left none lx = skip_word_end-left lx
string_hex-left (some v) lx = omega arith

string_escape-left : (from : ℕ) (lx : Lexer) → left (string_escape from lx).1 ≤ left lx
unfolding string_escape on_error
string_escape-left from lx =
    let (value, end) = scan_hex_escape (advance lx) in
    ground (arith, advance-left lx, scan_hex_escape-left (advance lx), string_hex-left value end)

string_char-left : (from : ℕ) (lx : Lexer) → 0 < left lx → left (string_char from lx).1 < left lx
unfolding string_char
string_char-left from lx h = ground (arith, advance-left lx, string_escape-left from (advance lx))

in_string-more : (cs : List ℕ) → in_string (peek cs) ≡ true → 0 < length cs
in_string-more [] h = cc
in_string-more (c ∷ cs) h = omega arith

-- The loop of scan_string ends on fuel above the number of characters in front of it.
string_loop_total :
    (fuel from : ℕ) (lx : Lexer)
    → left lx < fuel
    → (cs : List ℕ) × (end : Lexer) × (string_loop fuel from lx ≡ some (cs, end))
unfolding string_loop
string_loop_total zero from lx h = absurd (omega arith)
string_loop_total (suc fuel) from lx h = elim (Bool-cases (in_string (peek lx.at))) [
  | inr outside ↦ ([], lx, rw (outside, string_loop) refl)
  | inl inside ↦
      let shorter = string_char-left from lx (in_string-more lx.at inside) in
      let (cs, end, run) = string_loop_total fuel from (string_char from lx).1 (omega arith) in
      ((string_char from lx).0 ∷ cs, end, rw (inside, string_loop, run) refl)
]

pub of_string_total :
    (fuel start : ℕ) (lx : Lexer)
    → left lx < fuel
    → (t : Token × Lexer) × (of_string (scan_string fuel lx) start ≡ found t)
unfolding scan_string ended
of_string_total fuel start lx h =
    let (cs, end, run) =
      string_loop_total fuel lx.offset (advance lx) (omega (arith, advance-left lx)) in
    (token_from start str (as_str cs) (string_end lx.offset end), rw run refl)

pub peek-more : (cs : List ℕ) → (peek cs == 0) ≡ false → 0 < length cs
peek-more [] h = cc
peek-more (c ∷ cs) h = omega arith
