-- ===== src/Lexer/Nesting.antt =====
-- skip_c_comment of src/lexer/module.c on comments in comments.
use nibble.Prelude.{
  ℕ, suc, ◌≡◌, refl, sym, ◌∙◌, ap, Bool, true, false, not, ◌&&◌, List, [], ◌∷◌, ◌==◌, if◌then◌else◌,
  arith, ltb, inl, inr, Bool-cases,
}
use nibble.Lexer.State.{Lexer, advance, advance_by, on_line}
use nibble.Lexer.Comments.{Loop, enter, leave, pass, comment_loop, skip_c_comment}
use nibble.Lexer.RoundTrip.{Moved, Moved-trans, twice}

-- What stands behind the opening of a comment: characters and whole comments, up to its end.
pub data Body : Type 0 where
  closing : Body
  char : ℕ → Body → Body
  nested : Body → Body → Body

-- The text of a body in front of another text
abbrev pub print : Body → List ℕ → List ℕ
print closing rest = b'*' ∷ b'/' ∷ rest
print (char c b) rest = c ∷ print b rest
print (nested inner b) rest = b'/' ∷ b'*' ∷ print inner (print b rest)

-- The first character of the text of a body, and what stands behind it
abbrev pub head : Body → ℕ
head closing = b'*'
head (char c b) = c
head (nested inner b) = b'/'

abbrev tail : Body → List ℕ → List ℕ
tail closing rest = b'/' ∷ rest
tail (char c b) rest = print b rest
tail (nested inner b) rest = b'*' ∷ print inner (print b rest)

print-head : (b : Body) (rest : List ℕ) → print b rest ≡ head b ∷ tail b rest
print-head closing rest = refl
print-head (char c b) rest = refl
print-head (nested inner b) rest = refl

-- No character is a zero, and none opens or closes a comment with the one behind it.
abbrev pub stands_alone : ℕ → ℕ → Bool
stands_alone c d = not (c == 0) && (not (c == b'/' && d == b'*') && not (c == b'*' && d == b'/'))

abbrev pub IsPlain : Body → Type 0
IsPlain closing = Unit {0}
IsPlain (char c b) = (stands_alone c (head b) ≡ true) × IsPlain b
IsPlain (nested inner b) = IsPlain inner × IsPlain b

pass-Moved :
    (c : ℕ) (l : Loop) (rest : List ℕ) → l.lexer.at ≡ c ∷ rest → Moved l.lexer (pass c l).lexer rest
unfolding advance on_line
pass-Moved c l rest e = elim (Bool-cases (c == 10)) [
  | inl line ↦ record {
    behind = rw (line, e) refl;
    same_errors = rw line refl;
    same_overrun = rw (line, e) refl;
  }
  | inr other ↦ record {
    behind = rw (other, e) refl;
    same_errors = rw other refl;
    same_overrun = rw (other, e) refl;
  }
]

two-Moved :
    (lx : Lexer) (a b : ℕ) (rest : List ℕ) → lx.at ≡ a ∷ b ∷ rest → Moved lx (advance_by 2 lx) rest
unfolding advance_by
two-Moved lx a b rest e = twice lx a b rest e

comment_loop-pass :
    (n c d : ℕ) (cs : List ℕ) (l : Loop)
    → l.level ≡ suc n
    → stands_alone c d ≡ true
    → comment_loop (c ∷ d ∷ cs) l ≡ comment_loop (d ∷ cs) (pass c l)
unfolding comment_loop
comment_loop-pass n c d cs l level h =
    let zero_free : (c == 0) ≡ false = ground arith in
    let inside : (l.level == 0) ≡ false = ground arith in
    let no_opening : (c == b'/' && d == b'*') ≡ false = ground arith in
    let no_closing : (c == b'*' && d == b'/') ≡ false = ground arith in
    rw (zero_free, inside, no_opening, no_closing) refl

comment_loop-enter :
    (n : ℕ) (cs : List ℕ) (l : Loop)
    → l.level ≡ suc n
    → comment_loop (b'/' ∷ b'*' ∷ cs) l ≡ comment_loop cs (enter l)
unfolding comment_loop
comment_loop-enter n cs l level =
    let inside : (l.level == 0) ≡ false = ground arith in rw inside refl

comment_loop-leave :
    (n : ℕ) (cs : List ℕ) (l : Loop)
    → l.level ≡ suc n
    → comment_loop (b'*' ∷ b'/' ∷ cs) l ≡ comment_loop cs (leave l)
unfolding comment_loop
comment_loop-leave n cs l level =
    let inside : (l.level == 0) ≡ false = ground arith in rw inside refl

-- Over a body the loop goes down one level.
comment_loop-print :
    (b : Body) (n : ℕ) (rest : List ℕ) (l : Loop)
    → IsPlain b
    → l.level ≡ suc n
    → l.lexer.at ≡ print b rest
    → (end : Loop) × (comment_loop (print b rest) l ≡ comment_loop rest end)
      × (end.level ≡ n)
      × Moved l.lexer end.lexer rest
comment_loop-print closing n rest l plain level e =
    (leave l, comment_loop-leave n rest l level, omega arith, two-Moved l.lexer b'*' b'/' rest e)
comment_loop-print (char c b) n rest l plain level e =
    let on = pass-Moved c l (print b rest) e in
    let (end, run, level', m) = comment_loop-print b n rest (pass c l) plain.1 level on.behind in
    let step = comment_loop-pass n c (head b) (tail b rest) l level plain.0 in
    (
      end,
      ap (λ t. comment_loop (c ∷ t) l) (print-head b rest)
          ∙ step
          ∙ ap (λ t. comment_loop t (pass c l)) (sym (print-head b rest))
          ∙ run,
      level',
      Moved-trans on m,
    )
comment_loop-print (nested inner b) n rest l plain level e =
    let on = two-Moved l.lexer b'/' b'*' (print inner (print b rest)) e in
    let (mid, run, level', m) =
      comment_loop-print inner (suc n) (print b rest) (enter l) plain.0 (omega arith) on.behind in
    let (end, run', level'', m') = comment_loop-print b n rest mid plain.1 level' m.behind in
    (
      end,
      comment_loop-enter n (print inner (print b rest)) l level ∙ run ∙ run',
      level'',
      Moved-trans on (Moved-trans m m'),
    )

if_same {ℓ} : {A : Type ℓ} (b : Bool) (x : A) → (if b then x else x) ≡ x
if_same true x = refl
if_same false x = refl

comment_loop-done : (text : List ℕ) (l : Loop) → l.level ≡ 0 → comment_loop text l ≡ l
unfolding comment_loop
comment_loop-done [] l h = refl
comment_loop-done (c ∷ []) l h =
    let outside : (l.level == 0) ≡ true = ground arith in rw outside (if_same (c == 0) l)
comment_loop-done (c ∷ d ∷ cs) l h =
    let outside : (l.level == 0) ≡ true = ground arith in rw outside (if_same (c == 0) l)

-- A comment whose text is characters and whole comments, none of the characters a zero or the start
-- of an opening or closing mark, is skipped up to its own end, with no error.
pub skip_c_comment-print :
    (b : Body) (rest : List ℕ) (lx : Lexer)
    → IsPlain b
    → lx.at ≡ b'/' ∷ b'*' ∷ print b rest
    → Moved lx (skip_c_comment lx) rest
unfolding skip_c_comment
skip_c_comment-print b rest lx plain e =
    let inner = advance_by 2 lx in
    let first : Loop = record { lexer = inner; level = 1; opened = lx.offset } in
    let on = two-Moved lx b'/' b'*' (print b rest) e in
    let (end, run, level, m) = comment_loop-print b 0 rest first plain refl on.behind in
    let whole : comment_loop inner.at first ≡ end =
      ap (λ t. comment_loop t first) on.behind ∙ run ∙ comment_loop-done rest end level in
    let closed : ltb 0 end.level ≡ false = ground arith in rw (whole, closed) (Moved-trans on m)
