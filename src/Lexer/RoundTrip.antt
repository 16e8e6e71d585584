-- ===== src/Lexer/RoundTrip.antt =====
-- What cstr_escape of src/cstring.c prints between quotes is read back by scan_string of
-- src/lexer/module.c.
use nibble.Prelude.{
  ℕ, zero, suc, ◌+◌, ◌/◌, ◌%◌, ◌<◌, ◌≡◌, refl, Bool, true, false, not, ◌&&◌, ◌||◌, inl, inr, List,
  [], ◌∷◌, ◌++◌, length, lt→ltb, append_assoc, some, ltb, ◌==◌, arith, Bool-cases, ◌∙◌,
}
use nibble.Lexer.Chars.{is_cntrl, biased_digit, unescape_char, all_below, all_below-at}
use nibble.Lexer.State.{Lexer, peek, advance}
use nibble.Lexer.Escape.{escape_letter, hex_digit, print_hex, escape_char, cstr_escape}
use nibble.Lexer.Literals.{
  scan_hex_escape, string_hex, string_escape, string_char, in_string, string_loop, string_end,
  ended, scan_string,
}

-- Every byte is checked by evaluation.
letter_ok : ℕ → Bool
letter_ok c =
    escape_letter c == 0
    || (unescape_char (escape_letter c) == c
        && (not (escape_letter c == b'x')
            && (not (escape_letter c == b'X') && (not (c == 0) || escape_letter c == b'0'))))

plain_ok : ℕ → Bool
plain_ok c = not (escape_letter c == 0) || (in_string c && not (c == 92))

cntrl_ok : ℕ → Bool
cntrl_ok c = not (is_cntrl c) || ltb c 128

letters_ok : all_below 256 letter_ok ≡ true
unfolding all_below letter_ok escape_letter unescape_char
letters_ok = refl

plains_ok : all_below 256 plain_ok ≡ true
unfolding all_below plain_ok escape_letter
plains_ok = refl

cntrls_ok : all_below 256 cntrl_ok ≡ true
unfolding all_below cntrl_ok is_cntrl
cntrls_ok = refl

biased_digit-hex_digit : (d : ℕ) → d < 16 → biased_digit (hex_digit d) ≡ d + 1
unfolding biased_digit
biased_digit-hex_digit d h = ground arith

-- `lx'` is `lx` moved on to `rest`, with no error.
pub record Moved (lx lx' : Lexer) (rest : List ℕ) : Type 0 where
  pub behind : lx'.at ≡ rest
  pub same_errors : lx'.errors ≡ lx.errors
  pub same_overrun : lx'.overrun ≡ lx.overrun

scan_hex_escape-print_hex :
    (lx : Lexer) (c : ℕ) (rest : List ℕ)
    → c < 128
    → lx.at ≡ hex_digit (c / 16) ∷ hex_digit (c % 16) ∷ rest
    → (scan_hex_escape lx).0 ≡ some c × Moved lx (scan_hex_escape lx).1 rest
unfolding scan_hex_escape advance
scan_hex_escape-print_hex lx c rest h e =
    let b1 = biased_digit-hex_digit (c / 16) (omega arith) in
    let b2 = biased_digit-hex_digit (c % 16) (omega arith) in
    (
      rw (e, b1, b2) (ground arith),
      record {
        behind = rw (e, b1, b2) (ground arith);
        same_errors = rw (e, b1, b2) (ground arith);
        same_overrun = rw (e, b1, b2) (ground arith);
      },
    )

-- A byte is read back from each of its three forms.
abbrev Reads : ℕ → Lexer → ℕ → List ℕ → Type 0
Reads from lx c rest =
    in_string (peek lx.at) ≡ true
    × (string_char from lx).0 ≡ c
    × Moved lx (string_char from lx).1 rest

read_letter :
    (from c l : ℕ) (lx : Lexer) (rest : List ℕ)
    → unescape_char l ≡ c
    → (l == b'x') ≡ false
    → (l == b'X') ≡ false
    → (c == 0 && not (l == b'0')) ≡ false
    → lx.at ≡ 92 ∷ l ∷ rest
    → Reads from lx c rest
unfolding string_char string_escape advance
read_letter from c l lx rest back x big_x zero_case e = (
  rw e refl,
  rw (e, back, x, big_x, zero_case) refl,
  record {
    behind = rw (e, back, x, big_x, zero_case) refl;
    same_errors = rw (e, back, x, big_x, zero_case) refl;
    same_overrun = rw (e, back, x, big_x, zero_case) refl;
  },
)

read_plain :
    (from c : ℕ) (lx : Lexer) (rest : List ℕ)
    → in_string c ≡ true
    → (c == 92) ≡ false
    → lx.at ≡ c ∷ rest
    → Reads from lx c rest
unfolding string_char advance
read_plain from c lx rest inside other e = (
  rw e inside,
  rw (e, other) refl,
  record {
    behind = rw (e, other) refl;
    same_errors = rw (e, other) refl;
    same_overrun = rw (e, other) refl;
  },
)

string_char-hex :
    (from : ℕ) (lx : Lexer) (rest : List ℕ)
    → lx.at ≡ 92 ∷ b'x' ∷ rest
    → let end = scan_hex_escape (advance (advance lx)) in
      string_char from lx ≡ string_hex end.0 end.1
unfolding string_char string_escape advance
string_char-hex from lx rest e = rw e refl

pub twice :
    (lx : Lexer) (a b : ℕ) (rest : List ℕ)
    → lx.at ≡ a ∷ b ∷ rest
    → Moved lx (advance (advance lx)) rest
unfolding advance
twice lx a b rest e = record { behind = rw e refl; same_errors = refl; same_overrun = rw e refl }

pub Moved-trans : {a b c : Lexer} {s t : List ℕ} → Moved a b s → Moved b c t → Moved a c t
Moved-trans m n = record {
  behind = n.behind;
  same_errors = n.same_errors ∙ m.same_errors;
  same_overrun = n.same_overrun ∙ m.same_overrun;
}

read_hex :
    (from c : ℕ) (lx : Lexer) (rest : List ℕ)
    → c < 128
    → lx.at ≡ 92 ∷ b'x' ∷ hex_digit (c / 16) ∷ hex_digit (c % 16) ∷ rest
    → Reads from lx c rest
unfolding string_hex
read_hex from c lx rest h e =
    let on = twice lx 92 b'x' (hex_digit (c / 16) ∷ hex_digit (c % 16) ∷ rest) e in
    let (v, m) = scan_hex_escape-print_hex (advance (advance lx)) c rest h on.behind in
    let same = string_char-hex from lx (hex_digit (c / 16) ∷ hex_digit (c % 16) ∷ rest) e in
    (rw e refl, rw (same, v) refl, rw (same, v) (Moved-trans on m))

string_char-escape_char :
    (from extra c : ℕ) (lx : Lexer) (rest : List ℕ)
    → c < 256
    → extra < 128
    → lx.at ≡ escape_char extra c ++ rest
    → Reads from lx c rest
unfolding escape_char print_hex letter_ok plain_ok cntrl_ok
string_char-escape_char from extra c lx rest hc he e =
    let letter = all_below-at 256 c letter_ok letters_ok hc in
    let plain = all_below-at 256 c plain_ok plains_ok hc in
    let cntrl = all_below-at 256 c cntrl_ok cntrls_ok hc in
    elim (Bool-cases (escape_letter c == 0)) [
      | inr short ↦
          read_letter from c (escape_letter c) lx rest (ground arith) (ground arith) (ground arith)
            (ground arith) (e ∙ rw short refl)
      | inl none_of_its_own ↦ elim (Bool-cases (is_cntrl c || c == extra)) [
        | inl hex ↦
            let small : c < 128 = ground arith in
            read_hex from c lx rest small (e ∙ rw (none_of_its_own, hex, lt→ltb c 128 small) refl)
        | inr plain_char ↦
            read_plain from c lx rest (ground arith) (ground arith)
              (e ∙ rw (none_of_its_own, plain_char) refl)
      ]
    ]

-- The bytes of a literal
abbrev pub Bytes : List ℕ → Type 0
Bytes [] = Unit {0}
Bytes (c ∷ cs) = c < 256 × Bytes cs

string_loop-cstr_escape :
    (fuel from extra : ℕ) (s : List ℕ) (lx : Lexer) (rest : List ℕ)
    → extra < 128
    → Bytes s
    → length s < fuel
    → lx.at ≡ cstr_escape extra s ++ (34 ∷ rest)
    → (end : Lexer) × (string_loop fuel from lx ≡ some (s, end)) × Moved lx end (34 ∷ rest)
unfolding string_loop cstr_escape
string_loop-cstr_escape zero from extra s lx rest he hs room e = absurd (omega arith)
string_loop-cstr_escape (suc fuel) from extra [] lx rest he hs room e =
    (lx, rw e refl, record { behind = e; same_errors = refl; same_overrun = refl })
string_loop-cstr_escape (suc fuel) from extra (c ∷ s) lx rest he hs room e =
    let tail = cstr_escape extra s ++ (34 ∷ rest) in
    let (inside, value, m) =
      string_char-escape_char from extra c lx tail hs.0 he
        (e ∙ append_assoc (escape_char extra c) (cstr_escape extra s) (34 ∷ rest)) in
    let (end, run, n) =
      string_loop-cstr_escape fuel from extra s (string_char from lx).1 rest he hs.1 (omega arith)
        m.behind in
    (end, rw (inside, value, string_loop, run) refl, Moved-trans m n)

-- The bytes of a literal that cstr_escape prints between quotes are the ones that scan_string reads:
-- with fuel above their number it ends behind the quote, and it adds no error. The extra character
-- to escape is in ASCII.
pub scan_string-cstr_escape :
    (fuel extra : ℕ) (s : List ℕ) (lx : Lexer) (rest : List ℕ)
    → extra < 128
    → Bytes s
    → length s < fuel
    → lx.at ≡ 34 ∷ (cstr_escape extra s ++ (34 ∷ rest))
    → (end : Lexer) × (scan_string fuel lx ≡ some (s, end)) × Moved lx end rest
unfolding scan_string ended string_end advance
scan_string-cstr_escape fuel extra s lx rest he hs room e =
    let (end, run, m) =
      string_loop-cstr_escape fuel lx.offset extra s (advance lx) rest he hs room (rw e refl) in
    let first : Moved lx (advance lx) (cstr_escape extra s ++ (34 ∷ rest)) = record {
      behind = rw e refl;
      same_errors = refl;
      same_overrun = rw e refl;
    } in
    let last : Moved end (advance end) rest = record {
      behind = rw m.behind refl;
      same_errors = refl;
      same_overrun = rw m.behind refl;
    } in
    (advance end, rw (run, m.behind) refl, Moved-trans (Moved-trans first m) last)
