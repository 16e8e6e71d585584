-- ===== src/Lexer/Chars.antt =====
-- The character tables of src/cstring.c that the lexer reads.
use nibble.Prelude.{
  ℕ, zero, suc, ◌+◌, ◌-◌, ◌<◌, ◌≡◌, Bool, true, not, ◌&&◌, List, ◌∷◌, ◌++◌, leb, ◌==◌, bit_and,
  if◌then◌else◌, get_or, replicate, arith,
}

-- char_props; the 128 zeros at its end stand for bytes from 0x80 on.
abbrev pub char_props : List ℕ
char_props =
    replicate 9 0x8
    ++ (0x9 ∷ 0x9 ∷ 0x9 ∷ 0x8 ∷ 0x9 ∷ replicate 18 0x8)
    ++ (0x1 ∷ replicate 15 0x0)
    ++ replicate 10 0x6
    ++ replicate 7 0x0
    ++ replicate 26 0x4
    ++ (0x0 ∷ 0x0 ∷ 0x0 ∷ 0x0 ∷ 0x4 ∷ 0x0 ∷ replicate 26 0x4)
    ++ (0x0 ∷ 0x0 ∷ 0x0 ∷ 0x0 ∷ 0x8 ∷ replicate 128 0x0)

-- A bit of the entry of a character.
abbrev prop : ℕ → ℕ → Bool
prop c bit = not (bit_and (get_or char_props c 0) bit == 0)

unfoldable pub is_whitespace : ℕ → Bool
is_whitespace c = prop c 0x1

unfoldable pub is_dec_digit : ℕ → Bool
is_dec_digit c = prop c 0x2

unfoldable pub is_alphanum : ℕ → Bool
is_alphanum c = prop c 0x4

unfoldable pub is_cntrl : ℕ → Bool
is_cntrl c = prop c 0x8

-- char_to_biased_digit: the value of a digit plus one, and 0 for what is no digit.
unfoldable pub biased_digit : ℕ → ℕ
biased_digit c =
    if leb b'0' c && leb c b'9'
    then c - b'0' + 1
    else if leb b'a' c && leb c b'f'
    then c - b'a' + 11
    else if leb b'A' c && leb c b'F'
    then c - b'A' + 11
    else 0

-- escaped_to_char: the byte that a character stands for behind a backslash, 0 where it is not set.
unfoldable pub unescape_char : ℕ → ℕ
unescape_char c =
    if c == b'a'
    then 7
    else if c == b'b'
    then 8
    else if c == b'f'
    then 12
    else if c == b'n'
    then 10
    else if c == b'r'
    then 13
    else if c == b't'
    then 9
    else if c == b'v'
    then 11
    else if c == 92
    then 92
    else if c == 39
    then 39
    else if c == 34
    then 34
    else if c == 63
    then 63
    else 0

-- A test of all numbers below a bound, which evaluation decides.
unfoldable pub all_below : ℕ → (ℕ → Bool) → Bool
all_below zero test = true
all_below (suc n) test = test n && all_below n test

pub all_below-at : (n c : ℕ) (test : ℕ → Bool) → all_below n test ≡ true → c < n → test c ≡ true
unfolding all_below
all_below-at zero c test h lt = absurd (omega arith)
all_below-at (suc n) c test h lt = ground (arith, all_below-at n c test)
