-- ===== src/Lexer/Bounds.antt =====
-- scan_token of src/lexer/module.c ends without leaving a text that has no backslash and no apostrophe.
use nibble.Prelude.{ℕ, Bool, ◌⊎◌, inl, inr, List, take, ◌-◌}
use nibble.Lexer.Chars.{is_alphanum}
use nibble.Lexer.State.{Lexer, skip_while, advance}
use nibble.Lexer.Numbers.{FloatKind}
use nibble.Lexer.Tokens.{IdentifierKind, Scanned}
use nibble.Lexer.Within.{IsWithin}
use nibble.Lexer.InText.{TurnWithin}

module _ (kind_of : List ℕ → IdentifierKind) (huge : FloatKind → List ℕ → Bool) where
  abbrev word_chars : Lexer → List ℕ
  word_chars lx = take ((skip_while is_alphanum (advance lx)).offset - lx.offset) lx.at

  -- What a turn comes to, or where it goes on
  data StepWithin : Scanned ⊎ Lexer → Type 0 where
    scans : {s : Scanned} → TurnWithin s → StepWithin (inl s)
    passes : {behind : Lexer} → IsWithin behind → StepWithin (inr behind)
