-- ===== src/Lexer/Comments.antt =====
-- Comments: skip_c_comment of src/lexer/module.c.
use nibble.Prelude.{ℕ, ◌+◌, ◌-◌, ◌%◌, ◌^◌, ◌&&◌, List, [], ◌∷◌, ltb, ◌==◌, if◌then◌else◌}
use nibble.Lexer.State.{Lexer, unclosed_comment, calc_pos, on_error, on_line, advance, advance_by}

-- Where the loop stands: the lexer, the level, and the offset of the last opening.
pub record Loop : Type 0 where
  pub lexer : Lexer
  pub level : ℕ
  pub opened : ℕ

abbrev pub enter : Loop → Loop
enter l = record { lexer = advance_by 2 l.lexer; level = l.level + 1; opened = l.lexer.offset }

abbrev pub leave : Loop → Loop
leave l = record l { lexer = advance_by 2 l.lexer; level = l.level - 1 }

abbrev pub pass : ℕ → Loop → Loop
pass c l = record l { lexer = advance (if c == 10 then on_line l.lexer else l.lexer) }

-- The loop of skip_c_comment over the characters in front of it.
unfoldable pub comment_loop : List ℕ → Loop → Loop
unfolding advance advance_by on_line
comment_loop [] l = l
comment_loop (c ∷ []) l = if c == 0 then l else if l.level == 0 then l else pass c l
comment_loop (c ∷ d ∷ cs) l =
    let entered = comment_loop cs (enter l) in
    let left = comment_loop cs (leave l) in
    let passed = comment_loop (d ∷ cs) (pass c l) in
    if c == 0
    then l
    else if l.level == 0
    then l
    else if c == b'/' && d == b'*'
    then entered
    else if c == b'*' && d == b'/'
    then left
    else passed

-- skip_c_comment
unfoldable pub skip_c_comment : Lexer → Lexer
unfolding comment_loop on_error
skip_c_comment lx =
    let inner = advance_by 2 lx in
    let end = comment_loop inner.at (record { lexer = inner; level = 1; opened = lx.offset }) in
    let start = calc_pos lx end.opened in
    if ltb 0 end.level
    then on_error unclosed_comment (record { start = start; end = (start + 2) % 2 ^ 32 }) end.lexer
    else end.lexer
