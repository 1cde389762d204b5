-- ===== src/Lexer/Quotes.antt =====
-- String and character literals (`on_quote` of cero/syntax/lexer.cc).
use cero.Common.{ℕ, suc, Bool, false, not, ◌&&◌, [], ◌==◌, if◌then◌else◌, length}
use cero.Common.Loop.{Flow, next, stop, loop}
use cero.Lexer.State.{
  Lexer, Settings, Op, peek, advance, offset, get_offset_and_advance, put_sized, report,
  length_from,
}
use cero.Report.{missing_closing_quote}
use cero.Token.{TokenKind}

-- The loop's variables are `ignore_quote` and the lexer.
unfoldable pub quote_round : Settings → ℕ → Bool × Lexer → Flow (Bool × Lexer) Lexer
quote_round settings quote (ignore_quote, s) =
    let c = peek s in
    let t = advance s in
    if c == 0
    then stop s
    else if c == b'\n'
    then stop (report settings missing_closing_quote (offset s) [] s)
    else if c == b'\\'
    then next (not ignore_quote, t)
    else if c == quote && not ignore_quote
    then stop t
    else if ignore_quote
    then next (false, t)
    else next (ignore_quote, t)

unfoldable pub consume_quoted : Settings → ℕ → Op
consume_quoted settings quote s =
    loop (suc (length s.cursor.rest)) (λ (_, t). t) (quote_round settings quote) (false, s)

unfoldable pub on_quote : Settings → TokenKind → ℕ → Op
on_quote settings kind quote = get_offset_and_advance λ offset s.
    let t = consume_quoted settings quote s in put_sized kind offset (length_from offset t) t
