-- ===== src/Lexer/Comments.antt =====
-- Comments and the slash (`on_slash`, `consume_line_comment`, `consume_block_comment` of
-- cero/syntax/lexer.cc), with the flags of cero/syntax/lexer.hh and cero/util/flags.hh.
use Prim.Native.Nat.{bit_and}
use cero.Common.{ℕ, suc, ◌+◌, ◌-◌, ◌%◌, ◌^◌, Bool, [], ◌==◌, if◌then◌else◌, length}
use cero.Common.Loop.{Flow, next, stop, loop}
use cero.Lexer.State.{
  Lexer, Settings, Op, peek, advance, get_offset_and_advance, put, put_sized, if_match, report,
  length_from,
}
use cero.Report.{unterminated_block_comment}
use cero.Source.Cursor.{is_valid}
use cero.Token.{TokenKind, line_comment, block_comment, slash, slash_eq}

abbrev pub no_flags : ℕ
no_flags = 0

abbrev pub emit_comments : ℕ
emit_comments = 1

unfoldable pub has_flags : ℕ → ℕ → Bool
has_flags mask flags = bit_and mask flags == flags

unfoldable pub line_comment_round : Lexer → Flow Lexer Lexer
line_comment_round s =
    let c = peek s in if c == 0 then stop s else if c == b'\n' then stop s else next (advance s)

unfoldable pub consume_line_comment : Op
consume_line_comment s = loop (suc (length s.cursor.rest)) (λ t. t) line_comment_round s

-- The loop's variables are the number of unclosed comments and the lexer. A `*/` lowers the
-- number, and ends the comment where it comes to 0.
unfoldable pub close_comment : ℕ → Lexer → Flow (ℕ × Lexer) Lexer
close_comment unclosed_count s =
    let lowered = (unclosed_count + 2 ^ 32 - 1) % 2 ^ 32 in
    if lowered == 0 then stop s else next (lowered, s)

unfoldable pub block_comment_round : Settings → ℕ → ℕ × Lexer → Flow (ℕ × Lexer) Lexer
block_comment_round settings offset (unclosed_count, s) =
    if is_valid s.cursor
    then if_match b'*'
        (if_match b'/' (close_comment unclosed_count) (λ t. next (unclosed_count, t)))
        (if_match b'/'
          (if_match b'*' (λ t. next ((unclosed_count + 1) % 2 ^ 32, t))
            (λ t. next (unclosed_count, t)))
          (λ t. next (unclosed_count, advance t)))
        s
    else stop (report settings unterminated_block_comment offset [] s)

unfoldable pub consume_block_comment : Settings → ℕ → Op
consume_block_comment settings offset s =
    loop (suc (length s.cursor.rest)) (λ (_, t). t) (block_comment_round settings offset) (1, s)

-- `if (has_flags(flags_, emit_comments))` with the put that it guards.
unfoldable pub put_comment : Settings → TokenKind → ℕ → Op
put_comment settings kind offset s =
    if has_flags settings.flags emit_comments
    then put_sized kind offset (length_from offset s) s
    else s

unfoldable pub on_slash : Settings → Op
on_slash settings = get_offset_and_advance λ offset.
    if_match b'/' (λ s. put_comment settings line_comment offset (consume_line_comment s))
      (if_match b'*'
        (λ s. put_comment settings block_comment offset (consume_block_comment settings offset s))
        (if_match b'=' (put slash_eq offset) (put slash offset)))
