-- ===== src/Token/Tests.antt =====
-- The token cursor at a comment (cero/syntax/token_cursor.hh).
use cero.Common.{[], ◌∷◌, refl}
use cero.Parser.Progress.{IsSafe}
use cero.Token.Cursor.{TokenCursor, skip_comments}
use cero.Token.Skip.{Skips, skip_comments_lem}
use cero.Token.{make_token, kind_eq, block_comment, semicolon, end_of_file}

-- A comment, a semicolon and the end of the file.
abbrev at_comment : TokenCursor
at_comment = record {
  current = make_token block_comment 0 4;
  after = make_token semicolon 4 0 ∷ make_token end_of_file 5 0 ∷ [];
}

at_comment-IsSafe : IsSafe at_comment
unfolding kind_eq make_token
at_comment-IsSafe = refl

skip_comments_lem_example : Skips at_comment.current at_comment.after (skip_comments at_comment)
skip_comments_lem_example = skip_comments_lem at_comment at_comment-IsSafe
