-- ===== src/Token/Cursor.antt =====
-- The cursor over the token array: cero/syntax/token_cursor.hh. The iterator is the token that it
-- points to, with the tokens behind that one.
use cero.Common.{ℕ, Bool, true, false, ◌||◌, Option, some, none, List, [], ◌∷◌, if◌then◌else◌}
use cero.Token.Kind.{TokenKind, kind_eq, end_of_file, line_comment, block_comment}
use cero.Token.Text.{Token}

pub record TokenCursor : Type 0 where
  pub current : Token
  pub after : List Token

-- `begin()` of the array; an empty array has no token to point to.
unfoldable pub make_cursor : List Token → Option TokenCursor
make_cursor [] = none
make_cursor (t ∷ ts) = some (record { current = t; after = ts })

unfoldable pub peek_kind : TokenCursor → TokenKind
peek_kind c = c.current.kind

unfoldable pub peek_offset : TokenCursor → ℕ
peek_offset c = c.current.offset

-- `++it_`. Behind the last token, where the source's iterator would leave the array, it stays; an
-- array that ends in an end of file never gets there.
unfoldable pub step_to : List Token → TokenCursor → TokenCursor
step_to [] c = c
step_to (t ∷ ts) c = record { current = t; after = ts }

unfoldable pub advance : TokenCursor → TokenCursor
unfolding step_to peek_kind
advance c = if kind_eq (peek_kind c) end_of_file then c else step_to c.after c

-- `it_[1]`, with the same proviso.
unfoldable pub peek_ahead : TokenCursor → Token
unfolding step_to peek_kind
peek_ahead c = if kind_eq (peek_kind c) end_of_file then c.current else (step_to c.after c).current

unfoldable pub next : TokenCursor → Token × TokenCursor
unfolding advance
next c = (c.current, advance c)

unfoldable pub match : TokenKind → TokenCursor → Bool × TokenCursor
unfolding advance peek_kind
match kind c = if kind_eq (peek_kind c) kind then (true, advance c) else (false, c)

unfoldable pub match_token : TokenKind → TokenCursor → Option Token × TokenCursor
unfolding advance peek_kind
match_token kind c = if kind_eq (peek_kind c) kind then (some c.current, advance c) else (none, c)

-- The loop of `skip_comments`, over the tokens behind the current one.
unfoldable pub skip_comments_from : Token → List Token → TokenCursor
skip_comments_from t [] = record { current = t; after = [] }
skip_comments_from t (u ∷ us) =
    let rest = skip_comments_from u us in
    if kind_eq t.kind line_comment || kind_eq t.kind block_comment
    then rest
    else record { current = t; after = u ∷ us }

unfoldable pub skip_comments : TokenCursor → TokenCursor
unfolding skip_comments_from
skip_comments c = skip_comments_from c.current c.after
