-- ===== src/Token/Skip.antt =====
-- What `TokenCursor::skip_comments` of cero/syntax/token_cursor.hh skips.
use cero.Common.{Bool, true, false, ◌||◌, List, [], ◌∷◌, ◌++◌, All, ◌≡◌, refl, ap, arith, if_rule}
use cero.Parser.Progress.{EndsInEof, IsSafe}
use cero.Token.Cursor.{TokenCursor, skip_comments, skip_comments_from}
use cero.Token.{Token, TokenKind, kind_eq, to_underlying, line_comment, block_comment, end_of_file}

pub is_comment : Token → Bool
is_comment t = kind_eq t.kind line_comment || kind_eq t.kind block_comment

eof_no_comment :
    (kind : TokenKind)
    → kind_eq kind end_of_file ≡ true
    → (kind_eq kind line_comment || kind_eq kind block_comment) ≡ false
unfolding kind_eq to_underlying
eof_no_comment kind h = ground arith

-- The cursor stands behind comments alone, at a token that is none.
abbrev pub Skips : Token → List Token → TokenCursor → Type 0
Skips t us c =
    (skipped : List Token) × ((t ∷ us ≡ skipped ++ (c.current ∷ c.after))
      × (All (λ u. is_comment u ≡ true) skipped × (is_comment c.current ≡ false)))

skip_comments_from-Skips :
    (t : Token) (us : List Token) → EndsInEof t us → Skips t us (skip_comments_from t us)
unfolding skip_comments_from is_comment
skip_comments_from-Skips t [] h = ([], (refl, (tt, eof_no_comment t.kind h)))
skip_comments_from-Skips t (u ∷ us) h =
    let (skipped, (e, (a, b))) = skip_comments_from-Skips u us h in
    if_rule (Skips t (u ∷ us)) (kind_eq t.kind line_comment || kind_eq t.kind block_comment)
      (λ k. (t ∷ skipped, (ap (◌∷◌ t) e, ((k, a), b)))) (λ k. ([], (refl, (tt, k))))

-- In an array that ends in an end of file, skipping comments leaves the cursor at a token that is
-- none, the tokens in front of it are all comments, and none is lost.
pub skip_comments_lem : (c : TokenCursor) → IsSafe c → Skips c.current c.after (skip_comments c)
unfolding skip_comments
skip_comments_lem c h = skip_comments_from-Skips c.current c.after h
