-- ===== src/Lexer/Unclosed.antt =====
-- Quoted literals that the end of the text ends (`on_quote` of cero/syntax/lexer.cc).
use cero.Common.{
  ℕ, suc, ◌<◌, Bool, true, false, not, ◌&&◌, List, [], ◌∷◌, Bytes, length, All, if_rule, ◌==◌, ◌≡◌,
  refl, sym, ◌∙◌, subst, arith,
}
use cero.Common.Loop.{Flow, Round, again, leave, loop_rule}
use cero.Lexer.Quotes.{quote_round, consume_quoted, on_quote}
use cero.Lexer.Reading.Moves.{peek→rest}
use cero.Lexer.State.{Lexer, Settings, peek, advance, get_offset_and_advance, put_sized}
use cero.Report.{Report}
use cero.Source.Cursor
use cero.Token.{TokenKind}

abbrev pub NoNewline : Bytes → Type 0
NoNewline = All λ b. (b == b'\n') ≡ false

-- The lexer stands before text without a newline, and has these reports.
record Silent (reports : List Report) (s : Lexer) : Type 0 where
  rest : NoNewline s.cursor.rest
  same : s.reports ≡ reports

advance-Silent :
    (reports : List Report) (s : Lexer) (b : ℕ) (r : Bytes)
    → s.cursor.rest ≡ b ∷ r
    → Silent reports s
    → Silent reports (advance s) × (length (advance s).cursor.rest < length s.cursor.rest)
unfolding advance Cursor.advance Cursor.advance_from
advance-Silent reports s b r e h =
    let k = subst NoNewline e h.rest in rw e (record { rest = k.1; same = h.same }, omega arith)

front-NoNewline :
    (s : Lexer) (b : ℕ) (r : Bytes)
    → s.cursor.rest ≡ b ∷ r
    → NoNewline s.cursor.rest
    → (peek s == b'\n') ≡ false
unfolding peek Cursor.peek Cursor.first_or_null
front-NoNewline s b r e h = let k = subst NoNewline e h in rw e k.0

QuoteRound : List Report → Bool × Lexer → Flow (Bool × Lexer) Lexer → Type 0
QuoteRound reports p f =
    Round (λ (q : Bool × Lexer). Silent reports q.1) (λ t. t.reports ≡ reports)
      (λ q. length q.1.cursor.rest) p f

quote_round-Silent :
    (settings : Settings) (quote : ℕ) (reports : List Report) (p : Bool × Lexer)
    → Silent reports p.1
    → QuoteRound reports p (quote_round settings quote p)
unfolding quote_round QuoteRound
quote_round-Silent settings quote reports (ignore, s) h =
    let R = QuoteRound reports (ignore, s) in
    if_rule R (peek s == 0) (λ _. leave h.same)
      λ nz.
        let (r, e) = peek→rest s nz in
        let (next, shorter) = advance-Silent reports s (peek s) r e h in
        if_rule R (peek s == b'\n')
          (λ n. let k : true ≡ false = sym n ∙ front-NoNewline s (peek s) r e h.rest in absurd (cc))
          λ _.
            if_rule R (peek s == b'\\') (λ _. again next shorter)
              λ _.
                if_rule R (peek s == quote && not ignore) (λ _. leave next.same)
                  λ _. if_rule R ignore (λ _. again next shorter) (λ _. again next shorter)

start-Silent :
    (s : Lexer) (w : Bytes)
    → s.cursor.rest ≡ w
    → NoNewline s.cursor.rest
    → Silent s.reports (advance s)
unfolding advance Cursor.advance Cursor.advance_from
start-Silent s [] e h = rw e (record { rest = tt; same = refl })
start-Silent s (b ∷ r) e h =
    let (k, _) = advance-Silent s.reports s b r e (record { rest = h; same = refl }) in k

-- Where no newline comes behind it, a quoted literal gives no report, whether it is closed or the
-- end of the text ends it.
pub on_quote-reports :
    (settings : Settings) (kind : TokenKind) (quote : ℕ) (s : Lexer)
    → NoNewline s.cursor.rest
    → (on_quote settings kind quote s).reports ≡ s.reports
unfolding on_quote consume_quoted get_offset_and_advance put_sized QuoteRound
on_quote-reports settings kind quote s h =
    loop_rule (λ (q : Bool × Lexer). Silent s.reports q.1) (λ t. t.reports ≡ s.reports)
      (λ q. length q.1.cursor.rest) (λ (_, t). t) (quote_round settings quote)
      (quote_round-Silent settings quote s.reports) (suc (length (advance s).cursor.rest))
      (false, advance s) (omega arith) (start-Silent s s.cursor.rest refl h)
