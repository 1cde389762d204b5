-- ===== src/Lexer/Lexed/Quotes.antt =====
-- String and character literals are read to their end and put as they stand.
use cero.Common.{
  ℕ, suc, ◌≤◌, ◌≡◌, refl, arith, Bool, false, not, ◌&&◌, [], ◌∷◌, Bytes, length, if_rule, ◌==◌,
}
use cero.Common.Loop.{Flow, Round, again, leave, loop_rule}
use cero.Lexer.Lexed.Rules.{
  begin, word_put, ReadOn, ReadOn-none, ReadOn-more, ReadOn-shorter, ReadOn-advance, ReadOn-pos,
}
use cero.Lexer.Quotes.{quote_round, consume_quoted, on_quote}
use cero.Lexer.Reading.{Lexed, Closed}
use cero.Lexer.Reading.Moves.{Open-report, peek→rest}
use cero.Lexer.State.{Lexer, Settings, peek, advance, offset}
use cero.Report.{missing_closing_quote, valid_for_message}
use cero.Source.{source_size_max}
use cero.Token.{TokenKind}

module _ (settings : Settings) (fits : length settings.source.text ≤ source_size_max) where
  abbrev Read : ℕ → Bytes → Lexer → Type 0
  Read = ReadOn settings.source.text fits

  abbrev QuoteRound : ℕ → Bytes → Bool × Lexer → Flow (Bool × Lexer) Lexer → Type 0
  QuoteRound start w p f =
      Round (λ (q : Bool × Lexer). Read start w q.1) (Read start w) (λ q. length q.1.cursor.rest) p
        f

  quote_round-Round :
      (start : ℕ) (w : Bytes) (quote : ℕ) (ignore : Bool) (s : Lexer)
      → Read start w s
      → QuoteRound start w (ignore, s) (quote_round settings quote (ignore, s))
  unfolding quote_round valid_for_message
  quote_round-Round start w quote ignore s h =
      if_rule (QuoteRound start w (ignore, s)) (peek s == 0) (λ _. leave h)
        λ nz.
          let (r, q) = peek→rest s nz in
          let o = ReadOn-advance settings.source.text fits (peek s) r h q in
          let more = ReadOn-more settings.source.text fits (peek s ∷ []) h o in
          let shorter = ReadOn-shorter settings.source.text fits (peek s ∷ []) h (omega arith) o in
          if_rule (QuoteRound start w (ignore, s)) (peek s == b'\n')
            (λ _. leave (record {
              bytes = h.bytes;
              read = Open-report settings missing_closing_quote (offset s) [] refl h.read;
            }))
            λ _.
              if_rule (QuoteRound start w (ignore, s)) (peek s == b'\\') (λ _. again more shorter)
                λ _.
                  if_rule (QuoteRound start w (ignore, s)) (peek s == quote && not ignore)
                    (λ _. leave more)
                    λ _.
                      if_rule (QuoteRound start w (ignore, s)) ignore (λ _. again more shorter)
                        (λ _. again more shorter)

  pub on_quote-Closed :
      {s : Lexer} (kind : TokenKind) (quote : ℕ) (r : Bytes)
      → Lexed settings.source.text s
      → s.cursor.rest ≡ quote ∷ r
      → Closed settings.source.text s.cursor.position (on_quote settings kind quote s)
  unfolding on_quote consume_quoted
  on_quote-Closed {s} kind quote r h q = begin settings.source.text fits _ h q λ o.
      let read =
        loop_rule (λ (p : Bool × Lexer). Read s.cursor.position (quote ∷ []) p.1)
          (Read s.cursor.position (quote ∷ [])) (λ p. length p.1.cursor.rest) (λ (_, t). t)
          (quote_round settings quote)
          (λ (b, t) g. quote_round-Round s.cursor.position (quote ∷ []) quote b t g)
          (suc (length (advance s).cursor.rest)) (false, advance s) (omega arith)
          (ReadOn-none settings.source.text fits o) in
      word_put settings.source.text fits kind
        (ReadOn-pos settings.source.text fits read (omega arith)) read.read
