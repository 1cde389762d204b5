-- ===== src/Lexer/Lexed/Rounds.antt =====
-- Every round of the main loop keeps the invariant and moves on.
use cero.Common.{
  ℕ, suc, ◌≤◌, ◌≡◌, refl, ◌∙◌, ap, arith, ◌||◌, [], ◌∷◌, Bytes, length, All, if_rule, if◌then◌else◌,
  ◌==◌, ==→eq,
}
use cero.Common.Loop.{Round, again, leave, Runs, loop_rule, loop-Runs}
use cero.Lexer.Lexed.Comments.{on_slash-Closed}
use cero.Lexer.Lexed.Identifiers.{
  on_alphabetic-Closed, keyword_handler-Closed, on_other_char-Closed,
}
use cero.Lexer.Lexed.Keywords.{IsByte}
use cero.Lexer.Lexed.Numbers.{on_zero-Closed, on_nonzero-Closed, on_dot-Closed}
use cero.Lexer.Lexed.Operators.{
  on_one_char_token-Closed, on_ampersand-Closed, on_bang-Closed, on_colon-Closed, on_equals-Closed,
  on_left_angle-Closed, on_minus-Closed, on_percent-Closed, on_pipe-Closed, on_plus-Closed,
  on_right_angle-Closed, on_star-Closed, on_tilde-Closed,
}
use cero.Lexer.Lexed.Quotes.{on_quote-Closed}
use cero.Lexer.Reading.{Open, Lexed, Closed}
use cero.Lexer.Reading.Moves.{Open→Closed, Open-advance, peek→rest}
use cero.Lexer.Run.{
  handle_symbol, is_between, handle_next_character, source_round, handle_characters,
}
use cero.Lexer.State.{Lexer, Settings, Op, peek, advance}
use cero.Lexer.Numbers.{on_dot}
use cero.Lexer.Operators.{
  on_left_angle, on_right_angle, on_colon, on_equals, on_plus, on_minus, on_star, on_percent,
  on_ampersand, on_pipe, on_tilde, on_bang, on_one_char_token,
}
use cero.Lexer.Comments.{on_slash}
use cero.Lexer.Quotes.{on_quote}
use cero.Source.{source_size_max}
use cero.Token.{
  l_paren, r_paren, l_bracket, r_bracket, l_brace, r_brace, comma, semicolon, caret, string_literal,
  char_literal, fixed_text,
}

module _ (settings : Settings) (fits : length settings.source.text ≤ source_size_max) where
  module _ (s : Lexer) (c : ℕ) (r : Bytes) (h : Lexed settings.source.text s) where
    -- A handler that keeps the invariant, where `k` stands at the front.
    record Handles (k : ℕ) (f : Op) : Type 0 where
      keeps : s.cursor.rest ≡ k ∷ r → Closed settings.source.text s.cursor.position (f s)

    record Case : Type 0 where
      char : ℕ
      handler : Op
      handles : Handles char handler

    case :
        (k : ℕ) (f : Op)
        → (s.cursor.rest ≡ k ∷ r → Closed settings.source.text s.cursor.position (f s))
        → Case
    case k f v = record { char = k; handler = f; handles = record { keeps = v } }

    infixr 1 ◌<|>◌
    ◌<|>◌ : {g : Op} (x : Case) → Handles c g → Handles c (if c == x.char then x.handler else g)
    x <|> w = record {
      keeps = λ q.
          if_rule (λ (f : Op). Closed settings.source.text s.cursor.position (f s)) (c == x.char)
            (λ e. x.handles.keeps (q ∙ ap (λ y. y ∷ r) (==→eq c x.char e))) (λ _. w.keeps q);
    }

    handle_symbol-Handles : Handles c (handle_symbol settings c)
    unfolding handle_symbol fixed_text case
    handle_symbol-Handles =
        case b'(' (on_one_char_token l_paren)
          (on_one_char_token-Closed settings.source.text fits r l_paren b'(' refl h)
        <|> case b')' (on_one_char_token r_paren)
            (on_one_char_token-Closed settings.source.text fits r r_paren b')' refl h)
        <|> case b'[' (on_one_char_token l_bracket)
            (on_one_char_token-Closed settings.source.text fits r l_bracket b'[' refl h)
        <|> case b']' (on_one_char_token r_bracket)
            (on_one_char_token-Closed settings.source.text fits r r_bracket b']' refl h)
        <|> case b'{' (on_one_char_token l_brace)
            (on_one_char_token-Closed settings.source.text fits r l_brace b'{' refl h)
        <|> case b'}' (on_one_char_token r_brace)
            (on_one_char_token-Closed settings.source.text fits r r_brace b'}' refl h)
        <|> case b',' (on_one_char_token comma)
            (on_one_char_token-Closed settings.source.text fits r comma b',' refl h)
        <|> case b';' (on_one_char_token semicolon)
            (on_one_char_token-Closed settings.source.text fits r semicolon b';' refl h)
        <|> case b'^' (on_one_char_token caret)
            (on_one_char_token-Closed settings.source.text fits r caret b'^' refl h)
        <|> case b'<' on_left_angle (on_left_angle-Closed settings.source.text fits r h)
        <|> case b'>' on_right_angle (on_right_angle-Closed settings.source.text fits r h)
        <|> case b'.' on_dot (on_dot-Closed settings.source.text fits r h)
        <|> case b':' on_colon (on_colon-Closed settings.source.text fits r h)
        <|> case b'=' on_equals (on_equals-Closed settings.source.text fits r h)
        <|> case b'+' on_plus (on_plus-Closed settings.source.text fits r h)
        <|> case b'-' on_minus (on_minus-Closed settings.source.text fits r h)
        <|> case b'*' on_star (on_star-Closed settings.source.text fits r h)
        <|> case b'/' (on_slash settings) (on_slash-Closed settings fits r h)
        <|> case b'%' on_percent (on_percent-Closed settings.source.text fits r h)
        <|> case b'&' on_ampersand (on_ampersand-Closed settings.source.text fits r h)
        <|> case b'|' on_pipe (on_pipe-Closed settings.source.text fits r h)
        <|> case b'~' on_tilde (on_tilde-Closed settings.source.text fits r h)
        <|> case b'!' on_bang (on_bang-Closed settings.source.text fits r h)
        <|> case b'"' (on_quote settings string_literal b'"')
            (on_quote-Closed settings fits string_literal b'"' r h)
        <|> case b'\'' (on_quote settings char_literal b'\'')
            (on_quote-Closed settings fits char_literal b'\'' r h)
        <|> record { keeps = on_other_char-Closed settings fits c r h }

  Lexed→Open :
      (s : Lexer) → Lexed settings.source.text s → Open settings.source.text s.cursor.position [] s
  Lexed→Open s h = record { reading = h.reading; tiled = h.tiled; valid = h.valid }

  module _ (bytes : All IsByte settings.source.text) where
    pub handle_next_character-Closed :
        (s : Lexer) (c : ℕ) (r : Bytes)
        → Lexed settings.source.text s
        → s.cursor.rest ≡ c ∷ r
        → Closed settings.source.text s.cursor.position (handle_next_character settings c s)
    unfolding handle_next_character
    handle_next_character-Closed s c r h q =
        if_rule Result
          (c == b' ' || c == b'\t' || c == b'\n' || c == 0x0b || c == 0x0c || c == b'\r')
          (λ _.
            Open→Closed settings.source.text s.cursor.position (c ∷ []) (advance s) (omega arith) (
              Open-advance settings.source.text fits s.cursor.position [] s c r (Lexed→Open s h) q))
          λ _.
            if_rule Result (is_between b'A' b'Z' c || c == b'_')
              (λ _. on_alphabetic-Closed settings fits c r h q)
              λ _.
                if_rule Result (is_between b'a' b'z' c)
                  (λ _. keyword_handler-Closed settings fits bytes c r h q)
                  λ _.
                    if_rule Result (c == b'0')
                      (λ e.
                        on_zero-Closed settings.source.text fits r h
                          (q ∙ ap (λ x. x ∷ r) (==→eq c b'0' e)))
                      λ _.
                        if_rule Result (is_between b'1' b'9' c)
                          (λ _. on_nonzero-Closed settings.source.text fits c r h q)
                          (λ _. (handle_symbol-Handles s c r h).keeps q)
      where
        Result : Op → Type 0
        Result f = Closed settings.source.text s.cursor.position (f s)

    source_round-Round :
        (s : Lexer)
        → Lexed settings.source.text s
        → Round
            (Lexed settings.source.text)
            (λ t. Lexed settings.source.text t × (peek t ≡ 0))
            (λ t. length t.cursor.rest)
            s
            (source_round settings s)
    unfolding source_round
    source_round-Round s h =
        if_rule
          (Round (Lexed settings.source.text) (λ t. Lexed settings.source.text t × (peek t ≡ 0))
            (λ t. length t.cursor.rest) s)
          (peek s == 0) (λ e. leave (h, ==→eq (peek s) 0 e))
          λ nz.
            let (r, q) = peek→rest s nz in
            let closed = handle_next_character-Closed s (peek s) r h q in
            again closed.lexed
              (omega (arith, closed.further, closed.lexed.reading.inside, h.reading.inside))

    -- The main loop stops at a null byte or at the end.
    pub handle_characters-Lexed :
        (s : Lexer)
        → Lexed settings.source.text s
        → Lexed settings.source.text (handle_characters settings s)
          × (peek (handle_characters settings s) ≡ 0)
    unfolding handle_characters
    handle_characters-Lexed s h =
        loop_rule (Lexed settings.source.text) (λ t. Lexed settings.source.text t × (peek t ≡ 0))
          (λ t. length t.cursor.rest) (λ t. t) (source_round settings) source_round-Round
          (suc (length s.cursor.rest)) s (omega arith) h

    pub handle_characters-Runs :
        (s : Lexer)
        → Lexed settings.source.text s
        → Runs (source_round settings) s (handle_characters settings s)
    unfolding handle_characters
    handle_characters-Runs s h =
        loop-Runs (Lexed settings.source.text) (λ t. Lexed settings.source.text t × (peek t ≡ 0))
          (λ t. length t.cursor.rest) (λ t. t) (source_round settings) source_round-Round
          (suc (length s.cursor.rest)) s (omega arith) h
