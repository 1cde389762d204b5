-- ===== src/Lexer/Lexed/Comments.antt =====
-- Comments are read to their end and put, where they are wanted, as they stand.
use cero.Common.{
  ℕ, suc, ◌+◌, ◌-◌, ◌%◌, ◌^◌, ◌≤◌, ◌<◌, ◌≡◌, refl, arith, [], ◌∷◌, ◌++◌, Bytes, length, if_rule,
  ◌==◌, subst, append_assoc,
}
use cero.Common.Loop.{Flow, next, Round, again, leave, loop_rule}
use cero.Lexer.Comments.{
  has_flags, emit_comments, line_comment_round, consume_line_comment, close_comment,
  block_comment_round, consume_block_comment, put_comment, on_slash,
}
use cero.Lexer.Lexed.Rules.{
  begin, branch, fixed, word_put, ReadOn, ReadOn-none, ReadOn-more, ReadOn-shorter, ReadOn-advance,
  ReadOn-pos,
}
use cero.Lexer.Reading.{Open, Lexed, Closed}
use cero.Lexer.Reading.Moves.{Open→Closed, Open-report, match_rule, peek→rest}
use cero.Lexer.State.{Lexer, Settings, peek, advance}
use cero.Report.{unterminated_block_comment, valid_for_message}
use cero.Source.Cursor.{is_valid, valid→rest}
use cero.Source.{source_size_max}
use cero.Token.{TokenKind, line_comment, block_comment, fixed_text}

module _ (settings : Settings) (fits : length settings.source.text ≤ source_size_max) where
  abbrev Read : ℕ → Bytes → Lexer → Type 0
  Read = ReadOn settings.source.text fits

  line_comment_round-Round :
      (start : ℕ) (w : Bytes) (s : Lexer)
      → Read start w s
      → Round (Read start w) (Read start w) (λ t. length t.cursor.rest) s (line_comment_round s)
  unfolding line_comment_round
  line_comment_round-Round start w s h =
      if_rule (Round (Read start w) (Read start w) (λ t. length t.cursor.rest) s) (peek s == 0)
        (λ _. leave h)
        λ nz.
          let (r, q) = peek→rest s nz in
          let o = ReadOn-advance settings.source.text fits (peek s) r h q in
          if_rule (Round (Read start w) (Read start w) (λ t. length t.cursor.rest) s)
            (peek s == b'\n') (λ _. leave h)
            (λ _.
              again (ReadOn-more settings.source.text fits (peek s ∷ []) h o)
                (ReadOn-shorter settings.source.text fits (peek s ∷ []) h (omega arith) o))

  consume_line_comment-ReadOn :
      {start : ℕ} {w : Bytes} {s : Lexer}
      → Open settings.source.text start w s
      → Read start w (consume_line_comment s)
  unfolding consume_line_comment
  consume_line_comment-ReadOn {start} {w} {s} o =
      loop_rule (Read start w) (Read start w) (λ t. length t.cursor.rest) (λ t. t)
        line_comment_round (line_comment_round-Round start w) (suc (length s.cursor.rest)) s
        (omega arith) (ReadOn-none settings.source.text fits o)

  abbrev BlockRound : ℕ → Bytes → ℕ × Lexer → Flow (ℕ × Lexer) Lexer → Type 0
  BlockRound start w p f =
      Round (λ (q : ℕ × Lexer). Read start w q.1) (Read start w) (λ q. length q.1.cursor.rest) p f

  -- A round that has read more ends, or leaves less to read.
  go_round :
      (start : ℕ) (w v : Bytes) (n m : ℕ) (s t : Lexer) (h : Read start w s)
      → 0 < length v
      → Open settings.source.text start ((w ++ h.bytes) ++ v) t
      → BlockRound start w (n, s) (next (m, t))
  go_round start w v n m s t h p o =
      again (ReadOn-more settings.source.text fits v h o)
        (ReadOn-shorter settings.source.text fits v h p o)

  close_round :
      (start : ℕ) (w v : Bytes) (n : ℕ) (s t : Lexer) (h : Read start w s)
      → 0 < length v
      → Open settings.source.text start ((w ++ h.bytes) ++ v) t
      → BlockRound start w (n, s) (close_comment n t)
  unfolding close_comment
  close_round start w v n s t h p o =
      if_rule (BlockRound start w (n, s)) ((n + 2 ^ 32 - 1) % 2 ^ 32 == 0)
        (λ _. leave (ReadOn-more settings.source.text fits v h o))
        (λ _. go_round start w v n _ s t h p o)

  block_comment_round-Round :
      (start : ℕ) (w : Bytes) (n : ℕ) (s : Lexer)
      → Read start w s
      → BlockRound start w (n, s) (block_comment_round settings start (n, s))
  unfolding block_comment_round is_valid valid_for_message
  block_comment_round-Round start w n s h =
      if_rule (BlockRound start w (n, s)) (is_valid s.cursor)
        (λ e.
          let (b, r, q) = valid→rest s.cursor.rest e in
          match_rule settings.source.text fits start (BlockRound start w (n, s)) (w ++ h.bytes) b'*'
            _ _ s h.read
            (λ o.
              match_rule settings.source.text fits start (BlockRound start w (n, s))
                ((w ++ h.bytes) ++ b'*' ∷ []) b'/' _ _ (advance s) o
                (λ o'.
                  close_round start w (b'*' ∷ b'/' ∷ []) n s (advance (advance s)) h (omega arith)
                    (two h b'*' b'/' o'))
                (go_round start w (b'*' ∷ []) n n s (advance s) h (omega arith) o))
            (match_rule settings.source.text fits start (BlockRound start w (n, s)) (w ++ h.bytes)
              b'/' _ _ s h.read
              (λ o.
                match_rule settings.source.text fits start (BlockRound start w (n, s))
                  ((w ++ h.bytes) ++ b'/' ∷ []) b'*' _ _ (advance s) o
                  (λ o'.
                    go_round start w (b'/' ∷ b'*' ∷ []) n _ s (advance (advance s)) h (omega arith)
                      (two h b'/' b'*' o'))
                  (go_round start w (b'/' ∷ []) n n s (advance s) h (omega arith) o))
              (go_round start w (b ∷ []) n n s (advance s) h (omega arith)
                (ReadOn-advance settings.source.text fits b r h q))))
        (λ _. leave (record {
          bytes = h.bytes;
          read = Open-report settings unterminated_block_comment start [] refl h.read;
        }))
    where
      two :
          {t : Lexer} (g : Read start w s) (b c : ℕ)
          → Open settings.source.text start (((w ++ g.bytes) ++ b ∷ []) ++ c ∷ []) t
          → Open settings.source.text start ((w ++ g.bytes) ++ b ∷ c ∷ []) t
      two {t} g b c =
          subst (λ x. Open settings.source.text start x t)
            (append_assoc (w ++ g.bytes) (b ∷ []) (c ∷ []))

  consume_block_comment-ReadOn :
      {start : ℕ} {w : Bytes} {s : Lexer}
      → Open settings.source.text start w s
      → Read start w (consume_block_comment settings start s)
  unfolding consume_block_comment
  consume_block_comment-ReadOn {start} {w} {s} o =
      loop_rule (λ (q : ℕ × Lexer). Read start w q.1) (Read start w) (λ q. length q.1.cursor.rest)
        (λ (_, t). t) (block_comment_round settings start)
        (λ (n, t) h. block_comment_round-Round start w n t h) (suc (length s.cursor.rest)) (1, s)
        (omega arith) (ReadOn-none settings.source.text fits o)

  put_comment-Closed :
      {start : ℕ} {w : Bytes} (kind : TokenKind) {s : Lexer}
      → 0 < length w
      → Read start w s
      → Closed settings.source.text start (put_comment settings kind start s)
  unfolding put_comment
  put_comment-Closed {start} {w} kind {s} p h =
      if_rule (Closed settings.source.text start) (has_flags settings.flags emit_comments)
        (λ _.
          word_put settings.source.text fits kind (ReadOn-pos settings.source.text fits h p) h.read)
        (λ _.
          Open→Closed settings.source.text start (w ++ h.bytes) s
            (ReadOn-pos settings.source.text fits h p) h.read)

  pub on_slash-Closed :
      {s : Lexer} (r : Bytes)
      → Lexed settings.source.text s
      → s.cursor.rest ≡ b'/' ∷ r
      → Closed settings.source.text s.cursor.position (on_slash settings s)
  unfolding on_slash fixed_text
  on_slash-Closed {s} r h q = begin settings.source.text fits _ h q λ o.
      branch settings.source.text fits b'/' _ _ o
        (λ o'. put_comment-Closed line_comment (omega arith) (consume_line_comment-ReadOn o'))
        (branch settings.source.text fits b'*' _ _ o
          (λ o'. put_comment-Closed block_comment (omega arith) (consume_block_comment-ReadOn o'))
          (branch settings.source.text fits b'=' _ _ o
            (λ o'. fixed settings.source.text fits _ (omega arith) refl o')
            (fixed settings.source.text fits _ (omega arith) refl o)))
