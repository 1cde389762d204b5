-- ===== src/Lexer/Lexed/Identifiers.antt =====
-- Identifiers and keywords are put where they stand (`on_alphabetic`,
-- `on_alphabetic_maybe_keyword`, `keyword_handler`, `on_other_char`).
use cero.Common.{
  ℕ, ◌+◌, ◌-◌, ◌≤◌, ◌<◌, ◌≡◌, sym, ◌∙◌, ap, subst, arith, Bool, true, false, Option, none, some,
  List, [], ◌∷◌, ◌++◌, length-append, Bytes, length, All, All-drop, All-append_left, take, drop,
  take-length, drop_behind, if_rule, leb, ◌==◌, ==→eq,
}
use cero.Keywords.{KeywordTail, encode, get_keyword_tails}
use cero.Lexer.Lexed.Keywords.{
  IsByte, IsTail, AllTails, encode-injective, get_keyword_tails-AllTails,
}
use cero.Lexer.Lexed.Rules.{begin, fixed, word_put}
use cero.Lexer.Lexed.Words.{NullFree, consume_word-WordRead, multibyte-Open}
use cero.Lexer.Reading.{Open, Lexed, Closed}
use cero.Lexer.Reading.Moves.{length_from_lem, Open→Closed}
use cero.Lexer.State.{Lexer, Settings, length_from, advance}
use cero.Lexer.Words.{
  consume_word, on_alphabetic, match_tails, on_alphabetic_maybe_keyword, select_handler,
  keyword_handler, on_other_word, on_other_char,
}
use cero.Source.{source_size_max}
use cero.Token.{identifier}
use cero.Unicode.{is_utf8_xid_start_char}

module _ (settings : Settings) (fits : length settings.source.text ≤ source_size_max) where
  pub on_alphabetic-Closed :
      {s : Lexer} (b : ℕ) (r : Bytes)
      → Lexed settings.source.text s
      → s.cursor.rest ≡ b ∷ r
      → Closed settings.source.text s.cursor.position (on_alphabetic settings s)
  unfolding on_alphabetic
  on_alphabetic-Closed {s} b r h q = begin settings.source.text fits _ h q λ o.
      word_put settings.source.text fits identifier (omega arith)
        (consume_word-WordRead settings fits s.cursor.position (b ∷ []) (advance s) o).read

  match_tails-Closed :
      {start : ℕ} (b : ℕ) (u : Bytes) (ts : List KeywordTail) (fallback : Lexer → Lexer) (s : Lexer)
      → All (IsTail b) ts
      → All IsByte u
      → NullFree u
      → Open settings.source.text start (b ∷ u) s
      → Closed settings.source.text start (fallback s)
      → Closed settings.source.text start (match_tails ts (encode u) start fallback s)
  unfolding match_tails
  match_tails-Closed b u [] fallback s h y n o k = k
  match_tails-Closed {start} b u (t ∷ ts) fallback s h y n o k =
      if_rule (Closed settings.source.text start) (t.tail == encode u)
        (λ e.
          let same =
            encode-injective u h.0.letters y n h.0.plain
              (sym h.0.tail_is ∙ ==→eq t.tail (encode u) e) in
          fixed settings.source.text fits t.kind (omega arith)
            (h.0.text_is ∙ ap (λ v. some (b ∷ v)) same) o)
        (λ _. match_tails-Closed b u ts fallback s h.1 y n o k)

  -- `source_text_.substr(offset + 1, length - 1)` is the word without its first character.
  tail_lem :
      {start : ℕ} (b : ℕ) (u : Bytes) (s : Lexer)
      → Open settings.source.text start (b ∷ u) s
      → take (length_from start s - 1) (drop (start + 1) settings.source.text) ≡ u
  tail_lem {start} b u s o =
      let size : length_from start s - 1 ≡ length u =
        omega (arith, length_from_lem settings.source.text fits start s (b ∷ u) o) in
      rw
        (size, drop_behind start settings.source.text (b ∷ []) (u ++ s.cursor.rest) o.reading.split)
        (take-length u s.cursor.rest)

  module _ (bytes : All IsByte settings.source.text) where
    word-IsByte :
        {start : ℕ} (b : ℕ) (u : Bytes) (s : Lexer)
        → Open settings.source.text start (b ∷ u) s
        → All IsByte u
    word-IsByte {start} b u s o =
        (All-append_left IsByte (b ∷ u) s.cursor.rest
          (subst (All IsByte) o.reading.split (All-drop IsByte start settings.source.text bytes))).1

    on_alphabetic_maybe_keyword-Closed :
        {s : Lexer} (ts : List KeywordTail) (b : ℕ) (r : Bytes)
        → All (IsTail b) ts
        → Lexed settings.source.text s
        → s.cursor.rest ≡ b ∷ r
        → Closed settings.source.text s.cursor.position (on_alphabetic_maybe_keyword settings ts s)
    unfolding on_alphabetic_maybe_keyword
    on_alphabetic_maybe_keyword-Closed {s} ts b r tails h q =
        begin settings.source.text fits _ h q λ o.
          let t = consume_word settings (advance s) in
          let word = consume_word-WordRead settings fits s.cursor.position (b ∷ []) (advance s) o in
          let put_it = word_put settings.source.text fits identifier (omega arith) word.read in
          if_rule (Closed settings.source.text s.cursor.position)
            (leb (length_from s.cursor.position t) 9)
            (λ _. rw (tail_lem b word.word t word.read) (
              match_tails-Closed b word.word ts _ t tails (word-IsByte b word.word t word.read)
                word.null_free word.read put_it))
            (λ _. put_it)

    select_handler-Closed :
        {s : Lexer} (b : ℕ) (r : Bytes) (tails : Option (List KeywordTail))
        → AllTails b tails
        → Lexed settings.source.text s
        → s.cursor.rest ≡ b ∷ r
        → Closed settings.source.text s.cursor.position (select_handler settings tails s)
    unfolding select_handler
    select_handler-Closed b r none a = on_alphabetic-Closed b r
    select_handler-Closed b r (some []) a = on_alphabetic-Closed b r
    select_handler-Closed b r (some (t ∷ ts)) a = on_alphabetic_maybe_keyword-Closed (t ∷ ts) b r a

    pub keyword_handler-Closed :
        {s : Lexer} (b : ℕ) (r : Bytes)
        → Lexed settings.source.text s
        → s.cursor.rest ≡ b ∷ r
        → Closed settings.source.text s.cursor.position (keyword_handler settings b s)
    unfolding keyword_handler
    keyword_handler-Closed b r =
        select_handler-Closed b r (get_keyword_tails b) (get_keyword_tails-AllTails b)

  other_word-Closed :
      {start : ℕ} (w : Bytes) (p : Bool × Lexer)
      → 0 < length w
      → Open settings.source.text start w p.1
      → Closed settings.source.text start (on_other_word settings start p)
  unfolding on_other_word
  other_word-Closed {start} w (true, s) p o =
      word_put settings.source.text fits identifier
        (omega (arith, length-append w (consume_word-WordRead settings fits start w s o).word))
        (consume_word-WordRead settings fits start w s o).read
  other_word-Closed {start} w (false, s) p o = Open→Closed settings.source.text start w s p o

  pub on_other_char-Closed :
      {s : Lexer} (b : ℕ) (r : Bytes)
      → Lexed settings.source.text s
      → s.cursor.rest ≡ b ∷ r
      → Closed settings.source.text s.cursor.position (on_other_char settings b s)
  unfolding on_other_char
  on_other_char-Closed {s} b r h q = begin settings.source.text fits _ h q λ o.
      let (v, k) =
        multibyte-Open settings fits s.cursor.position (b ∷ []) b s.cursor.position
          is_utf8_xid_start_char (advance s) o in
      other_word-Closed (b ∷ v) _ (omega arith) k
