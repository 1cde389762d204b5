-- ===== src/Lexer/Reading/Moves.antt =====
-- What the small methods of the lexer (cero/syntax/lexer.cc) do to the bytes read.
use cero.Common.{
  substr_in, ℕ, ◌+◌, ◌%◌, ◌^◌, ◌≤◌, ◌<◌, ◌≡◌, refl, sym, ◌∙◌, ap, subst, arith, true, false, some,
  List, [], ◌∷◌, ◌++◌, Bytes, length, drop, take, All-append, drop_behind, take-length,
  append_assoc, length-append, if_rule, ltb, ◌==◌,
}
use cero.Lexer.State.{
  Lexer, Settings, peek, advance, offset, put, put_sized, get_offset_and_advance, if_match, report,
  length_from, sub_size,
}
use cero.Lexer.Tiles.{Tiled, IsValidReport}
use cero.Report.{Message, MessageArg, valid_for_message}
use cero.Source.Cursor
use cero.Source.Cursor.{SourceCursor, is_match}
use cero.Source.{source_size_max}
use cero.Token.{TokenKind, make_token, get_text, fixed_text}
use cero.Lexer.Reading.{
  Tiled-extend, Tiled-append, Reading, Open, Lexed, Closed, Reading-behind, is_match→eq,
  Reading-cons, Reading-restart,
}

module _ (source : Bytes) (fits : length source ≤ source_size_max) (start : ℕ) where
  pub Open-advance :
      (w : Bytes) (s : Lexer) (b : ℕ) (r : Bytes)
      → Open source start w s
      → s.cursor.rest ≡ b ∷ r
      → Open source start (w ++ b ∷ []) (advance s)
  unfolding advance Cursor.advance
  Open-advance w s b r o e = record {
    reading =
        subst (λ rest. Reading source start (w ++ b ∷ []) (Cursor.advance_from rest s.cursor))
          (sym e)
          (unfold Cursor.advance_from in Reading-cons source start w s.cursor b r o.reading e);
    tiled = o.tiled;
    valid = o.valid;
  }

  -- Both branches of a match, the first with one more byte read.
  pub match_rule {ℓ ℓ'} :
      {A : Type ℓ} (P : A → Type ℓ') (w : Bytes) (b : ℕ) (matched failed : Lexer → A) (s : Lexer)
      → Open source start w s
      → (Open source start (w ++ b ∷ []) (advance s) → P (matched (advance s)))
      → P (failed s)
      → P (if_match b matched failed s)
  unfolding if_match is_match
  match_rule P w b matched failed s o k l =
      if_rule P (is_match b s.cursor.rest)
        (λ e. let (r, q) = is_match→eq b s.cursor.rest e in k (Open-advance w s b r o q)) (λ _. l)

  pub offset_lem : (s : Lexer) (w : Bytes) → Open source start w s → offset s ≡ start + length w
  unfolding offset Cursor.offset
  offset_lem s w o = omega (arith, o.reading.here, o.reading.inside)

  pub length_from_lem :
      (s : Lexer) (w : Bytes) → Open source start w s → length_from start s ≡ length w
  unfolding length_from offset Cursor.offset sub_size
  length_from_lem s w o = omega (arith, o.reading.here, o.reading.inside)

  -- A token with a text that has been read stands at `start`.
  pub token_stands :
      (w u : Bytes) (kind : TokenKind) (size : ℕ) (c : SourceCursor)
      → Reading source start (w ++ u) c
      → 0 < length w
      → get_text (make_token kind start size) source ≡ some w
      → Tiled source start (make_token kind start size ∷ []) (start + length w)
  unfolding make_token
  token_stands w u kind size c o p e =
      let short : start < 2 ^ 24 = omega (arith, o.here, o.inside) in
      let same : start % 2 ^ 24 ≡ start = omega arith in
      let split : drop start source ≡ w ++ (u ++ c.rest) = o.split ∙ append_assoc w u c.rest in
      (
        w,
        omega (arith, same),
        record {
          text_is = e;
          nonempty = p;
          stands =
              rw same (split ∙ ap (◌++◌ w) (sym (drop_behind start source w (u ++ c.rest) split)));
        },
        omega (arith, same),
      )

  pub put_rule :
      (w u : Bytes) (kind : TokenKind) (size : ℕ) (s : Lexer)
      → Open source start (w ++ u) s
      → 0 < length w
      → get_text (make_token kind start size) source ≡ some w
      → Closed source start (put_sized kind start size s)
  unfolding put_sized
  put_rule w u kind size s o p e = record {
    lexed = record {
      reading = Reading-restart source start (w ++ u) s.cursor o.reading;
      tiled =
          Tiled-extend source 0 _ (start + length w) s.cursor.position
            (Tiled-append source 0 s.tokens start _ (start + length w) o.tiled
              (token_stands w u kind size s.cursor o.reading p e))
            (omega (arith, o.reading.here, length-append w u));
      valid = o.valid;
    };
    further = omega (arith, o.reading.here, length-append w u);
  }

  pub put_fixed :
      (w u : Bytes) (kind : TokenKind) (s : Lexer)
      → Open source start (w ++ u) s
      → 0 < length w
      → fixed_text kind ≡ some w
      → Closed source start (put kind start s)
  unfolding put get_text make_token
  put_fixed w u kind s o p e = put_rule w u kind 0 s o p e

  pub word_text :
      (w u : Bytes) (kind : TokenKind) (c : SourceCursor)
      → Reading source start (w ++ u) c
      → 0 < length w
      → get_text (make_token kind start (length w)) source ≡ some w
  unfolding get_text make_token
  word_text w u kind c o p =
      let short : start < 2 ^ 24 = omega (arith, o.here, o.inside) in
      let same : start % 2 ^ 24 ≡ start = omega arith in
      let split : drop start source ≡ w ++ (u ++ c.rest) = o.split ∙ append_assoc w u c.rest in
      let test : ltb 0 (length w) ≡ true = ground arith in
      let inside : start ≤ length source = omega (arith, o.here, o.inside) in
      rw (test, same)
        (substr_in start (length w) source inside
          ∙ ap some (ap (take (length w)) split ∙ take-length w (u ++ c.rest)))

  pub put_word :
      (w u : Bytes) (kind : TokenKind) (s : Lexer)
      → Open source start (w ++ u) s
      → 0 < length w
      → Closed source start (put_sized kind start (length w) s)
  unfolding get_text make_token
  put_word w u kind s o p =
      put_rule w u kind (length w) s o p (word_text w u kind s.cursor o.reading p)

  -- The first byte of a token: its offset is where the lexer stands.
  pub start_rule {ℓ ℓ'} :
      {A : Type ℓ} (P : A → Type ℓ') (b : ℕ) (r : Bytes) (continue : ℕ → Lexer → A) (s : Lexer)
      → Lexed source s
      → s.cursor.position ≡ start
      → s.cursor.rest ≡ b ∷ r
      → (Open source start (b ∷ []) (advance s) → P (continue start (advance s)))
      → P (get_offset_and_advance continue s)
  unfolding get_offset_and_advance offset Cursor.offset
  start_rule P b r continue s h e q k =
      let o : Open source start [] s = record {
        reading = subst (λ p. Reading source p [] s.cursor) e h.reading;
        tiled = rw e at h.tiled;
        valid = h.valid;
      } in
      let same : s.cursor.position % 2 ^ 32 ≡ start =
        omega (arith, o.reading.here, o.reading.inside) in
      rw same (k (Open-advance [] s b r o q))

  -- After a put the rest of what was read, behind a gap, may be put in turn.
  pub put_reopen :
      (w gap v : Bytes) (kind : TokenKind) (size : ℕ) (s : Lexer)
      → Open source start (w ++ (gap ++ v)) s
      → 0 < length w
      → get_text (make_token kind start size) source ≡ some w
      → Open source (start + length (w ++ gap)) v (put_sized kind start size s)
  unfolding put_sized
  put_reopen w gap v kind size s o p e =
      let more : length (w ++ gap) ≡ length w + length gap = length-append w gap in
      record {
        reading =
            Reading-behind source start (w ++ gap) v s.cursor
              (subst (λ x. Reading source start x s.cursor) (sym (append_assoc w gap v)) o.reading);
        tiled =
            Tiled-extend source 0 _ (start + length w) (start + length (w ++ gap))
              (Tiled-append source 0 s.tokens start _ (start + length w) o.tiled
                (token_stands w (gap ++ v) kind size s.cursor o.reading p e))
              (omega (arith, more));
        valid = o.valid;
      }

-- A byte that is not null stands at the front of the rest.
pub peek→rest : (s : Lexer) → (peek s == 0) ≡ false → (r : Bytes) × (s.cursor.rest ≡ peek s ∷ r)
unfolding peek Cursor.peek Cursor.first_or_null
peek→rest s h = peek_cases s.cursor.rest h
  where
    peek_cases :
        (rest : Bytes)
        → (Cursor.first_or_null rest == 0) ≡ false
        → (r : Bytes) × (rest ≡ Cursor.first_or_null rest ∷ r)
    peek_cases [] e = cc
    peek_cases (c ∷ r) e = (r, refl)

-- Bytes read later are bytes left fewer.
pub further→shorter :
    (source : Bytes) (start : ℕ) (w v : Bytes) (s t : Lexer)
    → Open source start w s
    → Open source start v t
    → length w < length v
    → length t.cursor.rest < length s.cursor.rest
further→shorter source start w v s t o p h =
    omega (arith, o.reading.here, o.reading.inside, p.reading.here, p.reading.inside)

-- A report with as many arguments as its message has places changes nothing else.
pub Open-report :
    (settings : Settings) {source : Bytes} {start : ℕ} {w : Bytes} {s : Lexer} (message : Message)
    (at : ℕ) (args : List MessageArg)
    → valid_for_message args message ≡ true
    → Open source start w s
    → Open source start w (report settings message at args s)
unfolding report
Open-report settings {source} {start} {w} {s} message at args e o = record {
  reading = o.reading;
  tiled = o.tiled;
  valid = All-append IsValidReport s.reports _ o.valid (e, tt);
}

-- A handler may also put nothing.
pub Open→Closed :
    (source : Bytes) (start : ℕ) (w : Bytes) (s : Lexer)
    → 0 < length w
    → Open source start w s
    → Closed source start s
Open→Closed source start w s p o = record {
  lexed = record {
    reading = Reading-restart source start w s.cursor o.reading;
    tiled =
        Tiled-extend source 0 s.tokens start s.cursor.position o.tiled
          (omega (arith, o.reading.here));
    valid = o.valid;
  };
  further = omega (arith, o.reading.here);
}
