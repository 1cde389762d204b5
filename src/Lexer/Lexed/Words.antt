-- ===== src/Lexer/Lexed/Words.antt =====
-- A word is read to its end: what the loop of `consume_word` has read, whatever the bytes are.
use cero.Common.{
  ℕ, zero, suc, ◌+◌, ◌-◌, ◌*◌, ◌^◌, ◌≤◌, ◌<◌, ◌≡◌, refl, sym, subst, arith, Bool, true, false, ◌⊎◌,
  inl, inr, [], ◌∷◌, ◌++◌, append_assoc, append-nil, Bytes, length, length-append, if_rule, ◌==◌,
}
use cero.Common.Loop.{Flow, Round, again, leave, loop_rule}
use cero.Lexer.Reading.{Reading, Open, Reading-cons}
use cero.Lexer.Reading.Moves.{Open-advance, Open-report, peek→rest, further→shorter}
use cero.Lexer.State.{Lexer, Settings, peek, advance, get_offset_and_advance}
use cero.Lexer.Words.{
  next_bytes, in_range, countl_one, check_char, consume_multibyte_utf8_char, go_on, word_round,
  consume_word,
}
use cero.Report.{invalid_character, number, valid_for_message}
use cero.Source.Cursor
use cero.Source.Cursor.{SourceCursor}
use cero.Source.{source_size_max}
use cero.Unicode.{is_ascii, is_ascii_identifier_char, is_utf8_xid_continue_char}
use Prim.Native.Nat.{bit_or}

-- No null byte stands before the first byte that is not ASCII.
abbrev pub NullFree : Bytes → Type 0
NullFree [] = Unit
NullFree (b ∷ bs) = (128 ≤ b) ⊎ ((0 < b) × NullFree bs)

pub NullFree-append : (u v : Bytes) → NullFree u → NullFree v → NullFree (u ++ v)
NullFree-append [] v h k = k
NullFree-append (b ∷ bs) v (inl h) k = inl h
NullFree-append (b ∷ bs) v (inr (p, h)) k = inr (p, NullFree-append bs v h k)

advance-Reading :
    (source : Bytes) (start : ℕ) (w : Bytes) (c : SourceCursor) (rest : Bytes)
    → c.rest ≡ rest
    → Reading source start w c
    → (v : Bytes) × Reading source start (w ++ v) (Cursor.advance_from rest c)
unfolding Cursor.advance_from
advance-Reading source start w c [] e h =
    ([], subst (λ x. Reading source start x c) (sym (append-nil w)) h)
advance-Reading source start w c (b ∷ r) e h = (b ∷ [], Reading-cons source start w c b r h e)

next_bytes-Reading :
    (source : Bytes) (start : ℕ) (w : Bytes) (n i acc : ℕ) (c : SourceCursor)
    → Reading source start w c
    → (v : Bytes) × Reading source start (w ++ v) (next_bytes n i acc c).1
unfolding next_bytes Cursor.next Cursor.advance
next_bytes-Reading source start w zero i acc c h =
    ([], subst (λ x. Reading source start x c) (sym (append-nil w)) h)
next_bytes-Reading source start w (suc n) i acc c h =
    let (v, k) = advance-Reading source start w c c.rest refl h in
    let (x, l) =
      next_bytes-Reading source start (w ++ v) n (i + 1)
        (bit_or acc ((Cursor.next c).0 * 2 ^ (i * 8))) (Cursor.next c).1 k in
    (
      v ++ x,
      subst (λ y. Reading source start y (next_bytes (suc n) i acc c).1) (append_assoc w v x) l,
    )

module _ (settings : Settings) (fits : length settings.source.text ≤ source_size_max)
    (start : ℕ) where
  check_char-Open :
      (w : Bytes) (offset : ℕ) (utf8_predicate : ℕ → Bool) (utf8_char : ℕ) (s : Lexer)
      → Open settings.source.text start w s
      → Open settings.source.text start w (check_char settings offset utf8_predicate utf8_char s).1
  unfolding check_char valid_for_message
  check_char-Open w offset utf8_predicate utf8_char s o =
      if_rule (λ (p : Bool × Lexer). Open settings.source.text start w p.1)
        (utf8_predicate utf8_char) (λ _. o)
        (λ _. Open-report settings invalid_character offset (number utf8_char ∷ []) refl o)

  -- What was read before a character of several bytes is followed by bytes of the character.
  pub multibyte-Open :
      (w : Bytes) (begin offset : ℕ) (utf8_predicate : ℕ → Bool) (s : Lexer)
      → Open settings.source.text start w s
      → (v : Bytes) × Open settings.source.text start
          (w ++ v)
          (consume_multibyte_utf8_char settings begin offset utf8_predicate s).1
  unfolding consume_multibyte_utf8_char valid_for_message
  multibyte-Open w begin offset utf8_predicate s o =
      if_rule (λ (p : Bool × Lexer). (v : Bytes) × Open settings.source.text start (w ++ v) p.1)
        (in_range (countl_one begin))
        (λ _.
          let (v, k) =
            next_bytes-Reading settings.source.text start w (countl_one begin - 1) 1 begin s.cursor
              o.reading in
          (
            v,
            check_char-Open (w ++ v) offset utf8_predicate _ _
                (record { reading = k; tiled = o.tiled; valid = o.valid }),
          ))
        (λ _. (
          [],
          Open-report settings invalid_character offset (number begin ∷ []) refl
              (subst (λ x. Open settings.source.text start x s) (sym (append-nil w)) o),
        ))

  -- What `consume_word` has read behind `w`.
  pub record WordRead (w : Bytes) (s : Lexer) : Type 0 where
    pub word : Bytes
    pub null_free : NullFree word
    pub read : Open settings.source.text start (w ++ word) s

  abbrev WordRound : Bytes → Lexer → Flow Lexer Lexer → Type 0
  WordRound w s f = Round (WordRead w) (WordRead w) (λ t. length t.cursor.rest) s f

  nothing_read : (w : Bytes) (s : Lexer) → Open settings.source.text start w s → WordRead w s
  nothing_read w s o = record {
    word = [];
    null_free = tt;
    read = subst (λ x. Open settings.source.text start x s) (sym (append-nil w)) o;
  }

  -- More bytes of the word, read by `t`.
  word_more :
      (w v : Bytes) (s t : Lexer) (h : WordRead w s)
      → NullFree v
      → Open settings.source.text start ((w ++ h.word) ++ v) t
      → WordRead w t
  word_more w v s t h k o = record {
    word = h.word ++ v;
    null_free = NullFree-append h.word v h.null_free k;
    read = subst (λ x. Open settings.source.text start x t) (append_assoc w h.word v) o;
  }

  word_shorter :
      (w v : Bytes) (s t : Lexer) (h : WordRead w s)
      → 0 < length v
      → Open settings.source.text start ((w ++ h.word) ++ v) t
      → length t.cursor.rest < length s.cursor.rest
  word_shorter w v s t h p o =
      further→shorter settings.source.text start (w ++ h.word) ((w ++ h.word) ++ v) s t h.read o
        (omega (arith, length-append (w ++ h.word) v))

  go_on-Round :
      (w : Bytes) (s : Lexer) (p : Bool × Lexer)
      → WordRead w p.1
      → length p.1.cursor.rest < length s.cursor.rest
      → WordRound w s (go_on p)
  unfolding go_on
  go_on-Round w s (true, t) h l = again h l
  go_on-Round w s (false, t) h l = leave h

  identifier_char_pos : (c : ℕ) → is_ascii_identifier_char c ≡ true → 0 < c
  unfolding is_ascii_identifier_char
  identifier_char_pos c h = ground arith

  not_ascii_ge : (c : ℕ) → is_ascii c ≡ false → 128 ≤ c
  unfolding is_ascii
  not_ascii_ge c h = ground arith

  multibyte-Round :
      (w : Bytes) (s : Lexer) (h : WordRead w s) (offset c : ℕ)
      → 128 ≤ c
      → Open settings.source.text start ((w ++ h.word) ++ c ∷ []) (advance s)
      → WordRound w s (
          go_on
            (consume_multibyte_utf8_char settings c offset is_utf8_xid_continue_char (advance s)))
  multibyte-Round w s h offset c ge o =
      let (v, k) =
        multibyte-Open ((w ++ h.word) ++ c ∷ []) c offset is_utf8_xid_continue_char (advance s) o in
      let t =
        (consume_multibyte_utf8_char settings c offset is_utf8_xid_continue_char (advance s)).1 in
      let k' =
        subst (λ x. Open settings.source.text start x t) (append_assoc (w ++ h.word) (c ∷ []) v)
          k in
      go_on-Round w s
        (consume_multibyte_utf8_char settings c offset is_utf8_xid_continue_char (advance s))
        (word_more w (c ∷ v) s t h (inl ge) k') (word_shorter w (c ∷ v) s t h (omega arith) k')

  word_round-Round : (w : Bytes) (s : Lexer) → WordRead w s → WordRound w s (word_round settings s)
  unfolding word_round get_offset_and_advance
  word_round-Round w s h =
      if_rule (WordRound w s) (peek s == 0) (λ _. leave h)
        λ nz.
          let (r, q) = peek→rest s nz in
          let o =
            Open-advance settings.source.text fits start (w ++ h.word) s (peek s) r h.read q in
          if_rule (WordRound w s) (is_ascii_identifier_char (peek s))
            (λ id.
              again
                (word_more w (peek s ∷ []) s (advance s) h
                  (inr (identifier_char_pos (peek s) id, tt)) o)
                (word_shorter w (peek s ∷ []) s (advance s) h (omega arith) o))
            λ _.
              if_rule (WordRound w s) (is_ascii (peek s)) (λ _. leave h)
                λ na. multibyte-Round w s h _ (peek s) (not_ascii_ge (peek s) na) o

  -- `consume_word` reads on from what was read, and stops before its fuel does.
  pub consume_word-WordRead :
      (w : Bytes) (s : Lexer)
      → Open settings.source.text start w s
      → WordRead w (consume_word settings s)
  unfolding consume_word
  consume_word-WordRead w s o =
      loop_rule (WordRead w) (WordRead w) (λ t. length t.cursor.rest) (λ t. t) (word_round settings)
        (word_round-Round w) (suc (length s.cursor.rest)) s (omega arith) (nothing_read w s o)
