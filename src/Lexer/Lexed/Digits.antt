-- ===== src/Lexer/Lexed/Digits.antt =====
-- What `consume_digit_sequence` reads and the length that it returns.
use cero.Common.{
  ℕ, suc, ◌+◌, ◌-◌, ◌≤◌, ◌<◌, ◌≡◌, sym, ◌∙◌, ap, subst, arith, Bool, true, false, not, [], ◌∷◌,
  ◌++◌, append_assoc, append-nil, length-append, Bytes, length, if_rule, if◌then◌else◌, ◌==◌,
  Bool-cases, inl, inr,
}
use cero.Common.Loop.{Flow, next, stop, Round, again, leave, loop_rule}
use cero.Lexer.Lexed.Rules.{ReadOn, ReadOn-none, ReadOn-more, ReadOn-shorter, ReadOn-advance}
use cero.Lexer.Numbers.{whitespace_round, skip_whitespace, digit_round, consume_digit_sequence}
use cero.Lexer.Reading.{Open}
use cero.Lexer.Reading.Moves.{peek→rest}
use cero.Lexer.State.{Lexer, peek, advance, offset, length_from, sub_size}
use cero.Source.Cursor
use cero.Source.{source_size_max}
use cero.Unicode.{is_ascii_whitespace}

whitespace_ne_null : (c : ℕ) → is_ascii_whitespace c ≡ true → (c == 0) ≡ false
unfolding is_ascii_whitespace
whitespace_ne_null c h = ground arith

module _ (source : Bytes) (fits : length source ≤ source_size_max) where
  abbrev Read : ℕ → Bytes → Lexer → Type 0
  Read = ReadOn source fits

  -- There is a byte to read.
  record Ahead (start : ℕ) (w : Bytes) (s : Lexer) : Type 0 where
    so_far : Read start w s
    later : Bytes
    front : s.cursor.rest ≡ peek s ∷ later

  -- Something was read.
  record Skipped (start : ℕ) (w : Bytes) (s : Lexer) : Type 0 where
    skipped : Read start w s
    some_read : 0 < length skipped.bytes

  whitespace_round-Round :
      (start : ℕ) (w : Bytes) (s : Lexer)
      → Ahead start w s
      → Round (Ahead start w) (Skipped start w) (λ t. length t.cursor.rest) s (whitespace_round s)
  unfolding whitespace_round ReadOn-more
  whitespace_round-Round start w s h =
      let o = ReadOn-advance source fits (peek s) h.later h.so_far h.front in
      let more = ReadOn-more source fits (peek s ∷ []) h.so_far o in
      if_rule (Round (Ahead start w) (Skipped start w) (λ t. length t.cursor.rest) s)
        (is_ascii_whitespace (peek (advance s)))
        (λ e.
          let (r, q) = peek→rest (advance s) (whitespace_ne_null (peek (advance s)) e) in
          again (record { so_far = more; later = r; front = q })
            (ReadOn-shorter source fits (peek s ∷ []) h.so_far (omega arith) o))
        (λ _. leave (record {
          skipped = more;
          some_read = omega (arith, length-append h.so_far.bytes (peek s ∷ []));
        }))

  skip_whitespace-Skipped :
      (start : ℕ) (w : Bytes) (s : Lexer) → Ahead start w s → Skipped start w (skip_whitespace s)
  unfolding skip_whitespace
  skip_whitespace-Skipped start w s h =
      loop_rule (Ahead start w) (Skipped start w) (λ t. length t.cursor.rest) (λ t. t)
        whitespace_round (whitespace_round-Round start w) (suc (length s.cursor.rest)) s
        (omega arith) h

  length_from_behind :
      (start k : ℕ) (w : Bytes) (s : Lexer)
      → Open source start w s
      → k ≤ length w
      → length_from (start + k) s ≡ length w - k
  unfolding length_from offset sub_size Cursor.offset
  length_from_behind start k w s o l = omega (arith, o.reading.here, o.reading.inside)

  -- The bytes `a` and `b` were read before; the length counts from behind `a`, and leaves out the
  -- white space at the end.
  pub record Digits (start : ℕ) (a b : Bytes) (p : ℕ × Lexer) : Type 0 where
    pub digits : Bytes
    pub gap : Bytes
    pub length_is : p.0 ≡ length (b ++ digits)
    pub read : Open source start ((a ++ (b ++ digits)) ++ gap) p.1

  stop_here :
      (start : ℕ) (a b : Bytes) (s t : Lexer) (gap : Bytes) (h : Read start (a ++ b) s)
      → Open source start (((a ++ b) ++ h.bytes) ++ gap) t
      → Digits start a b (length_from (start + length a) s, t)
  stop_here start a b s t gap h o = record {
    digits = h.bytes;
    gap = gap;
    length_is =
        length_from_behind start (length a) ((a ++ b) ++ h.bytes) s h.read
          (omega (arith, length-append (a ++ b) h.bytes, length-append a b))
        ∙ omega (arith, length-append (a ++ b) h.bytes, length-append a b, length-append b h.bytes);
    read = subst (λ x. Open source start (x ++ gap) t) (append_assoc a b h.bytes) o;
  }

  module _ (digit_predicate : ℕ → Bool) (not_null : digit_predicate 0 ≡ false) where
    digit_ne_null : (c : ℕ) → digit_predicate c ≡ true → (c == 0) ≡ false
    digit_ne_null c h = elim (Bool-cases (c == 0)) [
      | inl e ↦ let z : c ≡ 0 = ground arith in cc (not_null, h, ap digit_predicate z)
      | inr e ↦ e
    ]

    abbrev DigitRound : ℕ → Bytes → Bytes → Lexer → Flow Lexer (ℕ × Lexer) → Type 0
    DigitRound start a b s f =
        Round (Read start (a ++ b)) (Digits start a b) (λ t. length t.cursor.rest) s f

    digit_round-Round :
        (start : ℕ) (a b : Bytes) (s : Lexer)
        → Read start (a ++ b) s
        → DigitRound start a b s (digit_round digit_predicate (start + length a) s)
    unfolding digit_round
    digit_round-Round start a b s h =
        let all = (a ++ b) ++ h.bytes in
        let here : Digits start a b (length_from (start + length a) s, s) =
          stop_here start a b s s [] h
            (subst (λ x. Open source start x s) (sym (append-nil all)) h.read) in
        if_rule (DigitRound start a b s) (peek s == 0) (λ _. leave here)
          λ nz.
            let (r, q) = peek→rest s nz in
            let o = ReadOn-advance source fits (peek s) r h q in
            if_rule (DigitRound start a b s) (digit_predicate (peek s))
              (λ _.
                again (ReadOn-more source fits (peek s ∷ []) h o)
                  (ReadOn-shorter source fits (peek s ∷ []) h (omega arith) o))
              λ _.
                if_rule (DigitRound start a b s) (not (is_ascii_whitespace (peek s)))
                  (λ _. leave here) λ _. spaces start a b s h r q
      where
        spaces :
            (start : ℕ) (a b : Bytes) (s : Lexer) (h : Read start (a ++ b) s) (r : Bytes)
            → s.cursor.rest ≡ peek s ∷ r
            → DigitRound start a b s (
                let t = skip_whitespace s in
                if digit_predicate (peek t)
                then next (advance t)
                else stop (length_from (start + length a) s, t))
        spaces start a b s h r q =
            let all = (a ++ b) ++ h.bytes in
            let t = skip_whitespace s in
            let g =
              skip_whitespace-Skipped start all s
                (record { so_far = ReadOn-none source fits h.read; later = r; front = q }) in
            if_rule (DigitRound start a b s) (digit_predicate (peek t))
              (λ e.
                let (r', q') = peek→rest t (digit_ne_null (peek t) e) in
                let v = g.skipped.bytes ++ peek t ∷ [] in
                let o : Open source start (all ++ v) (advance t) =
                  subst (λ x. Open source start x (advance t))
                    (append_assoc all g.skipped.bytes (peek t ∷ []))
                    (ReadOn-advance source fits (peek t) r' g.skipped q') in
                again (ReadOn-more source fits v h o) (
                  ReadOn-shorter source fits v h
                    (omega (arith, length-append g.skipped.bytes (peek t ∷ []))) o))
              (λ _. leave (stop_here start a b s t g.skipped.bytes h g.skipped.read))

    pub consume_digit_sequence-Digits :
        (start : ℕ) (a b : Bytes) (s : Lexer)
        → Open source start (a ++ b) s
        → Digits start a b (consume_digit_sequence digit_predicate (start + length a) s)
    unfolding consume_digit_sequence
    consume_digit_sequence-Digits start a b s o =
        loop_rule (Read start (a ++ b)) (Digits start a b) (λ t. length t.cursor.rest)
          (λ t. (length_from (start + length a) t, t))
          (digit_round digit_predicate (start + length a)) (digit_round-Round start a b)
          (suc (length s.cursor.rest)) s (omega arith) (ReadOn-none source fits o)
