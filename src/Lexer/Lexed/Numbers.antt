-- ===== src/Lexer/Lexed/Numbers.antt =====
-- Numeric literals and dots are put where they stand.
use cero.Common.{
  ℕ, ◌+◌, ◌-◌, ◌%◌, ◌^◌, ◌≤◌, ◌<◌, ◌≡◌, refl, ◌∙◌, subst, arith, Bool, false, [], ◌∷◌, ◌++◌,
  append_assoc, length-append, Bytes, length, if_rule, ◌==◌, ltb, ==→eq,
}
use cero.Lexer.Lexed.Digits.{Digits, consume_digit_sequence-Digits}
use cero.Lexer.Lexed.Rules.{begin, branch}
use cero.Lexer.Numbers.{
  consume_digit_sequence, put_float, finish_decimal, handle_decimal_literal, put_digits, on_zero,
  on_nonzero, put_dot, on_dot,
}
use cero.Lexer.Reading.{Open, Lexed, Closed, Closed-le}
use cero.Lexer.Reading.Moves.{
  Open-advance, put_word, put_fixed, put_reopen, word_text, offset_lem, peek→rest,
}
use cero.Lexer.State.{Lexer, peek, advance, put, put_sized, get_offset_and_advance, sub_size}
use cero.Source.{source_size_max}
use cero.Token.{
  TokenKind, hex_int_literal, bin_int_literal, oct_int_literal, dec_int_literal, float_literal, dot,
  fixed_text,
}
use cero.Unicode.{is_decimal_digit, is_hexadecimal_digit}

module _ (source : Bytes) (fits : length source ≤ source_size_max) where
  decimal-Digits :
      {start : ℕ} (a b : Bytes) {s : Lexer}
      → Open source start (a ++ b) s
      → Digits source fits start a b (consume_digit_sequence is_decimal_digit (start + length a) s)
  unfolding is_decimal_digit
  decimal-Digits {start} a b {s} o =
      consume_digit_sequence-Digits source fits is_decimal_digit refl start a b s o

  -- With nothing read before the first digit.
  first-Digits :
      (digit_predicate : ℕ → Bool)
      → digit_predicate 0 ≡ false
      → {start : ℕ} (w : Bytes) {s : Lexer} → Open source start w s
      → Digits source fits start [] w (consume_digit_sequence digit_predicate start s)
  first-Digits digit_predicate e {start} w {s} o =
      subst (λ n. Digits source fits start [] w (consume_digit_sequence digit_predicate n s))
        (omega arith) (consume_digit_sequence-Digits source fits digit_predicate e start [] w s o)

  put_digits-Closed :
      {start : ℕ} {w : Bytes} (kind : TokenKind) (p : ℕ × Lexer)
      → 0 < length w
      → Digits source fits start [] w p
      → Closed source start (put_digits kind start p)
  unfolding put_digits
  put_digits-Closed {start} {w} kind (n, s) l d = rw d.length_is (
      put_word source fits start (w ++ d.digits) d.gap kind s d.read
        (omega (arith, length-append w d.digits)))

  -- `w` is the integer, and `gap` the white space between it and the dot.
  float_case :
      (start : ℕ) (w gap : Bytes) (n : ℕ) (s : Lexer)
      → Digits source fits start (w ++ gap) (b'.' ∷ []) (n, s)
      → Closed source start
          (put_sized float_literal start (sub_size (start + length (w ++ gap)) start + n) s)
  unfolding sub_size
  float_case start w gap n s g =
      let float = (w ++ gap) ++ b'.' ∷ g.digits in
      let more = length-append (w ++ gap) (b'.' ∷ g.digits) in
      let size : (start + length (w ++ gap) + 2 ^ 32 - start) % 2 ^ 32 + n ≡ length float = omega (
        arith,
        more,
        g.length_is,
        g.read.reading.here,
        g.read.reading.inside,
        length-append float g.gap,
      ) in
      rw size (put_word source fits start float g.gap float_literal s g.read (omega (arith, more)))

  dot_case :
      (start : ℕ) (w gap : Bytes) (n : ℕ) (s : Lexer)
      → 0 < length w
      → Digits source fits start (w ++ gap) (b'.' ∷ []) (n, s)
      → Closed source start
          (put dot (start + length (w ++ gap)) (put_sized dec_int_literal start (length w) s))
  unfolding fixed_text
  dot_case start w gap n s l g =
      let later = b'.' ∷ (g.digits ++ g.gap) in
      let o : Open source start (w ++ (gap ++ later)) s =
        subst (λ x. Open source start x s)
          (append_assoc (w ++ gap) (b'.' ∷ g.digits) g.gap ∙ append_assoc w gap later) g.read in
      Closed-le source (omega arith) (
        put_fixed source fits (start + length (w ++ gap)) (b'.' ∷ []) (g.digits ++ g.gap) dot _
          (put_reopen source fits start w gap later dec_int_literal (length w) s o l
            (word_text source fits start w (gap ++ later) dec_int_literal s.cursor o.reading l))
          (omega arith) refl)

  put_float-Closed :
      (start : ℕ) (w gap : Bytes) (p : ℕ × Lexer)
      → 0 < length w
      → Digits source fits start (w ++ gap) (b'.' ∷ []) p
      → Closed source start (put_float start (length w) (start + length (w ++ gap)) p)
  unfolding put_float
  put_float-Closed start w gap (n, s) l g =
      if_rule (Closed source start) (ltb 1 n) (λ _. float_case start w gap n s g)
        (λ _. dot_case start w gap n s l g)

  finish_decimal-Closed :
      (start : ℕ) (w : Bytes) (p : ℕ × Lexer)
      → 0 < length w
      → Digits source fits start [] w p
      → Closed source start (finish_decimal start p)
  unfolding finish_decimal get_offset_and_advance
  finish_decimal-Closed start w (n, s) l d =
      let number = w ++ d.digits in
      let pos : 0 < length number = omega (arith, length-append w d.digits) in
      if_rule (Closed source start) (peek s == b'.')
        (λ e.
          let c : peek s ≡ b'.' = ==→eq (peek s) b'.' e in
          let (r, q) = peek→rest s (rw c) in
          let o = Open-advance source fits start (number ++ d.gap) s b'.' r d.read (rw c at q) in
          rw (offset_lem source fits start s (number ++ d.gap) d.read, d.length_is)
            (put_float-Closed start number d.gap _ pos
              (decimal-Digits (number ++ d.gap) (b'.' ∷ []) o)))
        (λ _. rw d.length_is (put_word source fits start number d.gap dec_int_literal s d.read pos))

  handle_decimal_literal-Closed :
      (start : ℕ) (w : Bytes) (s : Lexer)
      → 0 < length w
      → Open source start w s
      → Closed source start (handle_decimal_literal start s)
  unfolding handle_decimal_literal is_decimal_digit
  handle_decimal_literal-Closed start w s l o =
      finish_decimal-Closed start w _ l (first-Digits is_decimal_digit refl w o)

  pub on_nonzero-Closed :
      {s : Lexer} (b : ℕ) (r : Bytes)
      → Lexed source s
      → s.cursor.rest ≡ b ∷ r
      → Closed source s.cursor.position (on_nonzero s)
  unfolding on_nonzero
  on_nonzero-Closed {s} b r h q =
      begin source fits _ h q
        λ o. handle_decimal_literal-Closed s.cursor.position (b ∷ []) (advance s) (omega arith) o

  pub on_zero-Closed :
      {s : Lexer} (r : Bytes)
      → Lexed source s
      → s.cursor.rest ≡ b'0' ∷ r
      → Closed source s.cursor.position (on_zero s)
  unfolding on_zero is_decimal_digit is_hexadecimal_digit
  on_zero-Closed {s} r h q = begin source fits _ h q λ o.
      branch source fits b'x' _ _ o
        (λ o'.
          put_digits-Closed hex_int_literal _ (omega arith)
            (first-Digits is_hexadecimal_digit refl _ o'))
        (branch source fits b'b' _ _ o
          (λ o'.
            put_digits-Closed bin_int_literal _ (omega arith)
              (first-Digits is_decimal_digit refl _ o'))
          (branch source fits b'o' _ _ o
            (λ o'.
              put_digits-Closed oct_int_literal _ (omega arith)
                (first-Digits is_decimal_digit refl _ o'))
            (handle_decimal_literal-Closed s.cursor.position (b'0' ∷ []) (advance s) (omega arith)
              o)))

  put_dot-Closed :
      (start : ℕ) (p : ℕ × Lexer)
      → Digits source fits start [] (b'.' ∷ []) p
      → Closed source start (put_dot start p)
  unfolding put_dot fixed_text
  put_dot-Closed start (n, s) d =
      if_rule (Closed source start) (ltb 1 n)
        (λ _.
          rw d.length_is (
            put_word source fits start (b'.' ∷ d.digits) d.gap float_literal s d.read
              (omega arith)))
        (λ _.
          put_fixed source fits start (b'.' ∷ []) (d.digits ++ d.gap) dot s d.read (omega arith)
            refl)

  pub on_dot-Closed :
      {s : Lexer} (r : Bytes)
      → Lexed source s
      → s.cursor.rest ≡ b'.' ∷ r
      → Closed source s.cursor.position (on_dot s)
  unfolding on_dot is_decimal_digit
  on_dot-Closed {s} r h q =
      begin source fits _ h q
        λ o. put_dot-Closed s.cursor.position _ (first-Digits is_decimal_digit refl (b'.' ∷ []) o)
