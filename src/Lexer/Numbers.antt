-- ===== src/Lexer/Numbers.antt =====
-- Numeric literals (`on_zero`, `on_nonzero`, `handle_decimal_literal`, `consume_digit_sequence`,
-- `on_dot` of cero/syntax/lexer.cc).
use cero.Common.{ℕ, suc, ◌+◌, Bool, not, ◌==◌, ltb, if◌then◌else◌, length}
use cero.Common.Loop.{Flow, next, stop, loop}
use cero.Lexer.State.{
  Lexer, Op, peek, advance, get_offset_and_advance, put, put_sized, if_match, sub_size, length_from,
}
use cero.Token.{
  TokenKind, hex_int_literal, bin_int_literal, oct_int_literal, dec_int_literal, float_literal, dot,
}
use cero.Unicode.{is_ascii_whitespace, is_decimal_digit, is_hexadecimal_digit}

-- One round of the `do` loop: advance, and go on while the next character is white space.
unfoldable pub whitespace_round : Lexer → Flow Lexer Lexer
whitespace_round s = let t = advance s in if is_ascii_whitespace (peek t) then next t else stop t

unfoldable pub skip_whitespace : Op
skip_whitespace s = loop (suc (length s.cursor.rest)) (λ t. t) whitespace_round s

unfoldable pub digit_round : (ℕ → Bool) → ℕ → Lexer → Flow Lexer (ℕ × Lexer)
digit_round digit_predicate offset s =
    let c = peek s in
    if c == 0
    then stop (length_from offset s, s)
    else if digit_predicate c
    then next (advance s)
    else if not (is_ascii_whitespace c)
    then stop (length_from offset s, s)
    else (let t = skip_whitespace s in
        if digit_predicate (peek t) then next (advance t) else stop (length_from offset s, t))

unfoldable pub consume_digit_sequence : (ℕ → Bool) → ℕ → Lexer → ℕ × Lexer
consume_digit_sequence digit_predicate offset s =
    loop (suc (length s.cursor.rest)) (λ t. (length_from offset t, t))
      (digit_round digit_predicate offset) s

-- The tokens of a decimal literal that is followed by a dot: `after` is what the digits behind the
-- dot come to.
unfoldable pub put_float : ℕ → ℕ → ℕ → ℕ × Lexer → Lexer
put_float offset length dot_offset (length_after_dot, s) =
    if ltb 1 length_after_dot
    then put_sized float_literal offset (sub_size dot_offset offset + length_after_dot) s
    else put dot dot_offset (put_sized dec_int_literal offset length s)

unfoldable pub finish_decimal : ℕ → ℕ × Lexer → Lexer
finish_decimal offset (length, s) =
    if peek s == b'.'
    then get_offset_and_advance
        (λ dot_offset t.
          put_float offset length dot_offset (consume_digit_sequence is_decimal_digit dot_offset t))
        s
    else put_sized dec_int_literal offset length s

unfoldable pub handle_decimal_literal : ℕ → Op
handle_decimal_literal offset s =
    finish_decimal offset (consume_digit_sequence is_decimal_digit offset s)

-- `tokens_.put({kind, offset, length})` with the length just computed.
unfoldable pub put_digits : TokenKind → ℕ → ℕ × Lexer → Lexer
put_digits kind offset (length, s) = put_sized kind offset length s

unfoldable pub on_zero : Op
on_zero = get_offset_and_advance λ offset.
    if_match b'x'
      (λ s.
        put_digits hex_int_literal offset (consume_digit_sequence is_hexadecimal_digit offset s))
      (if_match b'b'
        (λ s. put_digits bin_int_literal offset (consume_digit_sequence is_decimal_digit offset s))
        (if_match b'o'
          (λ s.
            put_digits oct_int_literal offset (consume_digit_sequence is_decimal_digit offset s))
          (handle_decimal_literal offset)))

unfoldable pub on_nonzero : Op
on_nonzero = get_offset_and_advance λ offset. handle_decimal_literal offset

unfoldable pub put_dot : ℕ → ℕ × Lexer → Lexer
put_dot offset (length, s) =
    if ltb 1 length then put_sized float_literal offset length s else put dot offset s

unfoldable pub on_dot : Op
on_dot =
    get_offset_and_advance
      λ offset s. put_dot offset (consume_digit_sequence is_decimal_digit offset s)
