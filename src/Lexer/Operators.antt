-- ===== src/Lexer/Operators.antt =====
-- Punctuation (`on_one_char_token` and the handlers from `on_left_angle` to `on_bang` of
-- cero/syntax/lexer.cc, but for `on_dot` and `on_slash`).
use cero.Common.{◌+◌}
use cero.Lexer.State.{Op, get_offset_and_advance, put, if_match}
use cero.Token.{
  TokenKind, l_angle, l_angle_eq, l_angle_angle, l_angle_angle_eq, r_angle, r_angle_eq,
  r_angle_angle_eq, colon, colon_colon, eq, eq_eq, thick_arrow, plus, plus_plus, plus_eq, minus,
  thin_arrow, minus_minus, minus_eq, star, star_eq, percent, percent_eq, ampersand, ampersand_eq,
  and_and, and_and_eq, pipe, pipe_eq, pipe_pipe, pipe_pipe_eq, tilde, tilde_eq, bang, bang_eq,
}

unfoldable pub on_one_char_token : TokenKind → Op
on_one_char_token kind = get_offset_and_advance λ offset. put kind offset

-- `>>` gives two tokens.
unfoldable pub on_right_angle : Op
on_right_angle = get_offset_and_advance λ offset.
    if_match b'>'
      (if_match b'=' (put r_angle_angle_eq offset)
        (λ s. put r_angle (offset + 1) (put r_angle offset s)))
      (if_match b'=' (put r_angle_eq offset) (put r_angle offset))

unfoldable pub on_left_angle : Op
on_left_angle = get_offset_and_advance λ offset.
    if_match b'<' (if_match b'=' (put l_angle_angle_eq offset) (put l_angle_angle offset))
      (if_match b'=' (put l_angle_eq offset) (put l_angle offset))

unfoldable pub on_colon : Op
on_colon =
    get_offset_and_advance λ offset. if_match b':' (put colon_colon offset) (put colon offset)

unfoldable pub on_equals : Op
on_equals = get_offset_and_advance λ offset.
    if_match b'=' (put eq_eq offset) (if_match b'>' (put thick_arrow offset) (put eq offset))

unfoldable pub on_plus : Op
on_plus = get_offset_and_advance λ offset.
    if_match b'+' (put plus_plus offset) (if_match b'=' (put plus_eq offset) (put plus offset))

unfoldable pub on_minus : Op
on_minus = get_offset_and_advance λ offset. if_match b'>' (put thin_arrow offset) (
    if_match b'-' (put minus_minus offset) (if_match b'=' (put minus_eq offset) (put minus offset)))

unfoldable pub on_star : Op
on_star = get_offset_and_advance λ offset. if_match b'=' (put star_eq offset) (put star offset)

unfoldable pub on_percent : Op
on_percent =
    get_offset_and_advance λ offset. if_match b'=' (put percent_eq offset) (put percent offset)

unfoldable pub on_ampersand : Op
on_ampersand = get_offset_and_advance λ offset.
    if_match b'&' (if_match b'=' (put and_and_eq offset) (put and_and offset))
      (if_match b'=' (put ampersand_eq offset) (put ampersand offset))

unfoldable pub on_pipe : Op
on_pipe = get_offset_and_advance λ offset.
    if_match b'|' (if_match b'=' (put pipe_pipe_eq offset) (put pipe_pipe offset))
      (if_match b'=' (put pipe_eq offset) (put pipe offset))

unfoldable pub on_tilde : Op
on_tilde = get_offset_and_advance λ offset. if_match b'=' (put tilde_eq offset) (put tilde offset)

unfoldable pub on_bang : Op
on_bang = get_offset_and_advance λ offset. if_match b'=' (put bang_eq offset) (put bang offset)
