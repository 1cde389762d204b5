-- ===== src/Token/Kind.antt =====
-- The categories of tokens (cero/syntax/token.hh), with the number of each in the enumeration.
use cero.Common.{ℕ, Bool, ◌==◌}

pub data TokenKind : Type 0 where
  identifier line_comment block_comment dec_int_literal hex_int_literal : TokenKind
  bin_int_literal oct_int_literal float_literal char_literal string_literal kw_break : TokenKind
  kw_catch kw_const kw_continue kw_do kw_else kw_enum kw_for kw_if kw_in : TokenKind
  kw_interface kw_let kw_mut kw_private kw_public kw_raise kw_return kw_static : TokenKind
  kw_struct kw_switch kw_try kw_unchecked kw_while dot comma colon semicolon l_brace : TokenKind
  r_brace l_paren r_paren l_bracket r_bracket l_angle r_angle eq plus minus star : TokenKind
  slash percent ampersand pipe tilde caret bang thin_arrow thick_arrow colon_colon : TokenKind
  plus_plus minus_minus l_angle_angle and_and pipe_pipe eq_eq bang_eq l_angle_eq : TokenKind
  r_angle_eq plus_eq minus_eq star_eq slash_eq percent_eq ampersand_eq pipe_eq : TokenKind
  tilde_eq l_angle_angle_eq r_angle_angle_eq and_and_eq pipe_pipe_eq end_of_file : TokenKind

-- The underlying value of the enumerator.
unfoldable pub to_underlying : TokenKind → ℕ
to_underlying identifier = 0
to_underlying line_comment = 1
to_underlying block_comment = 2
to_underlying dec_int_literal = 3
to_underlying hex_int_literal = 4
to_underlying bin_int_literal = 5
to_underlying oct_int_literal = 6
to_underlying float_literal = 7
to_underlying char_literal = 8
to_underlying string_literal = 9
to_underlying kw_break = 10
to_underlying kw_catch = 11
to_underlying kw_const = 12
to_underlying kw_continue = 13
to_underlying kw_do = 14
to_underlying kw_else = 15
to_underlying kw_enum = 16
to_underlying kw_for = 17
to_underlying kw_if = 18
to_underlying kw_in = 19
to_underlying kw_interface = 20
to_underlying kw_let = 21
to_underlying kw_mut = 22
to_underlying kw_private = 23
to_underlying kw_public = 24
to_underlying kw_raise = 25
to_underlying kw_return = 26
to_underlying kw_static = 27
to_underlying kw_struct = 28
to_underlying kw_switch = 29
to_underlying kw_try = 30
to_underlying kw_unchecked = 31
to_underlying kw_while = 32
to_underlying dot = 33
to_underlying comma = 34
to_underlying colon = 35
to_underlying semicolon = 36
to_underlying l_brace = 37
to_underlying r_brace = 38
to_underlying l_paren = 39
to_underlying r_paren = 40
to_underlying l_bracket = 41
to_underlying r_bracket = 42
to_underlying l_angle = 43
to_underlying r_angle = 44
to_underlying eq = 45
to_underlying plus = 46
to_underlying minus = 47
to_underlying star = 48
to_underlying slash = 49
to_underlying percent = 50
to_underlying ampersand = 51
to_underlying pipe = 52
to_underlying tilde = 53
to_underlying caret = 54
to_underlying bang = 55
to_underlying thin_arrow = 56
to_underlying thick_arrow = 57
to_underlying colon_colon = 58
to_underlying plus_plus = 59
to_underlying minus_minus = 60
to_underlying l_angle_angle = 61
to_underlying and_and = 62
to_underlying pipe_pipe = 63
to_underlying eq_eq = 64
to_underlying bang_eq = 65
to_underlying l_angle_eq = 66
to_underlying r_angle_eq = 67
to_underlying plus_eq = 68
to_underlying minus_eq = 69
to_underlying star_eq = 70
to_underlying slash_eq = 71
to_underlying percent_eq = 72
to_underlying ampersand_eq = 73
to_underlying pipe_eq = 74
to_underlying tilde_eq = 75
to_underlying l_angle_angle_eq = 76
to_underlying r_angle_angle_eq = 77
to_underlying and_and_eq = 78
to_underlying pipe_pipe_eq = 79
to_underlying end_of_file = 80

-- `==` on the enumeration.
unfoldable pub kind_eq : TokenKind → TokenKind → Bool
unfolding to_underlying
kind_eq a b = to_underlying a == to_underlying b
