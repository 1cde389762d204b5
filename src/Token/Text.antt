-- ===== src/Token/Text.antt =====
-- The token record, its text in the source and its name in messages (cero/syntax/token.hh and
-- cero/syntax/token.cc).
use cero.Common.{substr, ℕ, ◌%◌, ◌^◌, Option, some, none, Bytes, codes, ltb, if◌then◌else◌}
use cero.Token.Kind.{
  TokenKind, identifier, line_comment, block_comment, dec_int_literal, hex_int_literal,
  bin_int_literal, oct_int_literal, float_literal, char_literal, string_literal, kw_break, kw_catch,
  kw_const, kw_continue, kw_do, kw_else, kw_enum, kw_for, kw_if, kw_in, kw_interface, kw_let,
  kw_mut, kw_private, kw_public, kw_raise, kw_return, kw_static, kw_struct, kw_switch, kw_try,
  kw_unchecked, kw_while, dot, comma, colon, semicolon, l_brace, r_brace, l_paren, r_paren,
  l_bracket, r_bracket, l_angle, r_angle, eq, plus, minus, star, slash, percent, ampersand, pipe,
  tilde, caret, bang, thin_arrow, thick_arrow, colon_colon, plus_plus, minus_minus, l_angle_angle,
  and_and, pipe_pipe, eq_eq, bang_eq, l_angle_eq, r_angle_eq, plus_eq, minus_eq, star_eq, slash_eq,
  percent_eq, ampersand_eq, pipe_eq, tilde_eq, l_angle_angle_eq, r_angle_angle_eq, and_and_eq,
  pipe_pipe_eq, end_of_file,
}

-- `variable_length` is only set for tokens of variable length, and 0 for the others.
pub record Token : Type 0 where
  pub kind : TokenKind
  pub offset : ℕ
  pub variable_length : ℕ

-- The constructor keeps 24 bits of the offset: `_offset & 0xffffff`.
unfoldable pub make_token : TokenKind → ℕ → ℕ → Token
make_token kind offset variable_length = record {
  kind = kind;
  offset = offset % 2 ^ 24;
  variable_length = variable_length;
}

-- The texts of the tokens of fixed length. `none` is the default label of the switch, which
-- must be unreachable.
unfoldable pub fixed_text : TokenKind → Option Bytes
fixed_text kw_break = some (codes "break")
fixed_text kw_catch = some (codes "catch")
fixed_text kw_const = some (codes "const")
fixed_text kw_continue = some (codes "continue")
fixed_text kw_do = some (codes "do")
fixed_text kw_else = some (codes "else")
fixed_text kw_enum = some (codes "enum")
fixed_text kw_for = some (codes "for")
fixed_text kw_if = some (codes "if")
fixed_text kw_in = some (codes "in")
fixed_text kw_interface = some (codes "interface")
fixed_text kw_let = some (codes "let")
fixed_text kw_mut = some (codes "mut")
fixed_text kw_private = some (codes "private")
fixed_text kw_public = some (codes "public")
fixed_text kw_raise = some (codes "raise")
fixed_text kw_return = some (codes "return")
fixed_text kw_static = some (codes "static")
fixed_text kw_struct = some (codes "struct")
fixed_text kw_switch = some (codes "switch")
fixed_text kw_try = some (codes "try")
fixed_text kw_unchecked = some (codes "unchecked")
fixed_text kw_while = some (codes "while")
fixed_text dot = some (codes ".")
fixed_text comma = some (codes ",")
fixed_text colon = some (codes ":")
fixed_text semicolon = some (codes ";")
fixed_text l_brace = some (codes "{")
fixed_text r_brace = some (codes "}")
fixed_text l_paren = some (codes "(")
fixed_text r_paren = some (codes ")")
fixed_text l_bracket = some (codes "[")
fixed_text r_bracket = some (codes "]")
fixed_text l_angle = some (codes "<")
fixed_text r_angle = some (codes ">")
fixed_text eq = some (codes "=")
fixed_text plus = some (codes "+")
fixed_text minus = some (codes "-")
fixed_text star = some (codes "*")
fixed_text slash = some (codes "/")
fixed_text percent = some (codes "%")
fixed_text ampersand = some (codes "&")
fixed_text pipe = some (codes "|")
fixed_text tilde = some (codes "~")
fixed_text caret = some (codes "^")
fixed_text bang = some (codes "!")
fixed_text thin_arrow = some (codes "->")
fixed_text thick_arrow = some (codes "=>")
fixed_text colon_colon = some (codes "::")
fixed_text plus_plus = some (codes "++")
fixed_text minus_minus = some (codes "--")
fixed_text l_angle_angle = some (codes "<<")
fixed_text and_and = some (codes "&&")
fixed_text pipe_pipe = some (codes "||")
fixed_text eq_eq = some (codes "==")
fixed_text bang_eq = some (codes "!=")
fixed_text l_angle_eq = some (codes "<=")
fixed_text r_angle_eq = some (codes ">=")
fixed_text plus_eq = some (codes "+=")
fixed_text minus_eq = some (codes "-=")
fixed_text star_eq = some (codes "*=")
fixed_text slash_eq = some (codes "/=")
fixed_text percent_eq = some (codes "%=")
fixed_text ampersand_eq = some (codes "&=")
fixed_text pipe_eq = some (codes "|=")
fixed_text tilde_eq = some (codes "~=")
fixed_text l_angle_angle_eq = some (codes "<<=")
fixed_text r_angle_angle_eq = some (codes ">>=")
fixed_text and_and_eq = some (codes "&&=")
fixed_text pipe_pipe_eq = some (codes "||=")
fixed_text end_of_file = some (codes "")
fixed_text _ = none

-- `none` is the exception of `substr`, or a kind with no text of its own, which is unreachable.
unfoldable pub get_text : Token → Bytes → Option Bytes
unfolding fixed_text substr
get_text t source =
    if ltb 0 t.variable_length then substr t.offset t.variable_length source else fixed_text t.kind

-- The format of a token in messages.
unfoldable pub get_token_message_format : TokenKind → Bytes
get_token_message_format identifier = codes "name `{}`"
get_token_message_format line_comment = codes "comment"
get_token_message_format block_comment = codes "comment"
get_token_message_format dec_int_literal = codes "integer literal `{}`"
get_token_message_format hex_int_literal = codes "integer literal `{}`"
get_token_message_format bin_int_literal = codes "integer literal `{}`"
get_token_message_format oct_int_literal = codes "integer literal `{}`"
get_token_message_format float_literal = codes "floating-point literal `{}`"
get_token_message_format char_literal = codes "character literal {}"
get_token_message_format string_literal = codes "string literal {}"
get_token_message_format end_of_file = codes "end of file"
get_token_message_format _ = codes "`{}`"
