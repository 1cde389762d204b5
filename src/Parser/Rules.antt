-- ===== src/Parser/Rules.antt =====
-- Precedences and the tables that select a parse method by the next token (cero/syntax/parser.cc).
-- A pointer to a method is a constructor that names the method.
use cero.Common.{ℕ, ◌+◌, ◌&&◌, Option, none, some, ◌==◌, ltb, if◌then◌else◌}
use cero.Ast.{
  LiteralKind, dec_int, hex_int, bin_int, oct_int, float_, char_, string, UnaryOperator,
  pre_increment, pre_decrement, post_increment, post_decrement, negate, bit_not, logic_not, addr_of,
  deref, BinaryOperator, add, sub, mul, div, rem, bit_and, bit_or, bit_xor, shl, shr, logic_and,
  logic_or, eq, neq, less, less_eq, greater, greater_eq, assign, add_assign, sub_assign, mul_assign,
  div_assign, rem_assign, bit_and_assign, bit_or_assign, xor_assign, shl_assign, shr_assign,
  logic_and_assign, logic_or_assign,
}
use cero.Token.Cursor.{TokenCursor, peek_ahead}
use cero.Token.{TokenKind, Token, kind_eq}

pub data Precedence : Type 0 where
  statement assignment logical comparison additive_or_bit multiplicative prefix postfix : Precedence

-- The underlying value, by which precedences are compared.
unfoldable pub level : Precedence → ℕ
level statement = 0
level assignment = 1
level logical = 2
level comparison = 3
level additive_or_bit = 4
level multiplicative = 5
level prefix = 6
level postfix = 7

unfoldable pub lookup_precedence_for_associativity : BinaryOperator → Precedence
lookup_precedence_for_associativity add = additive_or_bit
lookup_precedence_for_associativity sub = additive_or_bit
lookup_precedence_for_associativity mul = multiplicative
lookup_precedence_for_associativity div = multiplicative
lookup_precedence_for_associativity rem = multiplicative
lookup_precedence_for_associativity bit_and = additive_or_bit
lookup_precedence_for_associativity bit_or = additive_or_bit
lookup_precedence_for_associativity bit_xor = additive_or_bit
lookup_precedence_for_associativity shl = additive_or_bit
lookup_precedence_for_associativity shr = additive_or_bit
lookup_precedence_for_associativity eq = comparison
lookup_precedence_for_associativity neq = comparison
lookup_precedence_for_associativity less = comparison
lookup_precedence_for_associativity less_eq = comparison
lookup_precedence_for_associativity greater = comparison
lookup_precedence_for_associativity greater_eq = comparison
lookup_precedence_for_associativity logic_and = logical
lookup_precedence_for_associativity logic_or = logical
lookup_precedence_for_associativity assign = assignment
lookup_precedence_for_associativity add_assign = assignment
lookup_precedence_for_associativity sub_assign = assignment
lookup_precedence_for_associativity mul_assign = assignment
lookup_precedence_for_associativity div_assign = assignment
lookup_precedence_for_associativity rem_assign = assignment
lookup_precedence_for_associativity bit_and_assign = assignment
lookup_precedence_for_associativity bit_or_assign = assignment
lookup_precedence_for_associativity xor_assign = assignment
lookup_precedence_for_associativity shl_assign = assignment
lookup_precedence_for_associativity shr_assign = assignment
lookup_precedence_for_associativity logic_and_assign = assignment
lookup_precedence_for_associativity logic_or_assign = assignment

-- The methods for rules that begin with a token of their own.
pub data HeadParseFunction : Type 0 where
  on_identifier : HeadParseFunction
  on_literal : LiteralKind → HeadParseFunction
  on_prefix_left_brace on_kw_return : HeadParseFunction
  on_prefix_operator : UnaryOperator → HeadParseFunction

-- `none` is the null pointer.
unfoldable pub lookup_head_parse_fn : TokenKind → Option HeadParseFunction
lookup_head_parse_fn TokenKind.identifier = some on_identifier
lookup_head_parse_fn TokenKind.dec_int_literal = some (on_literal dec_int)
lookup_head_parse_fn TokenKind.hex_int_literal = some (on_literal hex_int)
lookup_head_parse_fn TokenKind.bin_int_literal = some (on_literal bin_int)
lookup_head_parse_fn TokenKind.oct_int_literal = some (on_literal oct_int)
lookup_head_parse_fn TokenKind.float_literal = some (on_literal float_)
lookup_head_parse_fn TokenKind.char_literal = some (on_literal char_)
lookup_head_parse_fn TokenKind.string_literal = some (on_literal string)
lookup_head_parse_fn TokenKind.l_brace = some on_prefix_left_brace
lookup_head_parse_fn TokenKind.kw_return = some on_kw_return
lookup_head_parse_fn TokenKind.ampersand = some (on_prefix_operator addr_of)
lookup_head_parse_fn TokenKind.minus = some (on_prefix_operator negate)
lookup_head_parse_fn TokenKind.tilde = some (on_prefix_operator bit_not)
lookup_head_parse_fn TokenKind.bang = some (on_prefix_operator logic_not)
lookup_head_parse_fn TokenKind.plus_plus = some (on_prefix_operator pre_increment)
lookup_head_parse_fn TokenKind.minus_minus = some (on_prefix_operator pre_decrement)
lookup_head_parse_fn _ = none

-- The methods for rules that go on from an expression.
pub data TailParseFunction : Type 0 where
  on_binary_operator : BinaryOperator → TailParseFunction
  on_postfix_operator : UnaryOperator → TailParseFunction
  on_infix_left_paren : TailParseFunction

pub record TailParseRule : Type 0 where
  pub precedence : Precedence
  pub fn : Option TailParseFunction

abbrev binary : Precedence → BinaryOperator → TailParseRule
binary p op = record { precedence = p; fn = some (on_binary_operator op) }

abbrev postfix_rule : UnaryOperator → TailParseRule
postfix_rule op = record { precedence = postfix; fn = some (on_postfix_operator op) }

-- At a `>`: a second one directly behind it makes a shift.
unfoldable pub right_angle_rule : Token → Token → TailParseRule
unfolding kind_eq
right_angle_rule token next =
    if kind_eq next.kind TokenKind.r_angle && next.offset == token.offset + 1
    then binary additive_or_bit shr
    else binary comparison greater

-- The rule for a token, given the token ahead of it.
unfoldable pub lookup_tail_rule : TokenKind → Token → Token → TailParseRule
unfolding right_angle_rule
lookup_tail_rule TokenKind.eq token next = binary assignment assign
lookup_tail_rule TokenKind.plus_eq token next = binary assignment add_assign
lookup_tail_rule TokenKind.minus_eq token next = binary assignment sub_assign
lookup_tail_rule TokenKind.star_eq token next = binary assignment mul_assign
lookup_tail_rule TokenKind.slash_eq token next = binary assignment div_assign
lookup_tail_rule TokenKind.percent_eq token next = binary assignment rem_assign
lookup_tail_rule TokenKind.ampersand_eq token next = binary assignment bit_and_assign
lookup_tail_rule TokenKind.pipe_eq token next = binary assignment bit_or_assign
lookup_tail_rule TokenKind.tilde_eq token next = binary assignment xor_assign
lookup_tail_rule TokenKind.l_angle_angle_eq token next = binary assignment shl_assign
lookup_tail_rule TokenKind.r_angle_angle_eq token next = binary assignment shr_assign
lookup_tail_rule TokenKind.and_and_eq token next = binary assignment logic_and_assign
lookup_tail_rule TokenKind.pipe_pipe_eq token next = binary assignment logic_or_assign
lookup_tail_rule TokenKind.and_and token next = binary logical logic_and
lookup_tail_rule TokenKind.pipe_pipe token next = binary logical logic_or
lookup_tail_rule TokenKind.eq_eq token next = binary comparison eq
lookup_tail_rule TokenKind.bang_eq token next = binary comparison neq
lookup_tail_rule TokenKind.l_angle token next = binary comparison less
lookup_tail_rule TokenKind.l_angle_eq token next = binary comparison less_eq
lookup_tail_rule TokenKind.r_angle_eq token next = binary comparison greater_eq
lookup_tail_rule TokenKind.plus token next = binary additive_or_bit add
lookup_tail_rule TokenKind.minus token next = binary additive_or_bit sub
lookup_tail_rule TokenKind.ampersand token next = binary additive_or_bit bit_and
lookup_tail_rule TokenKind.pipe token next = binary additive_or_bit bit_or
lookup_tail_rule TokenKind.tilde token next = binary additive_or_bit bit_xor
lookup_tail_rule TokenKind.l_angle_angle token next = binary additive_or_bit shl
lookup_tail_rule TokenKind.star token next = binary multiplicative mul
lookup_tail_rule TokenKind.slash token next = binary multiplicative div
lookup_tail_rule TokenKind.percent token next = binary multiplicative rem
lookup_tail_rule TokenKind.caret token next = postfix_rule deref
lookup_tail_rule TokenKind.plus_plus token next = postfix_rule post_increment
lookup_tail_rule TokenKind.minus_minus token next = postfix_rule post_decrement
lookup_tail_rule TokenKind.l_paren token next = record {
  precedence = postfix;
  fn = some on_infix_left_paren;
}
lookup_tail_rule TokenKind.r_angle token next = right_angle_rule token next
lookup_tail_rule _ token next = record { precedence = statement; fn = none }

unfoldable pub lookup_tail_parse_rule : TokenCursor → TailParseRule
unfolding lookup_tail_rule peek_ahead
lookup_tail_parse_rule c = lookup_tail_rule c.current.kind c.current (peek_ahead c)

unfoldable pub get_next_tail_parse_fn : Precedence → TokenCursor → Option TailParseFunction
unfolding lookup_tail_parse_rule level
get_next_tail_parse_fn current_precedence c =
    let rule = lookup_tail_parse_rule c in
    if ltb (level current_precedence) (level rule.precedence) then rule.fn else none
