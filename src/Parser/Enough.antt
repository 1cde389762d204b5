-- ===== src/Parser/Enough.antt =====
-- How much fuel the methods for expressions, statements and blocks need (cero/syntax/parser.cc):
-- eight units for each token that is left, and a few for the calls that consume none.
pub mod Heads
pub mod Tails
pub mod Blocks
use cero.Common.{
  ℕ, suc, ◌+◌, ◌*◌, ◌≤◌, ◌<◌, Bool, true, false, Option, none, some, ◌≡◌, arith, if_rule,
  Option-cases, inl, inr, ◌⊎◌,
}
use cero.Ast.{
  AstExpression, AstExpressions, node, node_offset, token_offset, ident_expr, literal_expr,
  block_expr, return_expr, unary_expr, binary_expr, call_expr, shr, BinaryOperator,
}
use cero.Parser.Expressions.{
  parse_expression, run_head, parse_return_values, parse_tails, run_tail, parse_arguments,
  parse_list, parse_more, parse_block, parse_statement, peek_head, peek_tail, is_expression_next,
  advance_operator,
}
use cero.Parser.Progress.{
  IsSafe, remaining, Done, Done-weaken, Done-bind, Done-after, Done-later, head_not_eof,
  get_next_tail_parse_fn-not_eof, advance-Done, advance_any-Done, next-Done, match_kind-Done,
  fail_expected-Done, expect-Done, unless_matched_rule, advance-IsSafe, Recovered,
  skip_statement-Recovered,
}
use cero.Parser.Rules.{
  Precedence, prefix, HeadParseFunction, on_identifier, on_literal, on_prefix_left_brace,
  on_kw_return, on_prefix_operator, TailParseFunction, on_binary_operator, on_postfix_operator,
  on_infix_left_paren, lookup_precedence_for_associativity,
}
use cero.Parser.State.{
  Parser, Settings, Outcome, ok, M, next, match_kind, advance, expect, fail_expected, bind, ◌>>=◌,
  ◌>>◌, pure,
}
use cero.Report.{expect_expression, expect_semicolon, expect_closing_paren_in_call}
use cero.Token.Cursor.{peek_kind}
use cero.Token.{
  Token, TokenKind, kind_eq, to_underlying, end_of_file, l_brace, comma, semicolon, r_paren,
}

abbrev pub NotAtEnd : Parser → Type 0
NotAtEnd p = kind_eq p.cursor.current.kind end_of_file ≡ false

-- With so much fuel each of the methods comes to an end of its own.
pub record Enough (f : ℕ) (settings : Settings) : Type 0 where
  pub expression :
      (precedence : Precedence) (p : Parser)
      → IsSafe p.cursor
      → 8 * remaining p + 2 ≤ f
      → Done (remaining p) (suc (remaining p)) (parse_expression f settings precedence p)
  pub head :
      (head_fn : HeadParseFunction) (p : Parser)
      → IsSafe p.cursor
      → NotAtEnd p
      → 8 * remaining p + 1 ≤ f
      → Done (remaining p) (suc (remaining p)) (run_head f settings head_fn p)
  pub return_values :
      (p : Parser)
      → IsSafe p.cursor
      → 8 * remaining p + 4 ≤ f
      → Done (suc (remaining p)) (suc (remaining p)) (parse_return_values f settings p)
  pub tails :
      (precedence : Precedence) (e : AstExpression) (p : Parser)
      → IsSafe p.cursor
      → 8 * remaining p + 2 ≤ f
      → Done (suc (remaining p)) (suc (remaining p)) (parse_tails f settings precedence e p)
  pub tail :
      (tail_fn : TailParseFunction) (e : AstExpression) (p : Parser)
      → IsSafe p.cursor
      → NotAtEnd p
      → 8 * remaining p + 1 ≤ f
      → Done (remaining p) (suc (remaining p)) (run_tail f settings tail_fn e p)
  pub arguments :
      (p : Parser)
      → IsSafe p.cursor
      → 8 * remaining p + 4 ≤ f
      → Done (suc (remaining p)) (suc (remaining p)) (parse_arguments f settings p)
  pub list :
      (p : Parser)
      → IsSafe p.cursor
      → 8 * remaining p + 3 ≤ f
      → Done (suc (remaining p)) (suc (remaining p)) (parse_list f settings p)
  pub more :
      (again : Bool) (p : Parser)
      → IsSafe p.cursor
      → 8 * remaining p + 4 ≤ f
      → Done (suc (remaining p)) (suc (remaining p)) (parse_more f settings again p)
  pub block :
      (p : Parser)
      → IsSafe p.cursor
      → 8 * remaining p + 4 ≤ f
      → Done (suc (remaining p)) (suc (remaining p)) (parse_block f settings p)
  pub statement :
      (p : Parser)
      → IsSafe p.cursor
      → 8 * remaining p + 3 ≤ f
      → Done (remaining p) (suc (remaining p)) (parse_statement f settings p)
