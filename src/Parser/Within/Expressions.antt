-- ===== src/Parser/Within/Expressions.antt =====
-- The methods for expressions (cero/syntax/parser.cc) keep within the text.
use cero.Common.{
  length, ℕ, suc, ◌≤◌, Bool, true, false, arith, if_rule, refl, Option-cases, inl, inr,
}
use cero.Ast.{
  AstExpression, AstExpressions, ident_expr, literal_expr, block_expr, return_expr, unary_expr,
  binary_expr, call_expr, node_offset, token_offset, shr, BinaryOperator,
}
use cero.Parser.Expressions.{
  parse_expression, run_head, parse_return_values, parse_tails, run_tail, parse_arguments,
  parse_list, parse_more, parse_block, parse_statement, peek_head, peek_tail, is_expression_next,
  advance_operator,
}
use cero.Parser.Progress.{unless_matched_rule}
use cero.Parser.Rules.{
  Precedence, prefix, HeadParseFunction, on_identifier, on_literal, on_prefix_left_brace,
  on_kw_return, on_prefix_operator, TailParseFunction, on_binary_operator, on_postfix_operator,
  on_infix_left_paren, lookup_precedence_for_associativity,
}
use cero.Parser.State.{Parser, Settings, M, next, advance, match_kind, expect, bind}
use cero.Parser.Within.{
  NodeWithin, NodesWithin, TakesOne, TokenWithin, Anything, IsGood, Keeps, Keeps-bind, moved,
  advance-Keeps, next-Keeps, match_kind-Keeps, fail_expected-Keeps, expect-Keeps,
}
use cero.Report.{
  expect_expression, expect_semicolon, expect_closing_paren_in_call, get_message_format_string,
  placeholder_count,
}
use cero.Token.Cursor.{peek_kind}
use cero.Token.{Token, kind_eq, comma, semicolon, r_paren, l_brace}

node_offset_le : (offset bound : ℕ) → offset ≤ bound → node_offset offset ≤ bound
unfolding node_offset
node_offset_le offset bound h = omega arith

token_offset_le :
    (settings : Settings) (e : AstExpression)
    → NodeWithin settings e
    → token_offset e ≤ length settings.source.text
unfolding token_offset
token_offset_le settings (ident_expr offset _) h = h
token_offset_le settings (literal_expr offset _ _) h = h
token_offset_le settings (block_expr offset _) h = h.0
token_offset_le settings (return_expr offset _) h = h.0
token_offset_le settings (unary_expr offset _ _) h = h.0
token_offset_le settings (binary_expr offset _ _ _) h = h.0
token_offset_le settings (call_expr offset _ _) h = h.0

-- The node behind another one begins where that begins.
again_le :
    (settings : Settings) (e : AstExpression)
    → NodeWithin settings e
    → node_offset (token_offset e) ≤ length settings.source.text
again_le settings e h =
    node_offset_le (token_offset e) (length settings.source.text) (token_offset_le settings e h)

takes_one :
    (TakesOne expect_expression)
    × (TakesOne expect_semicolon)
    × TakesOne expect_closing_paren_in_call
unfolding placeholder_count get_message_format_string
takes_one = (refl, refl, refl)

-- What the methods keep with so much fuel.
pub record AllKeep (f : ℕ) (settings : Settings) : Type 0 where
  pub expression :
      (precedence : Precedence) (p : Parser)
      → IsGood settings p
      → Keeps settings (NodeWithin settings) (parse_expression f settings precedence p)
  pub head :
      (head_fn : HeadParseFunction) (p : Parser)
      → IsGood settings p
      → Keeps settings (NodeWithin settings) (run_head f settings head_fn p)
  pub return_values :
      (p : Parser)
      → IsGood settings p
      → Keeps settings (NodesWithin settings) (parse_return_values f settings p)
  pub tails :
      (precedence : Precedence) (e : AstExpression) (p : Parser)
      → IsGood settings p
      → NodeWithin settings e
      → Keeps settings (NodeWithin settings) (parse_tails f settings precedence e p)
  pub tail :
      (tail_fn : TailParseFunction) (e : AstExpression) (p : Parser)
      → IsGood settings p
      → NodeWithin settings e
      → Keeps settings (NodeWithin settings) (run_tail f settings tail_fn e p)
  pub arguments :
      (p : Parser)
      → IsGood settings p
      → Keeps settings (NodesWithin settings) (parse_arguments f settings p)
  pub list :
      (p : Parser)
      → IsGood settings p
      → Keeps settings (NodesWithin settings) (parse_list f settings p)
  pub more :
      (again : Bool) (p : Parser)
      → IsGood settings p
      → Keeps settings (NodesWithin settings) (parse_more f settings again p)
  pub block :
      (p : Parser)
      → IsGood settings p
      → Keeps settings (NodesWithin settings) (parse_block f settings p)
  pub statement :
      (p : Parser)
      → IsGood settings p
      → Keeps settings (NodeWithin settings) (parse_statement f settings p)

module _ (f : ℕ) (settings : Settings) (h : AllKeep f settings) where
  pub parse_expression-Keeps :
      (precedence : Precedence) (p : Parser)
      → IsGood settings p
      → Keeps settings (NodeWithin settings) (parse_expression (suc f) settings precedence p)
  unfolding parse_expression peek_head
  parse_expression-Keeps precedence p g = elim (Option-cases (peek_head p)) [
    | inl e ↦
        rw (e, parse_expression)
          (fail_expected-Keeps settings AstExpression (NodeWithin settings) expect_expression p
            takes_one.0 g)
    | inr (head_fn, e) ↦
        rw (e, parse_expression)
          (Keeps-bind settings (NodeWithin settings) (NodeWithin settings)
            (run_head f settings head_fn p) (parse_tails f settings precedence) (h.head head_fn p g)
            λ x q k w. h.tails precedence x q k w)
  ]

  -- The token that a method begins with, then the rest of it.
  next-then {ℓ} :
      {B : Type ℓ} (R : B → Type 0) (p : Parser) (k : Token → M B)
      → IsGood settings p
      → ((x : Token) (q : Parser)
          → IsGood settings q
          → node_offset x.offset ≤ length settings.source.text
          → Keeps settings R (k x q))
      → Keeps settings R (bind (next p) k)
  next-then R p k g w =
      Keeps-bind settings (TokenWithin settings) R (next p) k (next-Keeps settings p g)
        λ x q l t. w x q l (node_offset_le x.offset (length settings.source.text) t.0)

  pub run_head-Keeps :
      (head_fn : HeadParseFunction) (p : Parser)
      → IsGood settings p
      → Keeps settings (NodeWithin settings) (run_head (suc f) settings head_fn p)
  unfolding run_head
  run_head-Keeps on_identifier p g = next-then (NodeWithin settings) p _ g λ x q l t. (l, t)
  run_head-Keeps (on_literal kind) p g = next-then (NodeWithin settings) p _ g λ x q l t. (l, t)
  run_head-Keeps on_prefix_left_brace p g = next-then (NodeWithin settings) p _ g λ x q l t.
      Keeps-bind settings (NodesWithin settings) (NodeWithin settings) (parse_block f settings q) _
        (h.block q l) λ es r m w. (m, (t, w))
  run_head-Keeps on_kw_return p g = next-then (NodeWithin settings) p _ g λ x q l t.
      Keeps-bind settings (NodesWithin settings) (NodeWithin settings)
        (parse_return_values f settings q) _ (h.return_values q l) λ es r m w. (m, (t, w))
  run_head-Keeps (on_prefix_operator op) p g = next-then (NodeWithin settings) p _ g λ x q l t.
      Keeps-bind settings (NodeWithin settings) (NodeWithin settings)
        (parse_expression f settings prefix q) _ (h.expression prefix q l) λ e r m w. (m, (t, w))

  pub parse_return_values-Keeps :
      (p : Parser)
      → IsGood settings p
      → Keeps settings (NodesWithin settings) (parse_return_values (suc f) settings p)
  unfolding parse_return_values
  parse_return_values-Keeps p g =
      if_rule (Keeps settings (NodesWithin settings)) (is_expression_next p) (λ _. h.list p g)
        (λ _. (g, tt))

  pub parse_tails-Keeps :
      (precedence : Precedence) (x : AstExpression) (p : Parser)
      → IsGood settings p
      → NodeWithin settings x
      → Keeps settings (NodeWithin settings) (parse_tails (suc f) settings precedence x p)
  unfolding parse_tails peek_tail
  parse_tails-Keeps precedence x p g w = elim (Option-cases (peek_tail precedence p)) [
    | inl e ↦ rw (e, parse_tails) (g, w)
    | inr (tail_fn, e) ↦
        rw (e, parse_tails)
          (Keeps-bind settings (NodeWithin settings) (NodeWithin settings)
            (run_tail f settings tail_fn x p) (parse_tails f settings precedence)
            (h.tail tail_fn x p g w) λ y q k v. h.tails precedence y q k v)
  ]

  advance_operator-Keeps :
      (op : BinaryOperator) (p : Parser)
      → IsGood settings p
      → Keeps settings Anything (advance_operator op p)
  unfolding advance_operator
  advance_operator-Keeps shr p g =
      Keeps-bind settings Anything Anything (advance p) (λ _. advance) (advance-Keeps settings p g)
        λ _ q k _. advance-Keeps settings q k
  advance_operator-Keeps _ p g = advance-Keeps settings p g

  pub run_tail-Keeps :
      (tail_fn : TailParseFunction) (x : AstExpression) (p : Parser)
      → IsGood settings p
      → NodeWithin settings x
      → Keeps settings (NodeWithin settings) (run_tail (suc f) settings tail_fn x p)
  unfolding run_tail
  run_tail-Keeps (on_binary_operator op) x p g w =
      let precedence = lookup_precedence_for_associativity op in
      Keeps-bind settings Anything (NodeWithin settings) (advance_operator op p) _
        (advance_operator-Keeps op p g)
        λ _ q k _.
          Keeps-bind settings (NodeWithin settings) (NodeWithin settings)
            (parse_expression f settings precedence q) _ (h.expression precedence q k)
            λ y r m v. (m, (again_le settings x w, w, v))
  run_tail-Keeps (on_postfix_operator op) x p g w =
      Keeps-bind settings Anything (NodeWithin settings) (advance p) _ (advance-Keeps settings p g)
        λ _ q k _. (k, (again_le settings x w, w))
  run_tail-Keeps on_infix_left_paren x p g w =
      Keeps-bind settings Anything (NodeWithin settings) (advance p) _ (advance-Keeps settings p g)
        λ _ q k _.
          Keeps-bind settings (NodesWithin settings) (NodeWithin settings)
            (parse_arguments f settings q) _ (h.arguments q k)
            λ ys r m v. (m, (again_le settings x w, w, v))

  pub parse_more-Keeps :
      (again : Bool) (p : Parser)
      → IsGood settings p
      → Keeps settings (NodesWithin settings) (parse_more (suc f) settings again p)
  unfolding parse_more
  parse_more-Keeps true p g = h.list p g
  parse_more-Keeps false p g = (g, tt)

  pub parse_list-Keeps :
      (p : Parser)
      → IsGood settings p
      → Keeps settings (NodesWithin settings) (parse_list (suc f) settings p)
  unfolding parse_list
  parse_list-Keeps p g =
      Keeps-bind settings (NodeWithin settings) (NodesWithin settings)
        (parse_expression f settings Precedence.statement p) _
        (h.expression Precedence.statement p g)
        λ e q k w.
          Keeps-bind settings Anything (NodesWithin settings) (match_kind comma q) _
            (match_kind-Keeps settings comma q k)
            λ again r m _.
              Keeps-bind settings (NodesWithin settings) (NodesWithin settings)
                (parse_more f settings again r) _ (h.more again r m) λ es s n v. (n, (w, v))

  pub parse_arguments-Keeps :
      (p : Parser)
      → IsGood settings p
      → Keeps settings (NodesWithin settings) (parse_arguments (suc f) settings p)
  unfolding parse_arguments
  parse_arguments-Keeps p g =
      unless_matched_rule (Keeps settings (NodesWithin settings)) r_paren AstExpressions.none _ p
        (λ _. (moved settings p g, tt))
        λ _.
          Keeps-bind settings (NodesWithin settings) (NodesWithin settings)
            (parse_list f settings p) _ (h.list p g)
            λ es q k w.
              Keeps-bind settings Anything (NodesWithin settings)
                (expect settings r_paren expect_closing_paren_in_call q) _
                (expect-Keeps settings r_paren expect_closing_paren_in_call q takes_one.2 k)
                λ _ r m _. (m, w)

  pub parse_statement-Keeps :
      (p : Parser)
      → IsGood settings p
      → Keeps settings (NodeWithin settings) (parse_statement (suc f) settings p)
  unfolding parse_statement
  parse_statement-Keeps p g =
      if_rule (Keeps settings (NodeWithin settings)) (kind_eq (peek_kind p.cursor) l_brace)
        (λ _. h.head on_prefix_left_brace p g)
        λ _.
          Keeps-bind settings (NodeWithin settings) (NodeWithin settings)
            (parse_expression f settings Precedence.statement p) _
            (h.expression Precedence.statement p g)
            λ e q k w.
              Keeps-bind settings Anything (NodeWithin settings)
                (expect settings semicolon expect_semicolon q) _
                (expect-Keeps settings semicolon expect_semicolon q takes_one.1 k) λ _ r m _. (m, w)
