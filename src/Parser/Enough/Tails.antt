-- ===== src/Parser/Enough/Tails.antt =====
-- The fuel for operators, calls, lists and statements (cero/syntax/parser.cc).
use cero.Common.{ℕ, suc, ◌+◌, ◌*◌, ◌≤◌, ◌<◌, Bool, true, false, ◌≡◌, arith, if_rule}
use cero.Ast.{
  AstExpression, AstExpressions, node, node_offset, token_offset, unary_expr, binary_expr,
  call_expr, shr, BinaryOperator,
}
use cero.Parser.Expressions.{
  parse_expression, run_tail, parse_arguments, parse_list, parse_more, parse_statement,
  advance_operator,
}
use cero.Parser.Progress.{
  IsSafe, remaining, Done, Done-weaken, Done-bind, Done-after, Done-later, advance-Done,
  advance_any-Done, match_kind-Done, expect-Done, unless_matched_rule, advance-IsSafe,
}
use cero.Parser.Rules.{
  Precedence, on_prefix_left_brace, TailParseFunction, on_binary_operator, on_postfix_operator,
  on_infix_left_paren, lookup_precedence_for_associativity,
}
use cero.Parser.State.{
  Parser, Settings, Outcome, M, match_kind, advance, expect, bind, ◌>>=◌, ◌>>◌, pure,
}
use cero.Report.{expect_semicolon, expect_closing_paren_in_call}
use cero.Token.Cursor.{peek_kind}
use cero.Token.{TokenKind, kind_eq, to_underlying, end_of_file, l_brace, comma, semicolon, r_paren}
use cero.Parser.Enough.{Enough, NotAtEnd}

advance_operator-Done :
    (op : BinaryOperator) (p : Parser)
    → IsSafe p.cursor
    → NotAtEnd p
    → Done (remaining p) (remaining p) (advance_operator op p)
unfolding advance_operator
advance_operator-Done shr p s e =
    Done-bind (remaining p) (remaining p) (remaining p) (remaining p) (advance p) (λ _. advance)
      (advance-Done p s e) (omega arith) λ x q t l. advance_any-Done q (remaining p) t l
advance_operator-Done _ p s e = advance-Done p s e

brace_not_eof : (kind : TokenKind) → kind_eq kind l_brace ≡ true → kind_eq kind end_of_file ≡ false
unfolding kind_eq to_underlying
brace_not_eof kind h = ground arith

module _ (f : ℕ) (settings : Settings) (h : Enough f settings) where
  -- The token of an operator, then the rest.
  operator-then {ℓ κ} :
      {A : Type ℓ} {B : Type κ} (p : Parser) (m : Outcome A) (k : A → M B)
      → Done (remaining p) (remaining p) m
      → ((x : A) (q : Parser)
          → IsSafe q.cursor
          → remaining q < remaining p
          → Done (remaining p) (suc (remaining p)) (k x q))
      → Done (remaining p) (suc (remaining p)) (bind m k)
  operator-then p m k d w =
      Done-bind (remaining p) (remaining p) (remaining p) (suc (remaining p)) m k d (omega arith) w

  pub run_tail-Done :
      (tail_fn : TailParseFunction) (x : AstExpression) (p : Parser)
      → IsSafe p.cursor
      → NotAtEnd p
      → 8 * remaining p + 1 ≤ suc f
      → Done (remaining p) (suc (remaining p)) (run_tail (suc f) settings tail_fn x p)
  unfolding run_tail
  run_tail-Done (on_binary_operator op) x p s e k =
      let precedence = lookup_precedence_for_associativity op in
      operator-then p (advance_operator op p)
        (λ _. parse_expression f settings precedence >>= λ y.
          pure (binary_expr (node_offset (token_offset x)) op x y))
        (advance_operator-Done op p s e)
        λ _ q t l.
          Done-after (remaining p) (parse_expression f settings precedence q)
            (λ y. pure (binary_expr (node_offset (token_offset x)) op x y))
            (Done-weaken (remaining q) (suc (remaining q)) (remaining p) (suc (remaining p))
              (parse_expression f settings precedence q) (omega arith) (omega arith)
              (h.expression precedence q t (omega arith)))
            λ y r u m. (u, m)
  run_tail-Done (on_postfix_operator op) x p s e k =
      operator-then p (advance p) (λ _. pure (unary_expr (node_offset (token_offset x)) op x))
        (advance-Done p s e) λ _ q t l. (t, l)
  run_tail-Done on_infix_left_paren x p s e k =
      operator-then p (advance p)
        (λ _.
          parse_arguments f settings >>= λ ys. pure (call_expr (node_offset (token_offset x)) x ys))
        (advance-Done p s e)
        λ _ q t l.
          Done-after (remaining p) (parse_arguments f settings q)
            (λ ys. pure (call_expr (node_offset (token_offset x)) x ys))
            (Done-later (remaining p) q (parse_arguments f settings q) l
              (h.arguments q t (omega arith)))
            λ y r u m. (u, m)

  pub parse_more-Done :
      (again : Bool) (p : Parser)
      → IsSafe p.cursor
      → 8 * remaining p + 4 ≤ suc f
      → Done (suc (remaining p)) (suc (remaining p)) (parse_more (suc f) settings again p)
  unfolding parse_more
  parse_more-Done true p s k = h.list p s (omega arith)
  parse_more-Done false p s k = (s, omega arith)

  pub parse_list-Done :
      (p : Parser)
      → IsSafe p.cursor
      → 8 * remaining p + 3 ≤ suc f
      → Done (suc (remaining p)) (suc (remaining p)) (parse_list (suc f) settings p)
  unfolding parse_list
  parse_list-Done p s k =
      let n = remaining p in
      Done-bind n (suc n) (suc n) (suc n) (parse_expression f settings Precedence.statement p)
        (λ e. match_kind comma >>= λ again. parse_more f settings again >>= λ es. pure (node e es))
        (h.expression Precedence.statement p s (omega arith)) (omega arith)
        λ e q t l.
          Done-bind (suc (remaining q)) (suc (remaining q)) (suc n) (suc n) (match_kind comma q)
            (λ again. parse_more f settings again >>= λ es. pure (node e es))
            (match_kind-Done comma q t) (omega arith)
            λ again r u m.
              Done-bind (suc (remaining r)) (suc (remaining r)) (suc n) (suc n)
                (parse_more f settings again r) (λ es. pure (node e es))
                (h.more again r u (omega arith)) (omega arith) λ es v w o. (w, omega arith)

  pub parse_arguments-Done :
      (p : Parser)
      → IsSafe p.cursor
      → 8 * remaining p + 4 ≤ suc f
      → Done (suc (remaining p)) (suc (remaining p)) (parse_arguments (suc f) settings p)
  unfolding parse_arguments
  parse_arguments-Done p s k =
      let n = suc (remaining p) in
      let closing : AstExpressions → M AstExpressions =
        λ as'. expect settings r_paren expect_closing_paren_in_call >> pure as' in
      unless_matched_rule (Done n n) r_paren AstExpressions.none (parse_list f settings >>= closing)
        p (λ _. let (x, y) = advance-IsSafe p.cursor s in (x, omega arith))
        λ _.
          Done-bind n n n n (parse_list f settings p) closing (h.list p s (omega arith))
            (omega arith)
            λ as' q t l.
              Done-bind (suc (remaining q)) (suc (remaining q)) n n
                (expect settings r_paren expect_closing_paren_in_call q) (λ _. pure as')
                (expect-Done settings r_paren expect_closing_paren_in_call q t) (omega arith)
                λ _ r u m. (u, omega arith)

  pub parse_statement-Done :
      (p : Parser)
      → IsSafe p.cursor
      → 8 * remaining p + 3 ≤ suc f
      → Done (remaining p) (suc (remaining p)) (parse_statement (suc f) settings p)
  unfolding parse_statement peek_kind
  parse_statement-Done p s k =
      let n = remaining p in
      if_rule (Done n (suc n)) (kind_eq p.cursor.current.kind l_brace)
        (λ e. h.head on_prefix_left_brace p s (brace_not_eof p.cursor.current.kind e) (omega arith))
        λ _.
          Done-after n (parse_expression f settings Precedence.statement p)
            (λ e. expect settings semicolon expect_semicolon >> pure e)
            (h.expression Precedence.statement p s (omega arith))
            λ e q t l.
              Done-after n (expect settings semicolon expect_semicolon q) (λ _. pure e)
                (Done-later n q (expect settings semicolon expect_semicolon q) l
                  (expect-Done settings semicolon expect_semicolon q t))
                λ _ r u m. (u, m)
