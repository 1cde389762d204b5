-- ===== src/Parser/Enough/Heads.antt =====
-- The fuel for expressions, their heads and the loop over their tails (cero/syntax/parser.cc).
use cero.Common.{ℕ, suc, ◌+◌, ◌*◌, ◌≤◌, ◌<◌, arith, if_rule, Option-cases, inl, inr}
use cero.Ast.{
  AstExpression, node_offset, ident_expr, literal_expr, block_expr, return_expr, unary_expr,
}
use cero.Parser.Expressions.{
  parse_expression, run_head, parse_return_values, parse_tails, run_tail, parse_block, peek_head,
  peek_tail, is_expression_next,
}
use cero.Parser.Progress.{
  IsSafe, remaining, Done, Done-weaken, Done-bind, Done-after, Done-later, head_not_eof,
  get_next_tail_parse_fn-not_eof, next-Done, fail_expected-Done,
}
use cero.Parser.Rules.{
  Precedence, prefix, HeadParseFunction, on_identifier, on_literal, on_prefix_left_brace,
  on_kw_return, on_prefix_operator,
}
use cero.Parser.State.{Parser, Settings, M, next, bind, ◌>>=◌, pure}
use cero.Report.{expect_expression}
use cero.Token.{Token}
use cero.Parser.Enough.{Enough, NotAtEnd}

module _ (f : ℕ) (settings : Settings) (h : Enough f settings) where
  pub parse_expression-Done :
      (precedence : Precedence) (p : Parser)
      → IsSafe p.cursor
      → 8 * remaining p + 2 ≤ suc f
      → Done (remaining p) (suc (remaining p)) (parse_expression (suc f) settings precedence p)
  unfolding parse_expression peek_head
  parse_expression-Done precedence p s k = elim (Option-cases (peek_head p)) [
    | inl e ↦
        rw (e, parse_expression)
          (fail_expected-Done AstExpression settings expect_expression p (remaining p) s)
    | inr (head_fn, e) ↦
        rw (e, parse_expression)
          (Done-after (remaining p) (run_head f settings head_fn p)
            (parse_tails f settings precedence)
            (h.head head_fn p s (head_not_eof p.cursor.current.kind head_fn e) (omega arith))
            λ x q t l.
              Done-later (remaining p) q (parse_tails f settings precedence x q) l
                (h.tails precedence x q t (omega arith)))
  ]

  -- The token that a head begins with, then the rest of it.
  next-then {ℓ} :
      {B : Type ℓ} (p : Parser) (k : Token → M B)
      → IsSafe p.cursor
      → NotAtEnd p
      → ((x : Token) (q : Parser)
          → IsSafe q.cursor
          → remaining q < remaining p
          → Done (remaining p) (suc (remaining p)) (k x q))
      → Done (remaining p) (suc (remaining p)) (bind (next p) k)
  next-then p k s e w =
      Done-bind (remaining p) (remaining p) (remaining p) (suc (remaining p)) (next p) k
        (next-Done p s e) (omega arith) w

  pub run_head-Done :
      (head_fn : HeadParseFunction) (p : Parser)
      → IsSafe p.cursor
      → NotAtEnd p
      → 8 * remaining p + 1 ≤ suc f
      → Done (remaining p) (suc (remaining p)) (run_head (suc f) settings head_fn p)
  unfolding run_head
  run_head-Done on_identifier p s e k =
      next-then p (λ token. pure (ident_expr (node_offset token.offset) token.variable_length)) s e
        λ x q t l. (t, l)
  run_head-Done (on_literal kind) p s e k =
      next-then p
        (λ token. pure (literal_expr (node_offset token.offset) kind token.variable_length)) s e
        λ x q t l. (t, l)
  run_head-Done on_prefix_left_brace p s e k =
      next-then p
        (λ token. parse_block f settings >>= λ es. pure (block_expr (node_offset token.offset) es))
        s e
        λ x q t l.
          Done-after (remaining p) (parse_block f settings q)
            (λ es. pure (block_expr (node_offset x.offset) es))
            (Done-later (remaining p) q (parse_block f settings q) l (h.block q t (omega arith)))
            λ y r u m. (u, m)
  run_head-Done on_kw_return p s e k =
      next-then p
        (λ token.
          parse_return_values f settings >>= λ es. pure (return_expr (node_offset token.offset) es))
        s e
        λ x q t l.
          Done-after (remaining p) (parse_return_values f settings q)
            (λ es. pure (return_expr (node_offset x.offset) es))
            (Done-later (remaining p) q (parse_return_values f settings q) l
              (h.return_values q t (omega arith)))
            λ y r u m. (u, m)
  run_head-Done (on_prefix_operator op) p s e k =
      next-then p
        (λ token. parse_expression f settings prefix >>= λ o.
          pure (unary_expr (node_offset token.offset) op o))
        s e
        λ x q t l.
          Done-after (remaining p) (parse_expression f settings prefix q)
            (λ o. pure (unary_expr (node_offset x.offset) op o))
            (Done-weaken (remaining q) (suc (remaining q)) (remaining p) (suc (remaining p))
              (parse_expression f settings prefix q) (omega arith) (omega arith)
              (h.expression prefix q t (omega arith)))
            λ y r u m. (u, m)

  pub parse_return_values-Done :
      (p : Parser)
      → IsSafe p.cursor
      → 8 * remaining p + 4 ≤ suc f
      → Done (suc (remaining p)) (suc (remaining p)) (parse_return_values (suc f) settings p)
  unfolding parse_return_values
  parse_return_values-Done p s k =
      if_rule (Done (suc (remaining p)) (suc (remaining p))) (is_expression_next p)
        (λ _. h.list p s (omega arith)) (λ _. (s, omega arith))

  pub parse_tails-Done :
      (precedence : Precedence) (x : AstExpression) (p : Parser)
      → IsSafe p.cursor
      → 8 * remaining p + 2 ≤ suc f
      → Done (suc (remaining p)) (suc (remaining p)) (parse_tails (suc f) settings precedence x p)
  unfolding parse_tails peek_tail
  parse_tails-Done precedence x p s k = elim (Option-cases (peek_tail precedence p)) [
    | inl e ↦ rw (e, parse_tails) (s, omega arith)
    | inr (tail_fn, e) ↦
        rw (e, parse_tails)
          (Done-weaken (remaining p) (suc (remaining p)) (suc (remaining p)) (suc (remaining p))
            (bind (run_tail f settings tail_fn x p) (parse_tails f settings precedence))
            (omega arith) (omega arith)
            (Done-after (remaining p) (run_tail f settings tail_fn x p)
              (parse_tails f settings precedence)
              (h.tail tail_fn x p s (get_next_tail_parse_fn-not_eof precedence p.cursor tail_fn e)
                (omega arith))
              λ y q t l.
                Done-later (remaining p) q (parse_tails f settings precedence y q) l
                  (h.tails precedence y q t (omega arith))))
  ]
