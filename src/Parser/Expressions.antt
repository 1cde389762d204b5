-- ===== src/Parser/Expressions.antt =====
-- Expressions, statements and blocks (cero/syntax/parser.cc). The methods call one another and
-- themselves behind tokens that they consume, so each call costs a unit of fuel.
use cero.Common.{
  ℕ, zero, suc, Bool, true, false, ◌||◌, Option, none, some, List, [], ◌∷◌, if◌then◌else◌,
}
use cero.Ast.{
  AstExpression, AstExpressions, ident_expr, literal_expr, block_expr, return_expr, unary_expr,
  binary_expr, call_expr, node, node_offset, token_offset, BinaryOperator, shr,
}
use cero.Parser.Rules.{
  Precedence, prefix, HeadParseFunction, on_identifier, on_literal, on_prefix_left_brace,
  on_kw_return, on_prefix_operator, TailParseFunction, on_binary_operator, on_postfix_operator,
  on_infix_left_paren, lookup_head_parse_fn, get_next_tail_parse_fn,
  lookup_precedence_for_associativity,
}
use cero.Parser.State.{
  Parser, Settings, Outcome, ok, thrown, aborted, out_of_fuel, M, ◌>>=◌, ◌>>◌, pure, run_in,
  advance, next, match_kind, expect, fail_expected,
}
use cero.Report.{expect_expression, expect_semicolon, expect_closing_paren_in_call}
use cero.Token.Cursor.{TokenCursor, peek_kind}
use cero.Token.{TokenKind, Token, kind_eq, comma, semicolon, l_brace, r_brace, r_paren, end_of_file}

-- The loop of `recover_at_statement_level`, over the tokens behind the current one; the result is
-- true at the end of the file. An array that does not end in an end of file is left at its end.
unfoldable pub skip_statement : Token → List Token → Bool × TokenCursor
skip_statement t [] =
    if kind_eq t.kind semicolon || kind_eq t.kind r_brace
    then (false, record { current = t; after = [] })
    else (true, record { current = t; after = [] })
skip_statement t (u ∷ us) =
    let rest = skip_statement u us in
    if kind_eq t.kind end_of_file
    then (true, record { current = t; after = u ∷ us })
    else if kind_eq t.kind semicolon
    then (false, record { current = u; after = us })
    else if kind_eq t.kind r_brace
    then (false, record { current = t; after = u ∷ us })
    else rest

unfoldable pub recover_at_statement_level : Parser → Bool × Parser
unfolding skip_statement
recover_at_statement_level p =
    let (at_end, c) = skip_statement p.cursor.current p.cursor.after in
    (at_end, record p { cursor = c })

-- `cursor_.advance()`, twice for a shift, whose operator is two tokens.
unfoldable pub advance_operator : BinaryOperator → M (Unit {0})
unfolding advance
advance_operator shr = do advance; advance
advance_operator _ = advance

unfoldable pub peek_head : Parser → Option HeadParseFunction
unfolding lookup_head_parse_fn peek_kind
peek_head p = lookup_head_parse_fn (peek_kind p.cursor)

unfoldable pub peek_tail : Precedence → Parser → Option TailParseFunction
unfolding get_next_tail_parse_fn
peek_tail precedence p = get_next_tail_parse_fn precedence p.cursor

unfoldable pub is_expression_next : Parser → Bool
unfolding peek_head
is_expression_next p = elim (peek_head p) [ none ↦ false | some _ ↦ true ]

-- The statements of a block behind one that was parsed, or behind one that was given up.
unfoldable pub put_statement : AstExpression → Outcome AstExpressions → Outcome AstExpressions
put_statement e (ok es p) = ok (node e es) p
put_statement e (thrown p) = thrown p
put_statement e aborted = aborted
put_statement e out_of_fuel = out_of_fuel

unfoldable pub after_recovery :
    (Parser → Outcome AstExpressions) → Bool × Parser → Outcome AstExpressions
after_recovery rest (true, p) = ok AstExpressions.none p
after_recovery rest (false, p) = rest p

-- `try { put(statements, parse_statement()); } catch (ParseError) { recover; }` and the later rounds.
unfoldable pub catch_statement :
    (Parser → Outcome AstExpressions) → Outcome AstExpression → Outcome AstExpressions
unfolding put_statement after_recovery recover_at_statement_level
catch_statement rest (ok e p) = put_statement e (rest p)
catch_statement rest (thrown p) = after_recovery rest (recover_at_statement_level p)
catch_statement rest aborted = aborted
catch_statement rest out_of_fuel = out_of_fuel

-- A round of a loop that ends at a token, which it consumes.
unfoldable pub unless_matched : {A : Type 0} → TokenKind → A → M A → M A
unfolding match_kind
unless_matched kind a m = do b ← match_kind kind; if b then pure a else m

unfoldable mutual
  pub parse_expression : ℕ → Settings → Precedence → M AstExpression
  parse_expression zero settings precedence p = out_of_fuel
  parse_expression (suc f) settings precedence p = elim (peek_head p) [
    | none ↦ fail_expected settings expect_expression p
    | some head_fn ↦
        run_in p do expr ← run_head f settings head_fn; parse_tails f settings precedence expr
  ]

  -- `(this->*head_fn)()`.
  pub run_head : ℕ → Settings → HeadParseFunction → M AstExpression
  run_head zero settings head_fn p = out_of_fuel
  run_head (suc f) settings on_identifier p =
      run_in p do token ← next; pure (ident_expr (node_offset token.offset) token.variable_length)
  run_head (suc f) settings (on_literal kind) p =
      run_in p
        do token ← next; pure (literal_expr (node_offset token.offset) kind token.variable_length)
  run_head (suc f) settings on_prefix_left_brace p = run_in p do
    token ← next
    statements ← parse_block f settings
    pure (block_expr (node_offset token.offset) statements)
  run_head (suc f) settings on_kw_return p = run_in p do
    token ← next
    ret_values ← parse_return_values f settings
    pure (return_expr (node_offset token.offset) ret_values)
  run_head (suc f) settings (on_prefix_operator op) p = run_in p do
    token ← next
    operand ← parse_expression f settings prefix
    pure (unary_expr (node_offset token.offset) op operand)

  pub parse_return_values : ℕ → Settings → M AstExpressions
  parse_return_values zero settings p = out_of_fuel
  parse_return_values (suc f) settings p =
      let values = parse_list f settings p in
      if is_expression_next p then values else ok AstExpressions.none p

  -- The loop that lets rules go on from the expression so far.
  pub parse_tails : ℕ → Settings → Precedence → AstExpression → M AstExpression
  parse_tails zero settings precedence expr p = out_of_fuel
  parse_tails (suc f) settings precedence expr p = elim (peek_tail precedence p) [
    | none ↦ ok expr p
    | some tail_fn ↦
        run_in p
          do longer ← run_tail f settings tail_fn expr; parse_tails f settings precedence longer
  ]

  -- `(this->*tail_fn)(expr)`.
  pub run_tail : ℕ → Settings → TailParseFunction → AstExpression → M AstExpression
  run_tail zero settings tail_fn left p = out_of_fuel
  run_tail (suc f) settings (on_binary_operator op) left p = run_in p do
    advance_operator op
    right ← parse_expression f settings (lookup_precedence_for_associativity op)
    pure (binary_expr (node_offset (token_offset left)) op left right)
  run_tail (suc f) settings (on_postfix_operator op) left p =
      run_in p do advance; pure (unary_expr (node_offset (token_offset left)) op left)
  run_tail (suc f) settings on_infix_left_paren left p = run_in p do
    advance
    arguments ← parse_arguments f settings
    pure (call_expr (node_offset (token_offset left)) left arguments)

  pub parse_arguments : ℕ → Settings → M AstExpressions
  parse_arguments zero settings p = out_of_fuel
  parse_arguments (suc f) settings p = run_in p (
      unless_matched r_paren AstExpressions.none (do
        arguments ← parse_list f settings
        expect settings r_paren expect_closing_paren_in_call
        pure arguments))

  -- `do { put(list, parse_expression()); } while (cursor_.match(comma));`
  pub parse_list : ℕ → Settings → M AstExpressions
  parse_list zero settings p = out_of_fuel
  parse_list (suc f) settings p = run_in p do
    e ← parse_expression f settings Precedence.statement
    again ← match_kind comma
    es ← parse_more f settings again
    pure (node e es)

  pub parse_more : ℕ → Settings → Bool → M AstExpressions
  parse_more zero settings again p = out_of_fuel
  parse_more (suc f) settings true p = parse_list f settings p
  parse_more (suc f) settings false p = ok AstExpressions.none p

  pub parse_block : ℕ → Settings → M AstExpressions
  parse_block zero settings p = out_of_fuel
  parse_block (suc f) settings p = run_in p (
      unless_matched r_brace AstExpressions.none
        λ q. catch_statement (parse_block f settings) (parse_statement f settings q))

  -- A block needs no semicolon; the other statements do.
  pub parse_statement : ℕ → Settings → M AstExpression
  parse_statement zero settings p = out_of_fuel
  parse_statement (suc f) settings p =
      let block = run_head f settings on_prefix_left_brace p in
      let expression = run_in p do
        last_expr ← parse_expression f settings Precedence.statement
        expect settings semicolon expect_semicolon
        pure last_expr
      in if kind_eq (peek_kind p.cursor) l_brace then block else expression
