-- ===== src/Parser/Signatures.antt =====
-- The fuel for the methods of function definitions (cero/syntax/parser.cc).
use cero.Common.{
  ℕ, zero, suc, ◌+◌, ◌*◌, ◌≤◌, ◌<◌, Bool, true, false, Option, none, some, [], ◌∷◌, ◌≡◌, refl,
  arith, if_rule, if◌then◌else◌, Bool-cases, inl, inr,
}
use cero.Ast.{
  empty_name, AstExpression, AstFunctionParameter, AccessModifier, is_empty, name_from, ident_expr,
  node_offset,
}
use cero.Parser.Definitions.{
  identifier_expression, parse_type, require_name, parse_function_definition_parameter,
  parse_function_definition_output, parse_items, parse_function_definition_parameters,
  parse_function_definition_outputs, parse_function_definition,
}
use cero.Parser.Enough.Blocks.{enough}
use cero.Parser.Expressions.{parse_block}
use cero.Parser.Progress.{
  IsSafe, remaining, Done, Done-weaken, Done-bind, Done-after, Done-later, next-Done,
  match_kind-Done, match_token_kind-Done, report_expected-Done, fail_expected-Done, expect-Done,
  advance-progress,
}
use cero.Parser.State.{
  report_expected, Parser, Settings, ok, M, ◌>>=◌, ◌>>◌, pure, run_in, next, match_kind,
  match_token_kind, expect, expect_matched, expect_identifier, name_or_report,
}
use cero.Report.{
  Message, expect_paren_after_function_name, expect_parameter_type, expect_parameter_name,
  expect_paren_after_parameters, expect_return_type, expect_brace_before_function_body,
}
use cero.Token.Cursor
use cero.Token.Cursor.{TokenCursor, peek_kind}
use cero.Token.{
  Token, TokenKind, kind_eq, to_underlying, identifier, end_of_file, comma, r_paren, l_paren,
  l_brace, thin_arrow,
}

identifier_not_eof :
    (kind : TokenKind) → kind_eq kind identifier ≡ true → kind_eq kind end_of_file ≡ false
unfolding kind_eq to_underlying
identifier_not_eof kind h = ground arith

parse_type-Done :
    (settings : Settings) (message : Message) (p : Parser)
    → IsSafe p.cursor
    → Done (remaining p) (suc (remaining p)) (parse_type settings message p)
unfolding parse_type peek_kind identifier_expression
parse_type-Done settings message p s =
    if_rule (Done (remaining p) (suc (remaining p))) (kind_eq p.cursor.current.kind identifier)
      (λ e.
        Done-bind (remaining p) (remaining p) (remaining p) (suc (remaining p)) (next p)
          (λ token. pure (ident_expr (node_offset token.offset) token.variable_length))
          (next-Done p s (identifier_not_eof p.cursor.current.kind e)) (omega arith)
          λ x q t l. (t, l))
      (λ _. fail_expected-Done AstExpression settings message p (remaining p) s)

name_or_report-Done :
    (settings : Settings) (message : Message) (n : ℕ) (token : Option Token) (p : Parser)
    → IsSafe p.cursor
    → remaining p < n
    → Done n n (name_or_report settings message token p)
unfolding name_or_report
name_or_report-Done settings message n (some t) p s h = (s, h)
name_or_report-Done settings message n none p s h =
    Done-bind n n n n (report_expected settings message p) (λ _ q. ok empty_name q)
      (report_expected-Done settings message p n s h) (omega arith) λ _ q t l. (t, l)

expect_identifier-Done :
    (settings : Settings) (message : Message) (p : Parser)
    → IsSafe p.cursor
    → Done (suc (remaining p)) (suc (remaining p)) (expect_identifier settings message p)
unfolding expect_identifier
expect_identifier-Done settings message p s =
    Done-bind (suc (remaining p)) (suc (remaining p)) (suc (remaining p)) (suc (remaining p))
      (match_token_kind identifier p) (name_or_report settings message)
      (match_token_kind-Done identifier p s) (omega arith)
      (name_or_report-Done settings message (suc (remaining p)))

-- An item of a list that is parsed by one method again and again.
abbrev Steps : {A : Type 0} → M A → Type 0
Steps item = (p : Parser) → IsSafe p.cursor → Done (remaining p) (suc (remaining p)) (item p)

require_name-Done :
    (n : ℕ) (param : AstFunctionParameter) (p : Parser)
    → IsSafe p.cursor
    → remaining p < n
    → Done n (suc n) (require_name param p)
unfolding require_name
require_name-Done n param p s h =
    if_rule (Done n (suc n)) (is_empty param.name) (λ _. (s, omega arith)) (λ _. (s, h))

parse_function_definition_parameter-Steps :
    (settings : Settings) → Steps (parse_function_definition_parameter settings)
unfolding parse_function_definition_parameter
parse_function_definition_parameter-Steps settings p s =
    let n = remaining p in
    Done-after n (parse_type settings expect_parameter_type p) _
      (parse_type-Done settings expect_parameter_type p s)
      λ type q t l.
        Done-after n (expect_identifier settings expect_parameter_name q) _
          (Done-later n q (expect_identifier settings expect_parameter_name q) l
            (expect_identifier-Done settings expect_parameter_name q t))
          λ name r u m. require_name-Done n _ r u m

parse_function_definition_output-Steps :
    (settings : Settings) → Steps (parse_function_definition_output settings)
unfolding parse_function_definition_output
parse_function_definition_output-Steps settings p s =
    Done-after (remaining p) (parse_type settings expect_return_type p) _
      (parse_type-Done settings expect_return_type p s) λ type q t l. (t, l)

parse_items-Done :
    {A : Type 0} (f : ℕ) (item : M A) (p : Parser)
    → Steps item
    → IsSafe p.cursor
    → remaining p < f
    → Done (suc (remaining p)) (suc (remaining p)) (parse_items f item p)
unfolding parse_items
parse_items-Done zero item p h s k = absurd (omega arith)
parse_items-Done (suc f) item p h s k =
    let n = remaining p in
    Done-bind n (suc n) (suc n) (suc n) (item p) _ (h p s) (omega arith) λ a q t l.
      Done-bind (suc (remaining q)) (suc (remaining q)) (suc n) (suc n) (match_kind comma q) _
        (match_kind-Done comma q t) (omega arith)
        λ again r u m.
          Done-bind (suc n) (suc n) (suc n) (suc n)
            (let rest = parse_items f item r in if again then rest else ok [] r)
            (λ as'. pure (a ∷ as'))
            (if_rule (Done (suc n) (suc n)) again
              (λ _.
                Done-weaken (suc (remaining r)) (suc (remaining r)) (suc n) (suc n)
                  (parse_items f item r) (omega arith) (omega arith)
                  (parse_items-Done f item r h u (omega arith)))
              (λ _. (u, omega arith)))
            (omega arith) λ as' v w o. (w, o)

parameters_then :
    (fuel : ℕ) (settings : Settings) (n : ℕ) (closed : Bool) (q : Parser)
    → IsSafe q.cursor
    → remaining q < n
    → n ≤ fuel
    → Done n n (
        run_in q (
          if closed then pure [] else do
            parameters ← parse_items fuel (parse_function_definition_parameter settings)
            expect settings r_paren expect_paren_after_parameters
            pure parameters))
parameters_then fuel settings n true q s l k = (s, l)
parameters_then fuel settings n false q s l k =
    Done-bind (suc (remaining q)) (suc (remaining q)) n n
      (parse_items fuel (parse_function_definition_parameter settings) q) _
      (parse_items-Done fuel (parse_function_definition_parameter settings) q
        (parse_function_definition_parameter-Steps settings) s (omega arith))
      (omega arith)
      λ parameters r t m.
        Done-bind (suc (remaining r)) (suc (remaining r)) n n
          (expect settings r_paren expect_paren_after_parameters r) _
          (expect-Done settings r_paren expect_paren_after_parameters r t) (omega arith)
          λ _ v u o. (u, omega arith)

parse_function_definition_parameters-Done :
    (fuel : ℕ) (settings : Settings) (p : Parser)
    → IsSafe p.cursor
    → remaining p < fuel
    → Done
        (suc (remaining p))
        (suc (remaining p))
        (parse_function_definition_parameters fuel settings p)
unfolding parse_function_definition_parameters
parse_function_definition_parameters-Done fuel settings p s k =
    let n = suc (remaining p) in
    Done-bind n n n n (match_kind r_paren p) _ (match_kind-Done r_paren p s) (omega arith)
      λ closed q t l. parameters_then fuel settings n closed q t l (omega arith)

outputs_then :
    (fuel : ℕ) (settings : Settings) (n : ℕ) (arrow : Bool) (q : Parser)
    → IsSafe q.cursor
    → remaining q < n
    → n ≤ fuel
    → Done n n (
        run_in q
          (if arrow then parse_items fuel (parse_function_definition_output settings) else pure []))
outputs_then fuel settings n true q s l k =
    Done-weaken (suc (remaining q)) (suc (remaining q)) n n
      (parse_items fuel (parse_function_definition_output settings) q) (omega arith) (omega arith)
      (parse_items-Done fuel (parse_function_definition_output settings) q
        (parse_function_definition_output-Steps settings) s (omega arith))
outputs_then fuel settings n false q s l k = (s, l)

parse_function_definition_outputs-Done :
    (fuel : ℕ) (settings : Settings) (p : Parser)
    → IsSafe p.cursor
    → remaining p < fuel
    → Done
        (suc (remaining p))
        (suc (remaining p))
        (parse_function_definition_outputs fuel settings p)
unfolding parse_function_definition_outputs
parse_function_definition_outputs-Done fuel settings p s k =
    let n = suc (remaining p) in
    Done-bind n n n n (match_kind thin_arrow p) _ (match_kind-Done thin_arrow p s) (omega arith)
      λ arrow q t l. outputs_then fuel settings n arrow q t l (omega arith)

same_kind :
    (a kind : TokenKind)
    → kind_eq a kind ≡ true
    → kind_eq kind end_of_file ≡ false
    → kind_eq a end_of_file ≡ false
unfolding kind_eq
same_kind a kind h k = ground arith

-- An expected token that is not the end of file is consumed.
expect-progress :
    (settings : Settings) (kind : TokenKind) (message : Message) (p : Parser)
    → IsSafe p.cursor
    → kind_eq kind end_of_file ≡ false
    → Done (remaining p) (suc (remaining p)) (expect settings kind message p)
unfolding expect match_kind Cursor.match expect_matched
expect-progress settings kind message p s h =
    elim (Bool-cases (kind_eq p.cursor.current.kind kind)) [
      | inl e ↦
          rw (e, Cursor.match)
            (advance-progress p.cursor s (same_kind p.cursor.current.kind kind e h))
      | inr e ↦
          rw (e, Cursor.match)
            (fail_expected-Done {0} (Unit {0}) settings message p (remaining p) s)
    ]

pub parse_function_definition-Done :
    (fuel : ℕ) (settings : Settings) (offset : ℕ) (access : AccessModifier) (name : Token)
    (p : Parser)
    → IsSafe p.cursor
    → 8 * remaining p + 4 ≤ fuel
    → Done
        (remaining p)
        (suc (remaining p))
        (parse_function_definition fuel settings offset access name p)
unfolding parse_function_definition kind_eq
parse_function_definition-Done fuel settings offset access name p s k =
    let n = remaining p in
    Done-after n (expect settings l_paren expect_paren_after_function_name p) _
      (expect-progress settings l_paren expect_paren_after_function_name p s refl)
      λ _ q t l.
        Done-after n (parse_function_definition_parameters fuel settings q) _
          (Done-later n q (parse_function_definition_parameters fuel settings q) l
            (parse_function_definition_parameters-Done fuel settings q t (omega arith)))
          λ parameters q2 t2 l2.
            Done-after n (parse_function_definition_outputs fuel settings q2) _
              (Done-later n q2 (parse_function_definition_outputs fuel settings q2) l2
                (parse_function_definition_outputs-Done fuel settings q2 t2 (omega arith)))
              λ outputs q3 t3 l3.
                Done-after n (expect settings l_brace expect_brace_before_function_body q3) _
                  (Done-later n q3 (expect settings l_brace expect_brace_before_function_body q3) l3
                    (expect-Done settings l_brace expect_brace_before_function_body q3 t3))
                  λ _ q4 t4 l4.
                    Done-after n (parse_block fuel settings q4)
                      (λ statements. pure (record {
                        token_offset = node_offset offset;
                        access_modifier = access;
                        name = name_from name;
                        parameters = parameters;
                        outputs = outputs;
                        statements = statements;
                      }))
                      (Done-later n q4 (parse_block fuel settings q4) l4
                        ((enough fuel settings).block q4 t4 (omega arith)))
                      λ statements r u m. (u, m)
