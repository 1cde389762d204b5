-- ===== src/Parser/Within/Signatures.antt =====
-- The parameters and outputs of function definitions (cero/syntax/parser.cc) keep within the text.
use cero.Common.{
  length, ℕ, zero, suc, ◌≤◌, Bool, true, false, Option, none, some, [], ◌∷◌, All, if◌then◌else◌,
  refl, arith, if_rule,
}
use cero.Ast.{
  empty_name, AstExpression, AstFunctionParameter, AstFunctionOutput, AstFunctionDefinition,
  AstName, is_empty, name_from, node_offset, ident_expr,
}
use cero.Parser.Definitions.{
  identifier_expression, parse_type, require_name, parse_function_definition_parameter,
  parse_function_definition_output, parse_items, parse_function_definition_parameters,
  parse_function_definition_outputs,
}
use cero.Parser.State.{
  Parser, Settings, ok, M, ◌>>=◌, ◌>>◌, pure, run_in, next, match_kind, match_token_kind, expect,
  expect_identifier, name_or_report, report_expected,
}
use cero.Parser.Within.{
  NodeWithin, NodesWithin, TakesOne, TokenWithin, Anything, IsGood, Keeps, Keeps-bind, OptionWithin,
  next-Keeps, match_kind-Keeps, match_token_kind-Keeps, fail_expected-Keeps, expect-Keeps,
  report_expected-Keeps,
}
use cero.Report.{
  Message, expect_paren_after_function_name, expect_parameter_type, expect_parameter_name,
  expect_paren_after_parameters, expect_return_type, expect_brace_before_function_body,
  expect_function_struct_or_enum, get_message_format_string, placeholder_count,
}
use cero.Token.Cursor.{peek_kind}
use cero.Token.{Token, kind_eq, identifier, comma, r_paren, thin_arrow}

abbrev pub NameWithin : Settings → AstName → Type 0
NameWithin settings n = n.offset ≤ length settings.source.text

abbrev pub ParameterWithin : Settings → AstFunctionParameter → Type 0
ParameterWithin settings p = NameWithin settings p.name × NodeWithin settings p.type

abbrev pub OutputWithin : Settings → AstFunctionOutput → Type 0
OutputWithin settings o = NameWithin settings o.name × NodeWithin settings o.type

-- The names and expressions of a definition begin in the text, or at its end.
pub record DefinitionWithin (settings : Settings) (d : AstFunctionDefinition) : Type 0 where
  pub name : NameWithin settings d.name
  pub parameters : All (ParameterWithin settings) d.parameters
  pub outputs : All (OutputWithin settings) d.outputs
  pub statements : NodesWithin settings d.statements

pub takes_one :
    (TakesOne expect_paren_after_function_name)
    × (TakesOne expect_parameter_type)
    × (TakesOne expect_parameter_name)
    × (TakesOne expect_paren_after_parameters)
    × (TakesOne expect_return_type)
    × (TakesOne expect_brace_before_function_body)
    × TakesOne expect_function_struct_or_enum
unfolding placeholder_count get_message_format_string
takes_one = (refl, refl, refl, refl, refl, refl, refl)

module _ (settings : Settings) where
  parse_type-Keeps :
      (message : Message) (p : Parser)
      → TakesOne message
      → IsGood settings p
      → Keeps settings (NodeWithin settings) (parse_type settings message p)
  unfolding parse_type identifier_expression node_offset
  parse_type-Keeps message p one g =
      if_rule (Keeps settings (NodeWithin settings)) (kind_eq (peek_kind p.cursor) identifier)
        (λ _.
          Keeps-bind settings (TokenWithin settings) (NodeWithin settings) (next p)
            (λ token q. ok (ident_expr (node_offset token.offset) token.variable_length) q)
            (next-Keeps settings p g) λ x q k w. let l = w.0 in (k, omega arith))
        (λ _. fail_expected-Keeps settings AstExpression (NodeWithin settings) message p one g)

  name_or_report-Keeps :
      (message : Message) (token : Option Token) (p : Parser)
      → TakesOne message
      → IsGood settings p
      → OptionWithin settings token
      → Keeps settings (NameWithin settings) (name_or_report settings message token p)
  unfolding name_or_report name_from
  name_or_report-Keeps message (some t) p one g w = (g, w.0)
  name_or_report-Keeps message none p one g w =
      Keeps-bind settings Anything (NameWithin settings) (report_expected settings message p)
        (λ _ q. ok empty_name q) (report_expected-Keeps settings message p one g)
        λ _ q k _. (k, omega arith)

  expect_identifier-Keeps :
      (message : Message) (p : Parser)
      → TakesOne message
      → IsGood settings p
      → Keeps settings (NameWithin settings) (expect_identifier settings message p)
  unfolding expect_identifier
  expect_identifier-Keeps message p one g =
      Keeps-bind settings (OptionWithin settings) (NameWithin settings)
        (match_token_kind identifier p) (name_or_report settings message)
        (match_token_kind-Keeps settings identifier p g)
        λ t q k w. name_or_report-Keeps message t q one k w

  require_name-Keeps :
      (param : AstFunctionParameter) (p : Parser)
      → IsGood settings p
      → ParameterWithin settings param
      → Keeps settings (ParameterWithin settings) (require_name param p)
  unfolding require_name
  require_name-Keeps param p g w =
      if_rule (Keeps settings (ParameterWithin settings)) (is_empty param.name) (λ _. g)
        (λ _. (g, w))

  parameter-Keeps :
      (p : Parser)
      → IsGood settings p
      → Keeps settings (ParameterWithin settings) (parse_function_definition_parameter settings p)
  unfolding parse_function_definition_parameter
  parameter-Keeps p g =
      Keeps-bind settings (NodeWithin settings) (ParameterWithin settings)
        (parse_type settings expect_parameter_type p) _
        (parse_type-Keeps expect_parameter_type p takes_one.1 g)
        λ type q k w.
          Keeps-bind settings (NameWithin settings) (ParameterWithin settings)
            (expect_identifier settings expect_parameter_name q) _
            (expect_identifier-Keeps expect_parameter_name q takes_one.2 k)
            λ name r m v. require_name-Keeps _ r m (v, w)

  output-Keeps :
      (p : Parser)
      → IsGood settings p
      → Keeps settings (OutputWithin settings) (parse_function_definition_output settings p)
  unfolding parse_function_definition_output
  output-Keeps p g =
      Keeps-bind settings (NodeWithin settings) (OutputWithin settings)
        (parse_type settings expect_return_type p) _
        (parse_type-Keeps expect_return_type p takes_one.4 g) λ type q k w. (k, (omega arith, w))

  parse_items-Keeps :
      {A : Type 0} (Q : A → Type 0) (f : ℕ) (item : M A) (p : Parser)
      → ((q : Parser) → IsGood settings q → Keeps settings Q (item q))
      → IsGood settings p
      → Keeps settings (All Q) (parse_items f item p)
  unfolding parse_items
  parse_items-Keeps Q zero item p h g = tt
  parse_items-Keeps Q (suc f) item p h g =
      Keeps-bind settings Q (All Q) (item p) _ (h p g) λ a q k w.
        Keeps-bind settings Anything (All Q) (match_kind comma q) _
          (match_kind-Keeps settings comma q k)
          λ again r m _.
            Keeps-bind settings (All Q) (All Q)
              (let rest = parse_items f item r in if again then rest else ok [] r)
              (λ as' s. ok (a ∷ as') s)
              (if_rule (Keeps settings (All Q)) again (λ _. parse_items-Keeps Q f item r h m)
                (λ _. (m, tt)))
              λ as' s n v. (n, (w, v))

  parameters_then :
      (fuel : ℕ) (closed : Bool) (q : Parser)
      → IsGood settings q
      → Keeps settings (All (ParameterWithin settings)) (
          run_in q (
            if closed then pure [] else do
              parameters ← parse_items fuel (parse_function_definition_parameter settings)
              expect settings r_paren expect_paren_after_parameters
              pure parameters))
  parameters_then fuel true q g = (g, tt)
  parameters_then fuel false q g =
      Keeps-bind settings (All (ParameterWithin settings)) (All (ParameterWithin settings))
        (parse_items fuel (parse_function_definition_parameter settings) q) _
        (parse_items-Keeps (ParameterWithin settings) fuel
          (parse_function_definition_parameter settings) q parameter-Keeps g)
        λ parameters r k w.
          Keeps-bind settings Anything (All (ParameterWithin settings))
            (expect settings r_paren expect_paren_after_parameters r) _
            (expect-Keeps settings r_paren expect_paren_after_parameters r takes_one.3 k)
            λ _ v m _. (m, w)

  outputs_then :
      (fuel : ℕ) (arrow : Bool) (q : Parser)
      → IsGood settings q
      → Keeps settings (All (OutputWithin settings)) (
          run_in q (
            if arrow
            then parse_items fuel (parse_function_definition_output settings)
            else pure []))
  outputs_then fuel true q g =
      parse_items-Keeps (OutputWithin settings) fuel (parse_function_definition_output settings) q
        output-Keeps g
  outputs_then fuel false q g = (g, tt)

  pub parameters-Keeps :
      (fuel : ℕ) (p : Parser)
      → IsGood settings p
      → Keeps settings
          (All (ParameterWithin settings))
          (parse_function_definition_parameters fuel settings p)
  unfolding parse_function_definition_parameters
  parameters-Keeps fuel p g =
      Keeps-bind settings Anything (All (ParameterWithin settings)) (match_kind r_paren p) _
        (match_kind-Keeps settings r_paren p g) λ closed q k _. parameters_then fuel closed q k

  pub outputs-Keeps :
      (fuel : ℕ) (p : Parser)
      → IsGood settings p
      → Keeps settings
          (All (OutputWithin settings))
          (parse_function_definition_outputs fuel settings p)
  unfolding parse_function_definition_outputs
  outputs-Keeps fuel p g =
      Keeps-bind settings Anything (All (OutputWithin settings)) (match_kind thin_arrow p) _
        (match_kind-Keeps settings thin_arrow p g) λ arrow q k _. outputs_then fuel arrow q k
