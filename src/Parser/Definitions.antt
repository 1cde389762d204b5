-- ===== src/Parser/Definitions.antt =====
-- Definitions and the main loop (cero/syntax/parser.cc).
use cero.Common.{
  ℕ, zero, suc, ◌+◌, ◌*◌, Bool, ◌||◌, Option, none, some, List, [], ◌∷◌, if◌then◌else◌, length,
}
use cero.Ast.{
  AstExpression, AstFunctionParameter, AstFunctionOutput, AstFunctionDefinition, AstRoot,
  AccessModifier, no_modifier, private_, public_, is_empty, name_from, node_offset, empty_name,
}
use cero.Parser.Expressions.{parse_block}
use cero.Parser.State.{
  Parser, Settings, Outcome, ok, thrown, aborted, out_of_fuel, M, bind, ◌>>=◌, ◌>>◌, pure, run_in,
  next, match_kind, match_token_kind, expect, expect_identifier, fail_expected,
}
use cero.Report.{
  Message, expect_function_struct_or_enum, expect_paren_after_function_name, expect_parameter_type,
  expect_parameter_name, expect_paren_after_parameters, expect_return_type,
  expect_brace_before_function_body,
}
use cero.Token.Cursor
use cero.Token.Cursor.{TokenCursor, peek_kind, peek_offset}
use cero.Token.{
  Token, TokenKind, kind_eq, identifier, comma, l_paren, r_paren, l_brace, thin_arrow, kw_public,
  kw_private, kw_struct, kw_enum, end_of_file,
}
use cero.Ast.{ident_expr}

unfoldable pub is_recovery_token : TokenKind → Bool
unfolding kind_eq
is_recovery_token kind =
    kind_eq kind kw_public
    || kind_eq kind kw_private
    || kind_eq kind kw_struct
    || kind_eq kind kw_enum
    || kind_eq kind end_of_file

-- The loop of `recover_at_definition_level` over the tokens behind the current one: at least one
-- token is left behind, unless the cursor is at the end.
unfoldable pub skip_definition : Token → List Token → TokenCursor
unfolding is_recovery_token
skip_definition t [] = record { current = t; after = [] }
skip_definition t (u ∷ us) =
    let rest = skip_definition u us in
    if kind_eq t.kind end_of_file
    then record { current = t; after = u ∷ us }
    else if is_recovery_token u.kind
    then record { current = u; after = us }
    else rest

unfoldable pub recover_at_definition_level : Parser → Parser
unfolding skip_definition
recover_at_definition_level p = record p {
  cursor = skip_definition p.cursor.current p.cursor.after;
}

-- `on_identifier`.
unfoldable pub identifier_expression : M AstExpression
unfolding next
identifier_expression = do
  token ← next
  pure (ident_expr (node_offset token.offset) token.variable_length)

unfoldable pub parse_type : Settings → Message → M AstExpression
unfolding identifier_expression fail_expected
parse_type settings message p =
    if kind_eq (peek_kind p.cursor) identifier
    then identifier_expression p
    else fail_expected settings message p

-- A malformed parameter gives up the definition.
unfoldable pub require_name : AstFunctionParameter → M AstFunctionParameter
unfolding is_empty
require_name param p = if is_empty param.name then thrown p else ok param p

unfoldable pub parse_function_definition_parameter : Settings → M AstFunctionParameter
unfolding parse_type require_name
parse_function_definition_parameter settings p = run_in p do
  type ← parse_type settings expect_parameter_type
  name ← expect_identifier settings expect_parameter_name
  require_name
      (record { token_offset = node_offset (peek_offset p.cursor); type = type; name = name })

unfoldable pub parse_function_definition_output : Settings → M AstFunctionOutput
unfolding parse_type
parse_function_definition_output settings p = run_in p do
  type ← parse_type settings expect_return_type
  pure
      (record { token_offset = node_offset (peek_offset p.cursor); type = type; name = empty_name })

-- `do { put(list, item()); } while (cursor_.match(comma));`
unfoldable pub parse_items : {A : Type 0} → ℕ → M A → M (List A)
unfolding match_kind
parse_items zero item p = out_of_fuel
parse_items (suc f) item p = run_in p do
  a ← item
  again ← match_kind comma
  as' ← λ q. let rest = parse_items f item q in if again then rest else ok [] q
  pure (a ∷ as')

unfoldable pub parse_function_definition_parameters : ℕ → Settings → M (List AstFunctionParameter)
unfolding parse_items parse_function_definition_parameter expect
parse_function_definition_parameters fuel settings = do
  closed ← match_kind r_paren
  if closed then pure [] else do
    parameters ← parse_items fuel (parse_function_definition_parameter settings)
    expect settings r_paren expect_paren_after_parameters
    pure parameters

unfoldable pub parse_function_definition_outputs : ℕ → Settings → M (List AstFunctionOutput)
unfolding parse_items parse_function_definition_output
parse_function_definition_outputs fuel settings = do
  arrow ← match_kind thin_arrow
  if arrow then parse_items fuel (parse_function_definition_output settings) else pure []

unfoldable pub parse_function_definition :
    ℕ → Settings → ℕ → AccessModifier → Token → M AstFunctionDefinition
unfolding parse_function_definition_parameters parse_function_definition_outputs parse_block expect
parse_function_definition fuel settings offset access_modifier name = do
  expect settings l_paren expect_paren_after_function_name
  parameters ← parse_function_definition_parameters fuel settings
  outputs ← parse_function_definition_outputs fuel settings
  expect settings l_brace expect_brace_before_function_body
  statements ← parse_block fuel settings
  pure (record {
    token_offset = node_offset offset;
    access_modifier = access_modifier;
    name = name_from name;
    parameters = parameters;
    outputs = outputs;
    statements = statements;
  })

unfoldable pub parse_access_modifier : M AccessModifier
unfolding match_kind
parse_access_modifier = do
  is_private ← match_kind kw_private
  if is_private
      then pure private_
      else do is_public ← match_kind kw_public; if is_public then pure public_ else pure no_modifier

unfoldable pub define : ℕ → Settings → ℕ → AccessModifier → Option Token → M AstFunctionDefinition
unfolding parse_function_definition fail_expected
define fuel settings offset access_modifier (some token) =
    parse_function_definition fuel settings offset access_modifier token
define fuel settings offset access_modifier none =
    fail_expected settings expect_function_struct_or_enum

unfoldable pub parse_definition : ℕ → Settings → M AstFunctionDefinition
unfolding parse_access_modifier match_token_kind define
parse_definition fuel settings p = run_in p do
  access_modifier ← parse_access_modifier
  token ← match_token_kind identifier
  define fuel settings (peek_offset p.cursor) access_modifier token

-- `try { put(definitions, parse_definition()); } catch (ParseError) { recover; }` and the later
-- rounds of the main loop.
unfoldable pub put_definition :
    AstFunctionDefinition
    → Outcome (List AstFunctionDefinition)
    → Outcome (List AstFunctionDefinition)
put_definition d (ok ds p) = ok (d ∷ ds) p
put_definition d (thrown p) = thrown p
put_definition d aborted = aborted
put_definition d out_of_fuel = out_of_fuel

unfoldable pub catch_definition :
    M (List AstFunctionDefinition)
    → Outcome AstFunctionDefinition
    → Outcome (List AstFunctionDefinition)
unfolding put_definition recover_at_definition_level
catch_definition rest (ok d p) = put_definition d (rest p)
catch_definition rest (thrown p) = rest (recover_at_definition_level p)
catch_definition rest aborted = aborted
catch_definition rest out_of_fuel = out_of_fuel

-- The main loop, with fuel for its rounds and fuel for each definition.
unfoldable pub parse_definitions : ℕ → ℕ → Settings → M (List AstFunctionDefinition)
unfolding match_kind catch_definition parse_definition
parse_definitions zero fuel settings p = out_of_fuel
parse_definitions (suc rounds) fuel settings p = run_in p do
  at_end ← match_kind end_of_file
  λ q.
      let rest =
        catch_definition (parse_definitions rounds fuel settings)
          (parse_definition fuel settings q) in
      if at_end then ok [] q else rest

-- Enough for a cursor with so many tokens behind the current one.
abbrev pub fuel_for : ℕ → ℕ
fuel_for n = 8 * n + 16

unfoldable pub run : Settings → TokenCursor → Outcome AstRoot
unfolding parse_definitions
run settings c =
    bind
      (parse_definitions (length c.after + 2) (fuel_for (length c.after)) settings
        (record { cursor = c; reports = [] }))
      λ definitions p. ok (record { definitions = definitions }) p

-- `run_parser`: `none` is an empty array of tokens, whose first token cannot be read.
unfoldable pub run_parser : Settings → List Token → Option (Outcome AstRoot)
unfolding run Cursor.make_cursor
run_parser settings tokens = elim (Cursor.make_cursor tokens) [
  | none ↦ none
  | some c ↦ some (run settings c)
]
