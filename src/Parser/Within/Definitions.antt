-- ===== src/Parser/Within/Definitions.antt =====
-- Definitions and the main loop (cero/syntax/parser.cc) keep within the text.
use cero.Common.{
  ℕ, zero, suc, Bool, true, false, Option, none, some, List, [], ◌∷◌, All, if◌then◌else◌, if_rule,
}
use cero.Ast.{AstFunctionDefinition, AccessModifier, no_modifier, private_, public_, name_from}
use cero.Parser.Definitions.{
  parse_function_definition_parameters, parse_function_definition_outputs,
  parse_function_definition, parse_access_modifier, define, parse_definition, put_definition,
  catch_definition, recover_at_definition_level, skip_definition, is_recovery_token,
  parse_definitions,
}
use cero.Parser.Expressions.{parse_block}
use cero.Parser.State.{
  Parser, Settings, Outcome, ok, thrown, aborted, out_of_fuel, M, ◌>>=◌, pure, run_in, match_kind,
  match_token_kind, expect,
}
use cero.Parser.Within.Blocks.{all_keep}
use cero.Parser.Within.{
  NodesWithin, TokenWithin, Anything, IsWithin, IsGood, Keeps, Keeps-bind, OptionWithin,
  match_kind-Keeps, match_token_kind-Keeps, fail_expected-Keeps, expect-Keeps,
}
use cero.Report.{
  expect_paren_after_function_name, expect_brace_before_function_body,
  expect_function_struct_or_enum,
}
use cero.Token.Cursor.{peek_offset}
use cero.Token.{Token, kind_eq, identifier, l_paren, l_brace, kw_private, kw_public, end_of_file}
use cero.Parser.Within.Signatures.{
  ParameterWithin, OutputWithin, DefinitionWithin, takes_one, parameters-Keeps, outputs-Keeps,
}

module _ (settings : Settings) where
  parse_function_definition-Keeps :
      (fuel offset : ℕ) (access : AccessModifier) (name : Token) (p : Parser)
      → TokenWithin settings name
      → IsGood settings p
      → Keeps settings
          (DefinitionWithin settings)
          (parse_function_definition fuel settings offset access name p)
  unfolding parse_function_definition name_from
  parse_function_definition-Keeps fuel offset access name p w g =
      let D = DefinitionWithin settings in
      Keeps-bind settings Anything D (expect settings l_paren expect_paren_after_function_name p) _
        (expect-Keeps settings l_paren expect_paren_after_function_name p takes_one.0 g)
        λ _ q k _.
          Keeps-bind settings (All (ParameterWithin settings)) D
            (parse_function_definition_parameters fuel settings q) _
            (parameters-Keeps settings fuel q k)
            λ parameters q2 k2 w2.
              Keeps-bind settings (All (OutputWithin settings)) D
                (parse_function_definition_outputs fuel settings q2) _
                (outputs-Keeps settings fuel q2 k2)
                λ outputs q3 k3 w3.
                  Keeps-bind settings Anything D
                    (expect settings l_brace expect_brace_before_function_body q3) _
                    (expect-Keeps settings l_brace expect_brace_before_function_body q3 takes_one.5
                      k3)
                    λ _ q4 k4 _.
                      Keeps-bind settings (NodesWithin settings) D (parse_block fuel settings q4) _
                        ((all_keep fuel settings).block q4 k4)
                        λ statements r m v.
                          (m, record { name = w.0; parameters = w2; outputs = w3; statements = v })

  public_then :
      (is_public : Bool) (p : Parser)
      → IsGood settings p
      → Keeps settings Anything (run_in p (if is_public then pure public_ else pure no_modifier))
  public_then true p g = (g, tt)
  public_then false p g = (g, tt)

  private_then :
      (is_private : Bool) (p : Parser)
      → IsGood settings p
      → Keeps settings Anything (
          run_in p (
            if is_private then pure private_ else do
              is_public ← match_kind kw_public
              if is_public then pure public_ else pure no_modifier))
  private_then true p g = (g, tt)
  private_then false p g =
      Keeps-bind settings Anything Anything (match_kind kw_public p) _
        (match_kind-Keeps settings kw_public p g) λ is_public q k _. public_then is_public q k

  parse_access_modifier-Keeps :
      (p : Parser) → IsGood settings p → Keeps settings Anything (parse_access_modifier p)
  unfolding parse_access_modifier
  parse_access_modifier-Keeps p g =
      Keeps-bind settings Anything Anything (match_kind kw_private p) _
        (match_kind-Keeps settings kw_private p g) λ is_private q k _. private_then is_private q k

  define-Keeps :
      (fuel offset : ℕ) (access : AccessModifier) (token : Option Token) (p : Parser)
      → OptionWithin settings token
      → IsGood settings p
      → Keeps settings (DefinitionWithin settings) (define fuel settings offset access token p)
  unfolding define
  define-Keeps fuel offset access (some token) p w g =
      parse_function_definition-Keeps fuel offset access token p w g
  define-Keeps fuel offset access none p w g =
      fail_expected-Keeps settings AstFunctionDefinition (DefinitionWithin settings)
        expect_function_struct_or_enum p takes_one.6 g

  parse_definition-Keeps :
      (fuel : ℕ) (p : Parser)
      → IsGood settings p
      → Keeps settings (DefinitionWithin settings) (parse_definition fuel settings p)
  unfolding parse_definition
  parse_definition-Keeps fuel p g =
      Keeps-bind settings Anything (DefinitionWithin settings) (parse_access_modifier p) _
        (parse_access_modifier-Keeps p g)
        λ access q k _.
          Keeps-bind settings (OptionWithin settings) (DefinitionWithin settings)
            (match_token_kind identifier q) (define fuel settings (peek_offset p.cursor) access)
            (match_token_kind-Keeps settings identifier q k)
            λ token r m w. define-Keeps fuel (peek_offset p.cursor) access token r w m

  skip_definition-IsWithin :
      (t : Token) (after : List Token)
      → TokenWithin settings t
      → All (TokenWithin settings) after
      → IsWithin settings (skip_definition t after)
  unfolding skip_definition
  skip_definition-IsWithin t [] h k = record { current = h; after = tt }
  skip_definition-IsWithin t (u ∷ us) h k =
      if_rule (IsWithin settings) (kind_eq t.kind end_of_file)
        (λ _. record { current = h; after = k })
        λ _.
          if_rule (IsWithin settings) (is_recovery_token u.kind)
            (λ _. record { current = k.0; after = k.1 }) λ _. skip_definition-IsWithin u us k.0 k.1

  put_definition-Keeps :
      (d : AstFunctionDefinition) (m : Outcome (List AstFunctionDefinition))
      → DefinitionWithin settings d
      → Keeps settings (All (DefinitionWithin settings)) m
      → Keeps settings (All (DefinitionWithin settings)) (put_definition d m)
  unfolding put_definition
  put_definition-Keeps d (ok ds p) h w = (w.0, (h, w.1))
  put_definition-Keeps d (thrown p) h w = w
  put_definition-Keeps d aborted h w = absurd w
  put_definition-Keeps d out_of_fuel h w = tt

  catch_definition-Keeps :
      (rest : M (List AstFunctionDefinition)) (m : Outcome AstFunctionDefinition)
      → ((q : Parser)
          → IsGood settings q
          → Keeps settings (All (DefinitionWithin settings)) (rest q))
      → Keeps settings (DefinitionWithin settings) m
      → Keeps settings (All (DefinitionWithin settings)) (catch_definition rest m)
  unfolding catch_definition recover_at_definition_level
  catch_definition-Keeps rest (ok d q) h w = put_definition-Keeps d (rest q) w.1 (h q w.0)
  catch_definition-Keeps rest (thrown q) h w = h (recover_at_definition_level q) (record {
    within =
        skip_definition-IsWithin q.cursor.current q.cursor.after w.within.current w.within.after;
    valid = w.valid;
  })
  catch_definition-Keeps rest aborted h w = absurd w
  catch_definition-Keeps rest out_of_fuel h w = tt

  pub parse_definitions-Keeps :
      (rounds fuel : ℕ) (p : Parser)
      → IsGood settings p
      → Keeps settings (All (DefinitionWithin settings)) (parse_definitions rounds fuel settings p)
  unfolding parse_definitions
  parse_definitions-Keeps zero fuel p g = tt
  parse_definitions-Keeps (suc rounds) fuel p g =
      Keeps-bind settings Anything (All (DefinitionWithin settings)) (match_kind end_of_file p) _
        (match_kind-Keeps settings end_of_file p g)
        λ at_end q k _.
          if_rule (Keeps settings (All (DefinitionWithin settings))) at_end {x = ok [] q}
            (λ _. (k, tt))
            λ _.
              catch_definition-Keeps (parse_definitions rounds fuel settings)
                (parse_definition fuel settings q) (λ r m. parse_definitions-Keeps rounds fuel r m)
                (parse_definition-Keeps fuel q k)
