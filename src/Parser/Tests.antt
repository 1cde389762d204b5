-- ===== src/Parser/Tests.antt =====
-- Runs of the parser on tokens of the lexer.
use cero.Common.{◌↔◌, ◌<◌, ℕ, List, [], ◌∷◌, Option, some, codes, Bytes, ◌≡◌, refl}
use cero.Ast.{
  AstExpressions, AstFunctionDefinition, AstRoot, node, ident_expr, return_expr, binary_expr, add,
  mul, shr, logic_and,
}
use cero.Ast
use cero.Lexer.Run.{run_lexer}
use cero.Lexer.State as LexerState
use cero.Parser.Definitions.{run_parser}
use cero.Parser.Expressions.{
  parse_block, recover_at_statement_level, advance_operator, peek_head, peek_tail,
  is_expression_next, put_statement, after_recovery, catch_statement, unless_matched,
}
use cero.Parser.Precedences.{tail_precedence, get_next_tail_parse_fn_iff}
use cero.Parser.Rules.{
  lookup_precedence_for_associativity, get_next_tail_parse_fn, lookup_tail_parse_rule, level,
  logical, on_binary_operator,
}
use cero.Token.Cursor.{TokenCursor}
use cero.Token.{Token, TokenKind, plus, end_of_file}
use cero.Parser.State.{Parser, Settings, Outcome, ok}

abbrev settings_of : Bytes → Settings
settings_of text = record {
  source = record { text = text; path = "test" };
  tab_size = 4;
  vformat = λ format _. format;
}

abbrev lexer_settings : Bytes → LexerState.Settings
lexer_settings text = record {
  source = record { text = text; path = "test" };
  flags = 0;
  tab_size = 4;
}

abbrev view : Option (Outcome AstRoot) → List AstExpressions
view (some (ok r p)) = bodies r.definitions
  where
    bodies : List AstFunctionDefinition → List AstExpressions
    bodies [] = []
    bodies (d ∷ ds) = d.statements ∷ bodies ds
view _ = []

precedence :
    view (
      run_parser
        (settings_of (codes "f() { return a + b * c >> d; }"))
        (run_lexer (lexer_settings (codes "f() { return a + b * c >> d; }"))).tokens)
    ≡ node
        (return_expr 6 (
          node
            (binary_expr 13 shr
              (binary_expr 13 add
                (ident_expr 13 1)
                (binary_expr 17 mul (ident_expr 17 1) (ident_expr 21 1)))
              (ident_expr 26 1))
            Ast.none))
        Ast.none
      ∷ []
unfolding run_lexer run_parser parse_block recover_at_statement_level advance_operator peek_head
    peek_tail is_expression_next put_statement after_recovery catch_statement unless_matched
    Ast.token_offset Ast.node_offset lookup_precedence_for_associativity
precedence = refl

abbrev token : TokenKind → ℕ → ℕ → Token
token kind offset length = record { kind = kind; offset = offset; variable_length = length }

-- Behind `a` stands a `+`.
abbrev at_plus : TokenCursor
at_plus = record { current = token plus 2 0; after = token end_of_file 3 0 ∷ [] }

get_next_tail_parse_fn_iff_example :
    (get_next_tail_parse_fn logical at_plus ≡ some (on_binary_operator add)) ↔ (
      ((lookup_tail_parse_rule at_plus).fn ≡ some (on_binary_operator add))
      × (level logical < level (tail_precedence (on_binary_operator add))))
get_next_tail_parse_fn_iff_example =
    get_next_tail_parse_fn_iff logical at_plus (on_binary_operator add)
