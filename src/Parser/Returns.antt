-- ===== src/Parser/Returns.antt =====
-- That the parser returns, and what it then has made (cero/syntax/parser.cc).
use cero.Common.{◌+◌, true, some, List, [], ◌∷◌, All, length, ◌≡◌, refl, ap, arith, inl}
use cero.Ast.{AstFunctionDefinition, AstRoot}
use cero.Lexer.Tiles.{IsValidReport}
use cero.Parser.Definitions.{parse_definitions, fuel_for, run, run_parser}
use cero.Parser.Progress.{EndsInEof}
use cero.Parser.State.{Parser, Settings, Outcome, ok, thrown, aborted, out_of_fuel, bind}
use cero.Parser.Terminates.{Finishes, parse_definitions-Finishes}
use cero.Parser.Within.Definitions.{parse_definitions-Keeps}
use cero.Parser.Within.Signatures.{DefinitionWithin}
use cero.Parser.Within.{TokenWithin, Keeps}
use cero.Token.Cursor
use cero.Token.{Token, kind_eq, end_of_file}

-- The parser has returned a tree that lies in the text, at an end of file, with reports of as many
-- arguments as their messages have places.
pub record Parsed (settings : Settings) (root : AstRoot) (p : Parser) : Type 0 where
  pub at_end : kind_eq p.cursor.current.kind end_of_file ≡ true
  pub within : All (DefinitionWithin settings) root.definitions
  pub valid : All IsValidReport p.reports

root-Parsed :
    (settings : Settings) (m : Outcome (List AstFunctionDefinition))
    → Finishes m
    → Keeps settings (All (DefinitionWithin settings)) m
    → (root : AstRoot) × (p : Parser) × (bind m
          (λ definitions q. ok (record { definitions = definitions }) q)
        ≡ ok root p)
      × Parsed settings root p
root-Parsed settings (ok ds p) w (g, h) =
    (record { definitions = ds }, p, refl, record { at_end = w; within = h; valid = g.valid })
root-Parsed settings (thrown p) w k = absurd w
root-Parsed settings aborted w k = absurd k
root-Parsed settings out_of_fuel w k = absurd w

pub run_parser_returns :
    (settings : Settings) (token : Token) (tokens : List Token)
    → EndsInEof token tokens
    → All (TokenWithin settings) (token ∷ tokens)
    → (root : AstRoot) × (p : Parser) × (run_parser settings (token ∷ tokens) ≡ some (ok root p))
      × Parsed settings root p
unfolding run_parser run Cursor.make_cursor
run_parser_returns settings token tokens h w =
    let start : Parser = record {
      cursor = record { current = token; after = tokens };
      reports = [];
    } in
    let rounds = length tokens + 2 in
    let fuel = fuel_for (length tokens) in
    let (root, p, e, k) =
      root-Parsed settings (parse_definitions rounds fuel settings start)
        (parse_definitions-Finishes rounds fuel settings start h (omega arith) (inl (omega arith)))
        (parse_definitions-Keeps settings rounds fuel start
          (record { within = record { current = w.0; after = w.1 }; valid = tt })) in
    (root, p, ap some e, k)
