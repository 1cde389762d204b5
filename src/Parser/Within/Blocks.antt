-- ===== src/Parser/Within/Blocks.antt =====
-- Blocks and the recovery at their statements (cero/syntax/parser.cc) keep within the text.
use cero.Common.{ℕ, zero, suc, ◌||◌, Bool, true, false, List, [], ◌∷◌, All, if_rule}
use cero.Ast.{AstExpression, AstExpressions}
use cero.Parser.Expressions.{
  parse_expression, parse_block, parse_statement, skip_statement, catch_statement, after_recovery,
  put_statement, recover_at_statement_level,
}
use cero.Parser.Progress.{unless_matched_rule}
use cero.Parser.State.{Parser, Settings, Outcome, ok, thrown, aborted, out_of_fuel, M}
use cero.Parser.Within.Expressions.{
  AllKeep, parse_expression-Keeps, run_head-Keeps, parse_return_values-Keeps, parse_tails-Keeps,
  run_tail-Keeps, parse_arguments-Keeps, parse_list-Keeps, parse_more-Keeps, parse_statement-Keeps,
}
use cero.Parser.Within.{NodeWithin, NodesWithin, TokenWithin, IsWithin, IsGood, Keeps, moved}
use cero.Token.Cursor.{TokenCursor}
use cero.Token.{Token, kind_eq, r_brace, semicolon, end_of_file}

skip_statement-IsWithin :
    (settings : Settings) (t : Token) (after : List Token)
    → TokenWithin settings t
    → All (TokenWithin settings) after
    → IsWithin settings (skip_statement t after).1
unfolding skip_statement
skip_statement-IsWithin settings t [] h k =
    if_rule (λ (r : Bool × TokenCursor). IsWithin settings r.1)
      (kind_eq t.kind semicolon || kind_eq t.kind r_brace) (λ _. record { current = h; after = tt })
      (λ _. record { current = h; after = tt })
skip_statement-IsWithin settings t (u ∷ us) h k =
    let P : Bool × TokenCursor → Type 0 = λ r. IsWithin settings r.1 in
    if_rule P (kind_eq t.kind end_of_file) (λ _. record { current = h; after = k })
      λ _.
        if_rule P (kind_eq t.kind semicolon) (λ _. record { current = k.0; after = k.1 })
          λ _.
            if_rule P (kind_eq t.kind r_brace) (λ _. record { current = h; after = k })
              λ _. skip_statement-IsWithin settings u us k.0 k.1

put_statement-Keeps :
    (settings : Settings) (e : AstExpression) (m : Outcome AstExpressions)
    → NodeWithin settings e
    → Keeps settings (NodesWithin settings) m
    → Keeps settings (NodesWithin settings) (put_statement e m)
unfolding put_statement
put_statement-Keeps settings e (ok es p) h w = (w.0, (h, w.1))
put_statement-Keeps settings e (thrown p) h w = w
put_statement-Keeps settings e aborted h w = absurd w
put_statement-Keeps settings e out_of_fuel h w = tt

after_recovery-Keeps :
    (settings : Settings) (rest : M AstExpressions) (r : Bool × Parser)
    → IsGood settings r.1
    → Keeps settings (NodesWithin settings) (rest r.1)
    → Keeps settings (NodesWithin settings) (after_recovery rest r)
unfolding after_recovery
after_recovery-Keeps settings rest (true, p) h w = (h, tt)
after_recovery-Keeps settings rest (false, p) h w = w

module _ (f : ℕ) (settings : Settings) (h : AllKeep f settings) where
  catch_statement-Keeps :
      (m : Outcome AstExpression)
      → Keeps settings (NodeWithin settings) m
      → Keeps settings (NodesWithin settings) (catch_statement (parse_block f settings) m)
  unfolding catch_statement recover_at_statement_level
  catch_statement-Keeps (ok e q) w =
      put_statement-Keeps settings e (parse_block f settings q) w.1 (h.block q w.0)
  catch_statement-Keeps (thrown q) w =
      let good : IsGood settings (recover_at_statement_level q).1 = record {
        within =
            skip_statement-IsWithin settings q.cursor.current q.cursor.after w.within.current
              w.within.after;
        valid = w.valid;
      } in
      after_recovery-Keeps settings (parse_block f settings) (recover_at_statement_level q) good
        (h.block (recover_at_statement_level q).1 good)
  catch_statement-Keeps aborted w = absurd w
  catch_statement-Keeps out_of_fuel w = tt

  parse_block-Keeps :
      (p : Parser)
      → IsGood settings p
      → Keeps settings (NodesWithin settings) (parse_block (suc f) settings p)
  unfolding parse_block
  parse_block-Keeps p g =
      unless_matched_rule (Keeps settings (NodesWithin settings)) r_brace AstExpressions.none _ p
        (λ _. (moved settings p g, tt))
        λ _. catch_statement-Keeps (parse_statement f settings p) (h.statement p g)

-- Whatever the fuel, the methods keep within the text, as far as it lasts.
pub all_keep : (f : ℕ) (settings : Settings) → AllKeep f settings
unfolding parse_expression
all_keep zero settings = record {
  expression = λ x p g. tt;
  head = λ x p g. tt;
  return_values = λ p g. tt;
  tails = λ x e p g w. tt;
  tail = λ x e p g w. tt;
  arguments = λ p g. tt;
  list = λ p g. tt;
  more = λ x p g. tt;
  block = λ p g. tt;
  statement = λ p g. tt;
}
all_keep (suc f) settings =
    let h = all_keep f settings in
    record {
      expression = parse_expression-Keeps f settings h;
      head = run_head-Keeps f settings h;
      return_values = parse_return_values-Keeps f settings h;
      tails = parse_tails-Keeps f settings h;
      tail = run_tail-Keeps f settings h;
      arguments = parse_arguments-Keeps f settings h;
      list = parse_list-Keeps f settings h;
      more = parse_more-Keeps f settings h;
      block = parse_block-Keeps f settings h;
      statement = parse_statement-Keeps f settings h;
    }
