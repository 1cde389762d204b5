-- ===== src/Parser/Enough/Blocks.antt =====
-- The fuel for blocks, and for all methods together (cero/syntax/parser.cc).
use cero.Common.{
  ℕ, zero, suc, refl, sym, ◌∙◌, ◌+◌, ◌*◌, ◌≤◌, ◌<◌, Bool, true, false, ◌≡◌, arith, inl, inr,
}
use cero.Ast.{AstExpression, AstExpressions}
use cero.Parser.Expressions.{parse_block, parse_statement, skip_statement}
use cero.Parser.Progress.{
  IsSafe, remaining, Done, Done-weaken, unless_matched_rule, advance-IsSafe,
  skip_statement-Recovered,
}
use cero.Parser.State.{Parser, Settings, Outcome, ok, thrown, aborted, out_of_fuel, M}
use cero.Token.{kind_eq, r_brace}
use cero.Parser.Enough.{Enough}
use cero.Parser.Enough.Heads.{
  parse_expression-Done, run_head-Done, parse_return_values-Done, parse_tails-Done,
}
use cero.Parser.Enough.Tails.{
  run_tail-Done, parse_arguments-Done, parse_list-Done, parse_more-Done, parse_statement-Done,
}
use cero.Parser.Expressions.{
  catch_statement, after_recovery, put_statement, recover_at_statement_level,
}

-- A block that stands at its closing brace ends at once.
parse_block_at_brace :
    (f : ℕ) (settings : Settings) (p : Parser)
    → IsSafe p.cursor
    → kind_eq p.cursor.current.kind r_brace ≡ true
    → 1 ≤ f
    → Done (suc (remaining p)) (suc (remaining p)) (parse_block f settings p)
unfolding parse_block
parse_block_at_brace zero settings p s e k = absurd (omega arith)
parse_block_at_brace (suc f) settings p s e k =
    let n = suc (remaining p) in
    unless_matched_rule (Done n n) r_brace AstExpressions.none
      (λ q. catch_statement (parse_block f settings) (parse_statement f settings q)) p
      (λ _. let (x, y) = advance-IsSafe p.cursor s in (x, omega arith))
      λ g. let k : true ≡ false = sym e ∙ g in cc

put_statement-Done :
    (n : ℕ) (e : AstExpression) (m : Outcome AstExpressions)
    → Done n n m
    → Done n n (put_statement e m)
unfolding put_statement
put_statement-Done n e (ok es p) w = w
put_statement-Done n e (thrown p) w = w
put_statement-Done n e aborted w = tt
put_statement-Done n e out_of_fuel w = w

after_recovery-Done :
    (n : ℕ) (rest : M AstExpressions) (at_end : Bool) (p : Parser)
    → IsSafe p.cursor
    → remaining p < n
    → (at_end ≡ false → Done n n (rest p))
    → Done n n (after_recovery rest (at_end, p))
unfolding after_recovery
after_recovery-Done n rest true p s l k = (s, l)
after_recovery-Done n rest false p s l k = k refl

module _ (f : ℕ) (settings : Settings) (h : Enough f settings) where
  -- The statements behind the first one, or behind its recovery.
  catch_statement-Done :
      (n : ℕ) (m : Outcome AstExpression)
      → 8 * n + 4 ≤ suc f
      → Done n (suc n) m
      → Done (suc n) (suc n) (catch_statement (parse_block f settings) m)
  unfolding catch_statement recover_at_statement_level
  catch_statement-Done n (ok e q) k w = put_statement-Done (suc n) e (parse_block f settings q) (
      Done-weaken (suc (remaining q)) (suc (remaining q)) (suc n) (suc n) (parse_block f settings q)
        (omega (arith, w.1)) (omega (arith, w.1)) (h.block q w.0 (omega (arith, w.1, k))))
  catch_statement-Done n (thrown q) k w =
      let r = skip_statement q.cursor.current q.cursor.after in
      let (a, b, c) = skip_statement-Recovered q.cursor.current q.cursor.after w.0 in
      let next_parser : Parser = record q { cursor = r.1 } in
      let l = w.1 in
      let weaken =
        Done-weaken (suc (remaining next_parser)) (suc (remaining next_parser)) (suc n) (suc n)
          (parse_block f settings next_parser) (omega arith) (omega arith) in
      after_recovery-Done (suc n) (parse_block f settings) r.0 next_parser a (omega arith) λ g.
        elim c [
          | inl e ↦ let o : true ≡ false = sym e ∙ g in cc
          | inr (inl l') ↦ weaken (h.block next_parser a (omega arith))
          | inr (inr e) ↦ weaken (parse_block_at_brace f settings next_parser a e (omega arith))
        ]
  catch_statement-Done n aborted k w = tt
  catch_statement-Done n out_of_fuel k w = absurd w

  parse_block-Done :
      (p : Parser)
      → IsSafe p.cursor
      → 8 * remaining p + 4 ≤ suc f
      → Done (suc (remaining p)) (suc (remaining p)) (parse_block (suc f) settings p)
  unfolding parse_block
  parse_block-Done p s k =
      let n = suc (remaining p) in
      unless_matched_rule (Done n n) r_brace AstExpressions.none
        (λ q. catch_statement (parse_block f settings) (parse_statement f settings q)) p
        (λ _. let (x, y) = advance-IsSafe p.cursor s in (x, omega arith))
        λ _.
          catch_statement-Done (remaining p) (parse_statement f settings p) k
            (h.statement p s (omega arith))

-- Whatever the fuel, it is enough for as many tokens as it is meant for.
pub enough : (f : ℕ) (settings : Settings) → Enough f settings
enough zero settings = record {
  expression = λ x p s k. absurd (omega (arith, k));
  head = λ x p s e k. absurd (omega (arith, k));
  return_values = λ p s k. absurd (omega (arith, k));
  tails = λ x e p s k. absurd (omega (arith, k));
  tail = λ x e p s g k. absurd (omega (arith, k));
  arguments = λ p s k. absurd (omega (arith, k));
  list = λ p s k. absurd (omega (arith, k));
  more = λ x p s k. absurd (omega (arith, k));
  block = λ p s k. absurd (omega (arith, k));
  statement = λ p s k. absurd (omega (arith, k));
}
enough (suc f) settings =
    let h = enough f settings in
    record {
      expression = parse_expression-Done f settings h;
      head = run_head-Done f settings h;
      return_values = parse_return_values-Done f settings h;
      tails = parse_tails-Done f settings h;
      tail = run_tail-Done f settings h;
      arguments = parse_arguments-Done f settings h;
      list = parse_list-Done f settings h;
      more = parse_more-Done f settings h;
      block = parse_block-Done f settings h;
      statement = parse_statement-Done f settings h;
    }
