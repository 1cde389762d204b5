-- ===== src/Parser/Terminates.antt =====
-- That the fuel of the parser suffices (cero/syntax/parser.cc).
use cero.Common.{
  ℕ, zero, suc, ◌+◌, ◌*◌, ◌≤◌, ◌<◌, Bool, true, false, Option, none, some, List, [], ◌∷◌, length,
  ◌≡◌, sym, ◌∙◌, arith, if_rule, if◌then◌else◌, Bool-cases, ◌⊎◌, inl, inr,
}
use cero.Ast.{AstFunctionDefinition, AccessModifier, no_modifier, private_, public_}
use cero.Parser.Definitions.{
  skip_definition, is_recovery_token, recover_at_definition_level, parse_function_definition,
  parse_access_modifier, define, parse_definition, put_definition, catch_definition,
  parse_definitions,
}
use cero.Parser.Progress.{
  EndsInEof, IsSafe, remaining, Done, Done-weaken, Done-bind, match_kind-Done,
  match_token_kind-Done, fail_expected-Done,
}
use cero.Parser.State.{
  Parser, Settings, Outcome, ok, thrown, aborted, out_of_fuel, M, ◌>>=◌, pure, run_in, match_kind,
  match_token_kind, fail_expected,
}
use cero.Report.{expect_function_struct_or_enum}
use cero.Token.Cursor
use cero.Token.Cursor.{TokenCursor, peek_kind, peek_offset}
use cero.Token.{Token, kind_eq, identifier, end_of_file, kw_private, kw_public}
use cero.Parser.Signatures.{parse_function_definition-Done}

-- The recovery at definition level ends at the end of the file or consumes a token.
skip_definition-IsSafe :
    (t : Token) (after : List Token)
    → EndsInEof t after
    → IsSafe (skip_definition t after)
      × (length (skip_definition t after).after ≤ length after)
      × ((kind_eq (skip_definition t after).current.kind end_of_file ≡ true)
          ⊎ (length (skip_definition t after).after < length after))
unfolding skip_definition
skip_definition-IsSafe t [] s = (s, omega arith, inl s)
skip_definition-IsSafe t (u ∷ us) s =
    let (a, b, c) = skip_definition-IsSafe u us s in
    let n = suc (length us) in
    let P : TokenCursor → Type 0 = λ r.
      IsSafe r
      × (length r.after ≤ n)
      × ((kind_eq r.current.kind end_of_file ≡ true) ⊎ (length r.after < n)) in
    if_rule P (kind_eq t.kind end_of_file) (λ e. (s, omega arith, inl e))
      λ _.
        if_rule P (is_recovery_token u.kind) (λ _. (s, omega arith, inr (omega arith)))
          λ _. (a, omega arith, inr (omega arith))

public_then :
    (n : ℕ) (is_public : Bool) (p : Parser)
    → IsSafe p.cursor
    → remaining p < n
    → Done n n (run_in p (if is_public then pure public_ else pure no_modifier))
public_then n true p s l = (s, l)
public_then n false p s l = (s, l)

modifier_then :
    (n : ℕ) (is_private : Bool) (p : Parser)
    → IsSafe p.cursor
    → remaining p < n
    → Done n n (
        run_in p (
          if is_private then pure private_ else do
            is_public ← match_kind kw_public
            if is_public then pure public_ else pure no_modifier))
modifier_then n true p s l = (s, l)
modifier_then n false p s l =
    Done-bind (suc (remaining p)) (suc (remaining p)) n n (match_kind kw_public p) _
      (match_kind-Done kw_public p s) (omega arith)
      λ is_public q t m. public_then n is_public q t (omega arith)

parse_access_modifier-Done :
    (p : Parser)
    → IsSafe p.cursor
    → Done (suc (remaining p)) (suc (remaining p)) (parse_access_modifier p)
unfolding parse_access_modifier
parse_access_modifier-Done p s =
    let n = suc (remaining p) in
    Done-bind n n n n (match_kind kw_private p) _ (match_kind-Done kw_private p s) (omega arith)
      λ is_private q t l. modifier_then n is_private q t l

define-Done :
    (fuel : ℕ) (settings : Settings) (offset n : ℕ) (access : AccessModifier) (token : Option Token)
    (p : Parser)
    → IsSafe p.cursor
    → remaining p ≤ n
    → 8 * n + 4 ≤ fuel
    → Done n (suc n) (define fuel settings offset access token p)
unfolding define
define-Done fuel settings offset n access (some token) p s l k =
    Done-weaken (remaining p) (suc (remaining p)) n (suc n)
      (parse_function_definition fuel settings offset access token p) (omega arith) (omega arith)
      (parse_function_definition-Done fuel settings offset access token p s (omega arith))
define-Done fuel settings offset n access none p s l k =
    Done-weaken (remaining p) (suc (remaining p)) n (suc n)
      (fail_expected {A = AstFunctionDefinition} settings expect_function_struct_or_enum p)
      (omega arith) (omega arith)
      (fail_expected-Done AstFunctionDefinition settings expect_function_struct_or_enum p
        (remaining p) s)

-- A definition that is parsed takes at least one token.
parse_definition-Done :
    (fuel : ℕ) (settings : Settings) (p : Parser)
    → IsSafe p.cursor
    → 8 * remaining p + 4 ≤ fuel
    → Done (remaining p) (suc (remaining p)) (parse_definition fuel settings p)
unfolding parse_definition
parse_definition-Done fuel settings p s k =
    let n = remaining p in
    Done-bind (suc n) (suc n) n (suc n) (parse_access_modifier p) _ (parse_access_modifier-Done p s)
      (omega arith)
      λ access q t l.
        Done-bind (suc (remaining q)) (suc (remaining q)) n (suc n) (match_token_kind identifier q)
          _ (match_token_kind-Done identifier q t) (omega arith)
          λ token r u m.
            define-Done fuel settings (peek_offset p.cursor) n access token r u (omega arith) k

-- It ends by itself, and throws no `ParseError`; where it returns, it does so at an end of file.
abbrev pub Finishes : {A : Type 0} → Outcome A → Type 0
Finishes (ok a p) = kind_eq p.cursor.current.kind end_of_file ≡ true
Finishes (thrown p) = ⊥
Finishes aborted = Unit
Finishes out_of_fuel = ⊥

put_definition-Finishes :
    (d : AstFunctionDefinition) (m : Outcome (List AstFunctionDefinition))
    → Finishes m
    → Finishes (put_definition d m)
unfolding put_definition
put_definition-Finishes d (ok ds p) w = w
put_definition-Finishes d (thrown p) w = w
put_definition-Finishes d aborted w = tt
put_definition-Finishes d out_of_fuel w = w

-- The rounds that suffice: one at the end of the file, elsewhere one for each token and two more.
abbrev EnoughRounds : ℕ → Parser → Type 0
EnoughRounds rounds p =
    (remaining p + 2 ≤ rounds) ⊎ ((1 ≤ rounds) × (kind_eq p.cursor.current.kind end_of_file ≡ true))

catch_definition-Finishes :
    (n rounds : ℕ) (rest : M (List AstFunctionDefinition)) (m : Outcome AstFunctionDefinition)
    → n + 1 ≤ rounds
    → Done n (suc n) m
    → ((p : Parser) → IsSafe p.cursor → remaining p ≤ n → EnoughRounds rounds p → Finishes (rest p))
    → Finishes (catch_definition rest m)
unfolding catch_definition recover_at_definition_level
catch_definition-Finishes n rounds rest (ok d p) k w h =
    let l = w.1 in put_definition-Finishes d (rest p) (h p w.0 (omega arith) (inl (omega arith)))
catch_definition-Finishes n rounds rest (thrown p) k w h =
    let l = w.1 in
    let (a, b, c) = skip_definition-IsSafe p.cursor.current p.cursor.after w.0 in
    h (recover_at_definition_level p) a (omega arith)
      (elim c [ inl e ↦ inr (omega arith, e) | inr m ↦ inl (omega arith) ])
catch_definition-Finishes n rounds rest aborted k w h = tt
catch_definition-Finishes n rounds rest out_of_fuel k w h = absurd w

EnoughRounds→le :
    (rounds : ℕ) (p : Parser)
    → EnoughRounds (suc rounds) p
    → kind_eq p.cursor.current.kind end_of_file ≡ false
    → remaining p + 1 ≤ rounds
EnoughRounds→le rounds p (inl l) g = omega arith
EnoughRounds→le rounds p (inr (l, e)) g = let k : true ≡ false = sym e ∙ g in absurd (cc)

pub parse_definitions-Finishes :
    (rounds fuel : ℕ) (settings : Settings) (p : Parser)
    → IsSafe p.cursor
    → 8 * remaining p + 4 ≤ fuel
    → EnoughRounds rounds p
    → Finishes (parse_definitions rounds fuel settings p)
unfolding parse_definitions match_kind Cursor.match
parse_definitions-Finishes zero fuel settings p s k e = elim e [
  | inl l ↦ absurd (omega arith)
  | inr (l, _) ↦ absurd (omega arith)
]
parse_definitions-Finishes (suc rounds) fuel settings p s k e =
    elim (Bool-cases (kind_eq p.cursor.current.kind end_of_file)) [
      | inl g ↦ rw (g, parse_definitions) g
      | inr g ↦
          rw (g, parse_definitions)
            (catch_definition-Finishes (remaining p) rounds (parse_definitions rounds fuel settings)
              (parse_definition fuel settings p) (EnoughRounds→le rounds p e g)
              (parse_definition-Done fuel settings p s k)
              λ q t l o. parse_definitions-Finishes rounds fuel settings q t (omega arith) o)
    ]
