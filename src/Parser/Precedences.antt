-- ===== src/Parser/Precedences.antt =====
-- How tightly the operators bind (cero/syntax/parser.cc): the two tables of precedences agree.
use cero.Common.{
  ◌<◌, Option, some, none, ◌≡◌, refl, subst, ltb, arith, ltb→lt, ltb→le, Bool-cases, inl, inr,
  if_rule, ◌==◌, ◌&&◌, ◌+◌, ◌↔◌,
}
use cero.Parser.Rules.{
  Precedence, level, lookup_precedence_for_associativity, TailParseFunction, on_binary_operator,
  on_postfix_operator, on_infix_left_paren, TailParseRule, right_angle_rule, lookup_tail_rule,
  lookup_tail_parse_rule, get_next_tail_parse_fn, postfix, statement,
}
use cero.Token.Cursor.{TokenCursor, peek_ahead}
use cero.Token.{TokenKind, Token, r_angle, kind_eq}

-- The precedence by which a method parses its right operand; the others are postfix operators.
pub tail_precedence : TailParseFunction → Precedence
tail_precedence (on_binary_operator op) = lookup_precedence_for_associativity op
tail_precedence (on_postfix_operator op) = postfix
tail_precedence on_infix_left_paren = postfix

-- The precedence of a rule is its method's, and the lowest where there is no method.
abbrev Agrees : Precedence → Option TailParseFunction → Type 0
Agrees p none = p ≡ statement
Agrees p (some tail_fn) = p ≡ tail_precedence tail_fn

abbrev AgreesRule : TailParseRule → Type 0
AgreesRule r = Agrees r.precedence r.fn

right_angle_rule-Agrees : (token ahead : Token) → AgreesRule (right_angle_rule token ahead)
unfolding right_angle_rule tail_precedence lookup_precedence_for_associativity
right_angle_rule-Agrees token ahead =
    if_rule AgreesRule (kind_eq ahead.kind r_angle && ahead.offset == token.offset + 1) (λ _. refl)
      (λ _. refl)

lookup_tail_rule-Agrees :
    (kind : TokenKind) (token ahead : Token) → AgreesRule (lookup_tail_rule kind token ahead)
unfolding lookup_tail_rule tail_precedence lookup_precedence_for_associativity
lookup_tail_rule-Agrees r_angle token ahead = right_angle_rule-Agrees token ahead
lookup_tail_rule-Agrees _ token ahead = refl

rule_precedence :
    (r : TailParseRule) (tail_fn : TailParseFunction)
    → AgreesRule r
    → r.fn ≡ some tail_fn
    → r.precedence ≡ tail_precedence tail_fn
rule_precedence r tail_fn h e = subst (Agrees r.precedence) e h

-- The parser goes on from an expression by a method exactly if the next token has that method and
-- the precedence with which the method's right operand is parsed is above the current one.
pub get_next_tail_parse_fn_iff :
    (current : Precedence) (c : TokenCursor) (tail_fn : TailParseFunction)
    → (get_next_tail_parse_fn current c ≡ some tail_fn) ↔ (
        ((lookup_tail_parse_rule c).fn ≡ some tail_fn)
        × (level current < level (tail_precedence tail_fn)))
unfolding get_next_tail_parse_fn lookup_tail_parse_rule
get_next_tail_parse_fn_iff current c tail_fn =
    let r = lookup_tail_rule c.current.kind c.current (peek_ahead c) in
    let agrees = lookup_tail_rule-Agrees c.current.kind c.current (peek_ahead c) in
    elim (Bool-cases (ltb (level current) (level r.precedence))) [
      | inl e ↦ rw e (
        λ h. (
          h,
          rw (rule_precedence r tail_fn agrees h) at
              (ltb→lt (level current) (level r.precedence) e),
        ),
        λ (h, _). h,
      )
      | inr e ↦ rw e (
        λ h. cc,
        λ (h, l).
            let k =
              rw (rule_precedence r tail_fn agrees h) at
                (ltb→le (level current) (level r.precedence) e) in
            absurd (omega arith),
      )
    ]
