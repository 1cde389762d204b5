-- ===== src/Parser/Within.antt =====
-- Where the parser's trees stand in the text, and the arguments of its reports
-- (cero/syntax/parser.cc).
pub mod Expressions
pub mod Blocks
pub mod Signatures
pub mod Definitions
use cero.Common.{
  Bytes, ℕ, suc, ◌≤◌, ◌+◌, ◌%◌, ◌^◌, Bool, true, false, Option, none, some, List, [], ◌∷◌, ◌++◌,
  All, All-append, ◌≡◌, refl, arith, if_rule, Bool-cases, inl, inr, length,
}
use cero.Ast.{
  AstExpression, AstExpressions, ident_expr, literal_expr, block_expr, return_expr, unary_expr,
  binary_expr, call_expr, none, node, node_offset,
}
use cero.Lexer.Tiles.{IsValidReport}
use cero.Parser.State.{
  Parser, Settings, Outcome, ok, thrown, aborted, out_of_fuel, M, bind, advance, next, match_kind,
  match_token_kind, report_expected, expected_report, fail_expected, expect, expect_matched,
}
use cero.Report.{Message, placeholder_count, get_message_format_string, valid_for_message}
use cero.Token.Cursor
use cero.Token.Cursor.{TokenCursor}
use cero.Token.{get_text, TokenKind, Token, kind_eq, end_of_file}

-- An expression and those in it begin in the text, or at its end.
abbrev mutual
  pub NodeWithin : Settings → AstExpression → Type 0
  NodeWithin settings (ident_expr offset _) = offset ≤ length settings.source.text
  NodeWithin settings (literal_expr offset _ _) = offset ≤ length settings.source.text
  NodeWithin settings (block_expr offset es) =
      (offset ≤ length settings.source.text) × NodesWithin settings es
  NodeWithin settings (return_expr offset es) =
      (offset ≤ length settings.source.text) × NodesWithin settings es
  NodeWithin settings (unary_expr offset _ e) =
      (offset ≤ length settings.source.text) × NodeWithin settings e
  NodeWithin settings (binary_expr offset _ l r) =
      (offset ≤ length settings.source.text) × NodeWithin settings l × NodeWithin settings r
  NodeWithin settings (call_expr offset e es) =
      (offset ≤ length settings.source.text) × NodeWithin settings e × NodesWithin settings es

  pub NodesWithin : Settings → AstExpressions → Type 0
  NodesWithin settings none = Unit
  NodesWithin settings (node e es) = NodeWithin settings e × NodesWithin settings es

-- The message has one place.
abbrev pub TakesOne : Message → Type 0
TakesOne message = placeholder_count false 0 (get_message_format_string message) ≡ 1

-- The token begins in the text, or at its end, and has a text of its own.
abbrev pub TokenWithin : Settings → Token → Type 0
TokenWithin settings t =
    (t.offset ≤ length settings.source.text)
    × (w : Bytes) × (get_text t settings.source.text ≡ some w)

abbrev pub Anything {ℓ} : {A : Type ℓ} → A → Type 0
Anything a = Unit

module _ (settings : Settings) where
  -- The tokens of a cursor begin in the text.
  pub record IsWithin (c : TokenCursor) : Type 0 where
    pub current : TokenWithin settings c.current
    pub after : All (TokenWithin settings) c.after

  pub record IsGood (p : Parser) : Type 0 where
    pub within : IsWithin p.cursor
    pub valid : All IsValidReport p.reports

  -- The method leaves a good state, also where it throws, and its result is as told.
  abbrev pub Keeps {ℓ} : {A : Type ℓ} → (A → Type 0) → Outcome A → Type 0
  Keeps Q (ok x p) = IsGood p × Q x
  Keeps Q (thrown p) = IsGood p
  Keeps Q aborted = ⊥
  Keeps Q out_of_fuel = Unit

  pub Keeps-bind {ℓ κ} :
      {A : Type ℓ} {B : Type κ} (Q : A → Type 0) (R : B → Type 0) (m : Outcome A) (f : A → M B)
      → Keeps Q m
      → ((x : A) (q : Parser) → IsGood q → Q x → Keeps R (f x q))
      → Keeps R (bind m f)
  Keeps-bind Q R (ok x p) f w k = k x p w.0 w.1
  Keeps-bind Q R (thrown p) f w k = w
  Keeps-bind Q R aborted f w k = absurd w
  Keeps-bind Q R out_of_fuel f w k = tt

  step_to-IsWithin :
      (after : List Token) (c : TokenCursor)
      → IsWithin c
      → All (TokenWithin settings) after
      → IsWithin (Cursor.step_to after c)
  unfolding Cursor.step_to
  step_to-IsWithin [] c h k = h
  step_to-IsWithin (t ∷ ts) c h k = record { current = k.0; after = k.1 }

  pub advance-IsWithin : (c : TokenCursor) → IsWithin c → IsWithin (Cursor.advance c)
  unfolding Cursor.advance
  advance-IsWithin c h =
      if_rule IsWithin (kind_eq (Cursor.peek_kind c) end_of_file) (λ _. h)
        (λ _. step_to-IsWithin c.after c h h.after)

  pub moved : (p : Parser) → IsGood p → IsGood (record p { cursor = Cursor.advance p.cursor })
  moved p h = record { within = advance-IsWithin p.cursor h.within; valid = h.valid }

  pub advance-Keeps : (p : Parser) → IsGood p → Keeps Anything (advance p)
  unfolding advance
  advance-Keeps p h = (moved p h, tt)

  pub next-Keeps : (p : Parser) → IsGood p → Keeps (TokenWithin settings) (next p)
  unfolding next
  next-Keeps p h = (moved p h, h.within.current)

  pub match_kind-Keeps :
      (kind : TokenKind) (p : Parser) → IsGood p → Keeps Anything (match_kind kind p)
  unfolding match_kind Cursor.match
  match_kind-Keeps kind p h = elim (Bool-cases (kind_eq p.cursor.current.kind kind)) [
    | inl e ↦ rw (e, Cursor.match) (moved p h, tt)
    | inr e ↦ rw (e, Cursor.match) (h, tt)
  ]

  abbrev pub OptionWithin : Option Token → Type 0
  OptionWithin none = Unit
  OptionWithin (some t) = TokenWithin settings t

  pub match_token_kind-Keeps :
      (kind : TokenKind) (p : Parser) → IsGood p → Keeps OptionWithin (match_token_kind kind p)
  unfolding match_token_kind Cursor.match_token
  match_token_kind-Keeps kind p h = elim (Bool-cases (kind_eq p.cursor.current.kind kind)) [
    | inl e ↦ rw (e, Cursor.match_token) (moved p h, h.within.current)
    | inr e ↦ rw (e, Cursor.match_token) (h, tt)
  ]

  -- The report that something was expected, of a token that has a text.
  pub report_expected-Keeps :
      (message : Message) (p : Parser)
      → TakesOne message
      → IsGood p
      → Keeps Anything (report_expected settings message p)
  unfolding report_expected expected_report valid_for_message
  report_expected-Keeps message p one h =
      let (_, w, e) = h.within.current in
      rw (e, report_expected)
        (
          record {
            within = h.within;
            valid = All-append IsValidReport p.reports _ h.valid (rw one refl, tt);
          },
          tt,
        )

  pub fail_expected-Keeps {ℓ} :
      (A : Type ℓ) (Q : A → Type 0) (message : Message) (p : Parser)
      → TakesOne message
      → IsGood p
      → Keeps Q (fail_expected settings message p)
  unfolding fail_expected
  fail_expected-Keeps A Q message p one h =
      Keeps-bind Anything Q (report_expected settings message p) (λ _ q. thrown q)
        (report_expected-Keeps message p one h) λ _ q k _. k

  expect_matched-Keeps :
      (message : Message) (matched : Bool) (p : Parser)
      → TakesOne message
      → IsGood p
      → Keeps Anything (expect_matched settings message matched p)
  unfolding expect_matched
  expect_matched-Keeps message true p one h = (h, tt)
  expect_matched-Keeps message false p one h =
      fail_expected-Keeps {0} (Unit {0}) Anything message p one h

  pub expect-Keeps :
      (kind : TokenKind) (message : Message) (p : Parser)
      → TakesOne message
      → IsGood p
      → Keeps Anything (expect settings kind message p)
  unfolding expect
  expect-Keeps kind message p one h =
      Keeps-bind Anything Anything (match_kind kind p) (expect_matched settings message)
        (match_kind-Keeps kind p h) (λ matched q k _. expect_matched-Keeps message matched q one k)
