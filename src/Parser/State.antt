-- ===== src/Parser/State.antt =====
-- The parser's state, its exceptions and the small methods that the others use
-- (cero/syntax/parser.cc).
use cero.Common.{ℕ, Bool, true, false, Option, none, some, List, [], ◌∷◌, ◌++◌, Bytes}
use cero.Ast.{AstName, name_from, empty_name}
use cero.Report.{Report, Message, MessageArg, text}
use cero.Source.{SourceView, locate}
use cero.Token.Cursor
use cero.Token.Cursor.{TokenCursor, peek_kind, peek_offset, match, match_token}
use cero.Token.{Token, TokenKind, get_text, get_token_message_format, identifier}

-- The members that the parser changes, but for the tree, which its methods return.
pub record Parser : Type 0 where
  pub cursor : TokenCursor
  pub reports : List Report

-- The members that it does not change, and `fmt::vformat`, which is the formatting library's.
pub record Settings : Type 0 where
  pub source : SourceView
  pub tab_size : ℕ
  pub vformat : Bytes → List MessageArg → Bytes

-- What a method comes to: a result, a thrown `ParseError`, another exception or a failed assertion,
-- which nothing catches, or, in the model alone, no fuel left.
pub data Outcome {ℓ} (A : Type ℓ) : Type ℓ where
  ok : A → Parser → Outcome A
  thrown : Parser → Outcome A
  aborted : Outcome A
  out_of_fuel : Outcome A

abbrev pub M {ℓ} : Type ℓ → Type ℓ
M A = Parser → Outcome A

abbrev pub bind {ℓ κ} : {A : Type ℓ} {B : Type κ} → Outcome A → (A → M B) → Outcome B
bind (ok a p) f = f a p
bind (thrown p) f = thrown p
bind aborted f = aborted
bind out_of_fuel f = out_of_fuel

infixl 1 ◌>>=◌ ◌>>◌
abbrev pub ◌>>=◌ {ℓ κ} : {A : Type ℓ} {B : Type κ} → M A → (A → M B) → M B
m >>= f = λ p. bind (m p) f

abbrev pub ◌>>◌ {ℓ} : {B : Type ℓ} → M (Unit {0}) → M B → M B
m >> k = m >>= λ _. k

abbrev pub pure {ℓ} : {A : Type ℓ} → A → M A
pure a p = ok a p

abbrev pub throw {ℓ} : {A : Type ℓ} → M A
throw p = thrown p

abbrev pub run_in {ℓ} : {A : Type ℓ} → Parser → M A → Outcome A
run_in p m = m p

unfoldable pub advance : M (Unit {0})
unfolding Cursor.advance
advance p = ok tt (record p { cursor = Cursor.advance p.cursor })

unfoldable pub next : M Token
unfolding Cursor.advance
next p = ok p.cursor.current (record p { cursor = Cursor.advance p.cursor })

unfoldable pub match_kind : TokenKind → M Bool
unfolding match
match_kind kind p = let (b, c) = match kind p.cursor in ok b (record p { cursor = c })

unfoldable pub match_token_kind : TokenKind → M (Option Token)
unfolding match_token
match_token_kind kind p = let (t, c) = match_token kind p.cursor in ok t (record p { cursor = c })

-- The report, given the text of the current token.
unfoldable pub expected_report : Settings → Message → Bytes → TokenCursor → Report
unfolding get_token_message_format locate
expected_report settings message lexeme c = record {
  location = locate settings.source c.current.offset settings.tab_size;
  message = message;
  args = text (settings.vformat (get_token_message_format c.current.kind) (text lexeme ∷ [])) ∷ [];
}

unfoldable pub report_expected : Settings → Message → M (Unit {0})
unfolding expected_report get_text
report_expected settings message p = elim (get_text p.cursor.current settings.source.text) [
  | none ↦ aborted
  | some lexeme ↦
      ok tt (record p {
        reports = p.reports ++ (expected_report settings message lexeme p.cursor ∷ []);
      })
]

-- `report_expected(message); throw ParseError();`
unfoldable pub fail_expected {ℓ} : {A : Type ℓ} → Settings → Message → M A
unfolding report_expected
fail_expected settings message = do report_expected settings message; throw

unfoldable pub expect_matched : Settings → Message → Bool → M (Unit {0})
unfolding fail_expected
expect_matched settings message true = pure tt
expect_matched settings message false = fail_expected settings message

unfoldable pub expect : Settings → TokenKind → Message → M (Unit {0})
unfolding match_kind expect_matched
expect settings kind message = do b ← match_kind kind; expect_matched settings message b

unfoldable pub name_or_report : Settings → Message → Option Token → M AstName
unfolding report_expected name_from
name_or_report settings message (some t) = pure (name_from t)
name_or_report settings message none = do report_expected settings message; pure empty_name

unfoldable pub expect_identifier : Settings → Message → M AstName
unfolding match_token_kind name_or_report
expect_identifier settings message = do
  t ← match_token_kind identifier
  name_or_report settings message t
