-- ===== src/Lexer/State.antt =====
-- The members of `Lexer` and the small methods that every handler uses (cero/syntax/lexer.cc).
use cero.Common.{ℕ, ◌+◌, ◌-◌, ◌%◌, ◌^◌, List, [], ◌∷◌, ◌++◌, if◌then◌else◌}
use cero.Report.{Report, Message, MessageArg}
use cero.Source.Cursor
use cero.Source.Cursor.{SourceCursor, is_match}
use cero.Source.{SourceView, locate}
use cero.Token.{Token, TokenKind, make_token}

-- The members that the lexer changes; the reporter is the sequence of the calls it got.
pub record Lexer : Type 0 where
  pub cursor : SourceCursor
  pub tokens : List Token
  pub reports : List Report

-- The members that it does not change.
pub record Settings : Type 0 where
  pub source : SourceView
  pub flags : ℕ
  pub tab_size : ℕ

-- A method that returns nothing.
abbrev pub Op : Type 0
Op = Lexer → Lexer

unfoldable pub peek : Lexer → ℕ
peek s = Cursor.peek s.cursor

unfoldable pub advance : Op
advance s = record s { cursor = Cursor.advance s.cursor }

unfoldable pub offset : Lexer → ℕ
offset s = Cursor.offset s.cursor

-- `tokens_.put({kind, offset, length})`.
unfoldable pub put_sized : TokenKind → ℕ → ℕ → Op
put_sized kind offset length s = record s {
  tokens = s.tokens ++ (make_token kind offset length ∷ []);
}

-- `tokens_.put({kind, offset})`: the length defaults to 0.
unfoldable pub put : TokenKind → ℕ → Op
put kind offset = put_sized kind offset 0

-- `SourceSize offset = get_offset_and_advance();` before the statements that use it.
unfoldable pub get_offset_and_advance {ℓ} : {A : Type ℓ} → (ℕ → Lexer → A) → Lexer → A
get_offset_and_advance continue s = continue (offset s) (advance s)

-- `if (cursor_.match(expected)) matched else failed`.
unfoldable pub if_match {ℓ} : {A : Type ℓ} → ℕ → (Lexer → A) → (Lexer → A) → Lexer → A
if_match expected matched failed s =
    if is_match expected s.cursor.rest then matched (advance s) else failed s

unfoldable pub report : Settings → Message → ℕ → List MessageArg → Op
report settings message offset args s = record s {
  reports =
      s.reports
      ++ (record {
        location = locate settings.source offset settings.tab_size;
        message = message;
        args = args;
      }
          ∷ []);
}

-- a - b on 32 bits.
unfoldable pub sub_size : ℕ → ℕ → ℕ
sub_size a b = (a + 2 ^ 32 - b) % 2 ^ 32

-- `cursor_.offset() - offset`.
unfoldable pub length_from : ℕ → Lexer → ℕ
length_from start s = sub_size (offset s) start
