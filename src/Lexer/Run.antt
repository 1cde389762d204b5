-- ===== src/Lexer/Run.antt =====
-- The dispatch and the main loop (`handle_next_character`, `handle_source`, `run`, `run_lexer` of
-- cero/syntax/lexer.cc).
use cero.Common.{ℕ, suc, Bool, ◌||◌, ◌&&◌, [], ◌∷◌, ◌++◌, ◌==◌, leb, if◌then◌else◌, length}
use cero.Common.Loop
use cero.Lexer.Comments
use cero.Lexer.Numbers
use cero.Lexer.Operators
use cero.Lexer.Quotes
use cero.Lexer.State
use cero.Lexer.Words
use cero.Source
use cero.Source.Cursor
use cero.Token
use cero.Unicode
use cero.Keywords
use cero.Common.Loop.{Flow, next, stop, loop}
use cero.Lexer.Comments.{on_slash}
use cero.Lexer.Numbers.{on_zero, on_nonzero, on_dot}
use cero.Lexer.Operators.{
  on_one_char_token, on_left_angle, on_right_angle, on_colon, on_equals, on_plus, on_minus, on_star,
  on_percent, on_ampersand, on_pipe, on_tilde, on_bang,
}
use cero.Lexer.Quotes.{on_quote}
use cero.Lexer.State.{Lexer, Settings, Op, peek, advance, offset, put, report}
use cero.Lexer.Words.{on_alphabetic, keyword_handler, on_other_char}
use cero.Report.{invalid_character, source_file_too_large, number}
use cero.Source.Cursor.{make_cursor, is_valid}
use cero.Source.{SourceView, source_size_max}
use cero.Token.{
  l_paren, r_paren, l_bracket, r_bracket, l_brace, r_brace, comma, semicolon, caret, string_literal,
  char_literal, end_of_file,
}

-- The part of the switch from `(` to the default label.
unfoldable pub handle_symbol : Settings → ℕ → Op
handle_symbol settings c =
    if c == b'('
    then on_one_char_token l_paren
    else if c == b')'
    then on_one_char_token r_paren
    else if c == b'['
    then on_one_char_token l_bracket
    else if c == b']'
    then on_one_char_token r_bracket
    else if c == b'{'
    then on_one_char_token l_brace
    else if c == b'}'
    then on_one_char_token r_brace
    else if c == b','
    then on_one_char_token comma
    else if c == b';'
    then on_one_char_token semicolon
    else if c == b'^'
    then on_one_char_token caret
    else if c == b'<'
    then on_left_angle
    else if c == b'>'
    then on_right_angle
    else if c == b'.'
    then on_dot
    else if c == b':'
    then on_colon
    else if c == b'='
    then on_equals
    else if c == b'+'
    then on_plus
    else if c == b'-'
    then on_minus
    else if c == b'*'
    then on_star
    else if c == b'/'
    then on_slash settings
    else if c == b'%'
    then on_percent
    else if c == b'&'
    then on_ampersand
    else if c == b'|'
    then on_pipe
    else if c == b'~'
    then on_tilde
    else if c == b'!'
    then on_bang
    else if c == b'"'
    then on_quote settings string_literal b'"'
    else if c == b'\''
    then on_quote settings char_literal b'\''
    else on_other_char settings c

unfoldable pub is_between : ℕ → ℕ → ℕ → Bool
is_between first last c = leb first c && leb c last

-- White space, letters and digits; the other characters are `handle_symbol`'s.
unfoldable pub handle_next_character : Settings → ℕ → Op
handle_next_character settings c =
    if c == b' ' || c == b'\t' || c == b'\n' || c == 0x0b || c == 0x0c || c == b'\r'
    then advance
    else if is_between b'A' b'Z' c || c == b'_'
    then on_alphabetic settings
    else if is_between b'a' b'z' c
    then keyword_handler settings c
    else if c == b'0'
    then on_zero
    else if is_between b'1' b'9' c
    then on_nonzero
    else handle_symbol settings c

unfoldable pub source_round : Settings → Lexer → Flow Lexer Lexer
source_round settings s =
    let c = peek s in if c == 0 then stop s else next (handle_next_character settings c s)

-- The main loop of `handle_source`.
unfoldable pub handle_characters : Settings → Op
handle_characters settings s = loop (suc (length s.cursor.rest)) (λ t. t) (source_round settings) s

-- The report of an embedded null character, which ends the main loop early.
unfoldable pub report_null : Settings → Op
report_null settings s =
    if is_valid s.cursor then report settings invalid_character (offset s) (number 0 ∷ []) s else s

unfoldable pub handle_source : Settings → Op
handle_source settings s = report_null settings (handle_characters settings s)

-- The report of a source above the limit, which is not lexed.
unfoldable pub report_too_large : Settings → Op
report_too_large settings s = record s {
  reports =
      s.reports
      ++ (record {
        location = record { path = settings.source.path; line = 0; column = 0 };
        message = source_file_too_large;
        args = number source_size_max ∷ [];
      }
          ∷ []);
}

unfoldable pub run : Settings → Op
run settings s =
    let t =
      if leb (length settings.source.text) source_size_max
      then handle_source settings s
      else report_too_large settings s in
    put end_of_file (offset t) t

-- The lexer as it is constructed.
unfoldable pub initial : SourceView → Lexer
initial source = record { cursor = make_cursor source.text; tokens = []; reports = [] }

unfoldable pub run_lexer : Settings → Lexer
unfolding State.peek State.advance State.offset State.put_sized State.put
    State.get_offset_and_advance State.if_match State.report State.sub_size State.length_from
    Words.countl_one Words.next_bytes Words.in_range Words.check_char
    Words.consume_multibyte_utf8_char Words.go_on Words.word_round Words.consume_word
    Words.on_alphabetic Words.match_tails Words.on_alphabetic_maybe_keyword Words.select_handler
    Words.keyword_handler Words.on_other_word Words.on_other_char Numbers.whitespace_round
    Numbers.skip_whitespace Numbers.digit_round Numbers.consume_digit_sequence Numbers.put_float
    Numbers.finish_decimal Numbers.handle_decimal_literal Numbers.put_digits Numbers.on_zero
    Numbers.on_nonzero Numbers.put_dot Numbers.on_dot Operators.on_one_char_token
    Operators.on_right_angle Operators.on_left_angle Operators.on_colon Operators.on_equals
    Operators.on_plus Operators.on_minus Operators.on_star Operators.on_percent
    Operators.on_ampersand Operators.on_pipe Operators.on_tilde Operators.on_bang Comments.has_flags
    Comments.line_comment_round Comments.consume_line_comment Comments.close_comment
    Comments.block_comment_round Comments.consume_block_comment Comments.put_comment
    Comments.on_slash Quotes.quote_round Quotes.consume_quoted Quotes.on_quote handle_symbol
    is_between handle_next_character source_round handle_characters report_null handle_source
    report_too_large run initial Loop.loop Cursor.peek Cursor.advance Cursor.next Cursor.is_match
    Cursor.is_valid Cursor.offset Cursor.make_cursor Keywords.get_keyword_tails Keywords.encode
    Unicode.is_ascii Unicode.is_ascii_identifier_char Unicode.is_ascii_whitespace
    Unicode.is_decimal_digit Unicode.is_hexadecimal_digit Unicode.is_utf8_xid_start_char
    Unicode.is_utf8_xid_continue_char Source.locate Token.make_token
run_lexer settings = run settings (initial settings.source)
