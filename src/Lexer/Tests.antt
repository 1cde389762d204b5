-- ===== src/Lexer/Tests.antt =====
-- Runs of the lexer on small inputs, and its theorems at such inputs.
use cero.Common.{some, ℕ, List, [], ◌∷◌, ◌++◌, codes, Bytes, map, All, ◌≡◌, refl, arith}
use cero.Common.Loop.{Runs}
use cero.Lexer.Run.{run_lexer, source_round, handle_characters, initial}
use cero.Lexer.Sound.{
  Tokenized, run_lexer-Tokenized, handle_characters_terminates, run_lexer-IsValidReport,
}
use cero.Keywords.{KeywordTail, get_keyword_tails, encode, keywords}
use cero.Lexer.Lookup.{put_keyword, find_keyword, get_keyword_tails_lem}
use cero.Lexer.State.{Settings}
use cero.Lexer.Words.{match_tails}
use cero.Lexer.Tiles.{IsValidReport}
use cero.Lexer.Quotes.{on_quote}
use cero.Lexer.Unclosed.{on_quote-reports}
use cero.Lexer.Utf8.{consume_multibyte_utf8_char-encode}
use cero.Lexer.Words.{consume_multibyte_utf8_char}
use cero.Unicode.Encoding.{first_byte, next_bytes}
use cero.Unicode.Range.{binary_search}
use cero.Unicode.StartTable.{xid_start_table}
use cero.Unicode.{search_table}
use cero.Lexer.State.{Lexer}
use cero.Token.{
  TokenKind, Token, identifier, line_comment, dec_int_literal, hex_int_literal, float_literal,
  string_literal, block_comment, kw_return, dot, l_paren, r_paren, l_brace, r_brace, r_angle,
  r_angle_angle_eq, semicolon, plus_eq, end_of_file,
}

abbrev settings_of : ℕ → Bytes → Settings
settings_of flags text = record {
  source = record { text = text; path = "test" };
  flags = flags;
  tab_size = 4;
}

abbrev view : Token → TokenKind × ℕ × ℕ
view t = (t.kind, t.offset, t.variable_length)

abbrev tokens_of : ℕ → Bytes → List (TokenKind × ℕ × ℕ)
tokens_of flags text = map view (run_lexer (settings_of flags text)).tokens

lex_words :
    tokens_of 0 (codes "foo() { return do_; }")
    ≡ (identifier, 0, 3)
      ∷ (l_paren, 3, 0)
      ∷ (r_paren, 4, 0)
      ∷ (l_brace, 6, 0)
      ∷ (kw_return, 8, 0)
      ∷ (identifier, 15, 3)
      ∷ (semicolon, 18, 0)
      ∷ (r_brace, 20, 0)
      ∷ (end_of_file, 21, 0)
      ∷ []
unfolding run_lexer
lex_words = refl

lex_numbers :
    tokens_of 0 (codes "1 000 ;0x1 A.5 12 .5 7. >>=>>+=")
    ≡ (dec_int_literal, 0, 5)
      ∷ (semicolon, 6, 0)
      ∷ (hex_int_literal, 7, 5)
      ∷ (float_literal, 12, 5)
      ∷ (float_literal, 18, 4)
      ∷ (dot, 22, 0)
      ∷ (r_angle_angle_eq, 24, 0)
      ∷ (r_angle, 27, 0)
      ∷ (r_angle, 28, 0)
      ∷ (plus_eq, 29, 0)
      ∷ (end_of_file, 31, 0)
      ∷ []
unfolding run_lexer
lex_numbers = refl

lex_comments :
    tokens_of 1 (codes "/*/**/*/ \"a\\\"b\" // x")
    ≡ (block_comment, 0, 8)
      ∷ (string_literal, 9, 6)
      ∷ (line_comment, 16, 4)
      ∷ (end_of_file, 20, 0)
      ∷ []
unfolding run_lexer
lex_comments = refl

-- `foo >> 1 .5 / é`: a two-byte letter stands at the end.
abbrev small_text : Bytes
small_text = codes "foo >> 1 .5 / " ++ 0xc3 ∷ 0xa9 ∷ []

run_lexer-Tokenized_example : Tokenized small_text (run_lexer (settings_of 0 small_text)).tokens
run_lexer-Tokenized_example =
    run_lexer-Tokenized (settings_of 0 small_text) (omega arith) (omega arith)

handle_characters_terminates_example :
    Runs
      (source_round (settings_of 1 small_text))
      (initial (settings_of 1 small_text).source)
      (handle_characters (settings_of 1 small_text) (initial (settings_of 1 small_text).source))
handle_characters_terminates_example =
    handle_characters_terminates (settings_of 1 small_text) (omega arith) (omega arith)

-- A lone continuation byte and an open comment are reported.
abbrev faulty_text : Bytes
faulty_text = 0x80 ∷ codes " 'x /*"

run_lexer-IsValidReport_example : All IsValidReport (run_lexer (settings_of 0 faulty_text)).reports
run_lexer-IsValidReport_example = run_lexer-IsValidReport (settings_of 0 faulty_text) (omega arith)

-- The word `return`.
get_keyword_tails_lem_example :
    (tails : List KeywordTail) × ((get_keyword_tails b'r' ≡ some tails)
      × (match_tails tails
            (encode (codes "eturn"))
            0
            (λ t. t)
            (initial (settings_of 0 small_text).source)
          ≡ put_keyword
              (find_keyword (b'r' ∷ codes "eturn") keywords)
              0
              (λ t. t)
              (initial (settings_of 0 small_text).source)))
get_keyword_tails_lem_example =
    get_keyword_tails_lem b'r' (codes "eturn") 0 (λ t. t)
      (initial (settings_of 0 small_text).source) (omega arith)

-- Behind the first byte of U+00E9, with a letter after it.
abbrev in_character : Lexer
in_character = record {
  cursor = record { rest = 0xa9 ∷ b'a' ∷ []; position = 1 };
  tokens = [];
  reports = [];
}

behind_first : in_character.cursor.rest ≡ next_bytes 0xe9 ++ (b'a' ∷ [])
unfolding next_bytes
behind_first = refl

consume_multibyte_utf8_char-encode_example :
    ((consume_multibyte_utf8_char
        (settings_of 0 [])
        (first_byte 0xe9)
        0
        (search_table xid_start_table)
        in_character).0
      ≡ binary_search xid_start_table 0xe9)
    × ((consume_multibyte_utf8_char
          (settings_of 0 [])
          (first_byte 0xe9)
          0
          (search_table xid_start_table)
          in_character).1.cursor.rest
        ≡ b'a' ∷ [])
consume_multibyte_utf8_char-encode_example =
    consume_multibyte_utf8_char-encode (settings_of 0 []) 0 xid_start_table 0xe9 in_character
      (b'a' ∷ []) (omega arith) (omega arith) behind_first

-- A string that the text does not close.
abbrev at_quote : Lexer
at_quote = record {
  cursor = record { rest = codes "\"abc"; position = 0 };
  tokens = [];
  reports = [];
}

on_quote-reports_example :
    (on_quote (settings_of 0 []) string_literal b'"' at_quote).reports ≡ at_quote.reports
on_quote-reports_example =
    on_quote-reports (settings_of 0 []) string_literal b'"' at_quote
      (refl, (refl, (refl, (refl, tt))))
