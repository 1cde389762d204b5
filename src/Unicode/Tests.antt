-- ===== src/Unicode/Tests.antt =====
-- Characters of two bytes in the tables (cero/syntax/unicode.cc).
use cero.Common.{true, ◌∷◌, ◌≡◌, ◌↔◌, refl, arith}
use cero.Unicode.{is_utf8_xid_start_char, is_utf8_xid_continue_char, utf8_char_to_unicode_scalar}
use cero.Unicode.ContinueTable.{xid_continue_table}
use cero.Unicode.Encoding.{first_byte, next_bytes, word, utf8_char_to_unicode_scalar-encode}
use cero.Unicode.Search.{Within, search_iff, start_is_continue}
use cero.Unicode.StartTable.{xid_start_table}

-- The two bytes 0xc3 and 0xa9 are U+00E9.
decode : utf8_char_to_unicode_scalar 0xa9c3 ≡ 0xe9
unfolding utf8_char_to_unicode_scalar
decode = refl

begins_word : is_utf8_xid_start_char 0xa9c3 ≡ true
unfolding is_utf8_xid_start_char
begins_word = refl

search_iff_example :
    ((is_utf8_xid_start_char 0xa9c3 ≡ true)
      ↔ Within xid_start_table (utf8_char_to_unicode_scalar 0xa9c3))
    × ((is_utf8_xid_continue_char 0xa9c3 ≡ true)
        ↔ Within xid_continue_table (utf8_char_to_unicode_scalar 0xa9c3))
search_iff_example = search_iff 0xa9c3

start_is_continue_example : is_utf8_xid_continue_char 0xa9c3 ≡ true
start_is_continue_example = start_is_continue 0xa9c3 begins_word

-- The euro sign, in three bytes.
utf8_char_to_unicode_scalar-encode_example :
    utf8_char_to_unicode_scalar (word (first_byte 0x20ac ∷ next_bytes 0x20ac)) ≡ 0x20ac
utf8_char_to_unicode_scalar-encode_example = utf8_char_to_unicode_scalar-encode 0x20ac (omega arith)
