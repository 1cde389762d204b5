-- ===== src/Unicode.antt =====
-- Character classes: cero/syntax/unicode.hh and .cc. Characters are bytes, 0 to 255; a test that
-- bounds a character on both sides reads the same on the signed char of the source.
pub mod Range
pub mod StartTable
pub mod ContinueTable
pub mod Search
pub mod Encoding
mod Tests
use Prim.Native.Nat.{bit_and, bit_or}
use cero.Common.{ℕ, ◌*◌, ◌/◌, ◌%◌, ◌^◌, Bool, ◌&&◌, ◌||◌, List, [], ◌∷◌, leb, ◌==◌, get_or}
use Range.{UnicodeScalarRange, binary_search}
use StartTable.{xid_start_table}
use ContinueTable.{xid_continue_table}

unfoldable pub is_ascii : ℕ → Bool
is_ascii c = c / 2 ^ 7 == 0

unfoldable pub is_ascii_identifier_char : ℕ → Bool
is_ascii_identifier_char c =
    (leb b'a' c && leb c b'z')
    || (leb b'A' c && leb c b'Z')
    || (leb b'0' c && leb c b'9')
    || c == b'_'

unfoldable pub is_ascii_whitespace : ℕ → Bool
is_ascii_whitespace c = c == b' ' || (leb b'\t' c && leb c b'\r')

unfoldable pub is_decimal_digit : ℕ → Bool
is_decimal_digit c = leb b'0' c && leb c b'9'

unfoldable pub is_hexadecimal_digit : ℕ → Bool
is_hexadecimal_digit c =
    (leb b'0' c && leb c b'9') || (leb b'a' c && leb c b'f') || (leb b'A' c && leb c b'F')

-- The number of bytes of a character, by the upper five bits of its first byte.
abbrev pub lengths : List ℕ
lengths =
    1 ∷ 1 ∷ 1 ∷ 1 ∷ 1 ∷ 1 ∷ 1 ∷ 1 ∷ 1 ∷ 1 ∷ 1 ∷ 1 ∷ 1 ∷ 1 ∷ 1 ∷ 1 ∷ 0 ∷ 0 ∷ 0 ∷ 0 ∷ 0 ∷ 0 ∷ 0 ∷ 0
    ∷ 2 ∷ 2 ∷ 2 ∷ 2 ∷ 3 ∷ 3 ∷ 4 ∷ 0 ∷ []

abbrev pub masks : List ℕ
masks = 0x00 ∷ 0x7f ∷ 0x1f ∷ 0x0f ∷ 0x07 ∷ []

abbrev pub shifts : List ℕ
shifts = 0 ∷ 18 ∷ 12 ∷ 6 ∷ 0 ∷ []

-- `byte_ptr[i]`, on a little-endian machine.
unfoldable pub byte_at : ℕ → ℕ → ℕ
byte_at word i = word / 2 ^ (8 * i) % 256

unfoldable pub utf8_char_to_unicode_scalar : ℕ → ℕ
unfolding byte_at
utf8_char_to_unicode_scalar utf8_char =
    let b0 = byte_at utf8_char 0 in
    let b1 = byte_at utf8_char 1 in
    let b2 = byte_at utf8_char 2 in
    let b3 = byte_at utf8_char 3 in
    let length = get_or lengths (b0 / 2 ^ 3) 0 in
    let high = bit_and b0 (get_or masks length 0) * 2 ^ 18 in
    let code_point =
      bit_or (bit_or (bit_or high (bit_and b1 0x3f * 2 ^ 12)) (bit_and b2 0x3f * 2 ^ 6))
        (bit_and b3 0x3f) in
    code_point / 2 ^ get_or shifts length 0

unfoldable pub search_table : List UnicodeScalarRange → ℕ → Bool
unfolding utf8_char_to_unicode_scalar binary_search
search_table table utf8_char = binary_search table (utf8_char_to_unicode_scalar utf8_char)

unfoldable pub is_utf8_xid_start_char : ℕ → Bool
unfolding search_table xid_start_table
is_utf8_xid_start_char = search_table xid_start_table

unfoldable pub is_utf8_xid_continue_char : ℕ → Bool
unfolding search_table xid_continue_table
is_utf8_xid_continue_char = search_table xid_continue_table
