-- ===== src/Utf16/Tests.antt =====
-- Conversion at a concrete text (cero/util/utf16.win.cc).
use cero.Common.{ℕ, List, ◌++◌, Bytes, codes, length, drop, ◌≡◌, refl, arith}
use cero.Utf16.{
  Call, Converts, utf8_to_utf16, utf16_to_utf8, utf8_to_utf16_lem, utf16_to_utf8-utf8_to_utf16,
}

-- The calls at text of ASCII characters, whose code units are the bytes.
abbrev ascii_call : Call
ascii_call input size buffer cap = (length input, input ++ drop (length input) buffer)

abbrev same_text : Bytes → List ℕ
same_text input = input

ascii_call-Converts : Converts same_text ascii_call
ascii_call-Converts = record { writes = λ input buffer h k l m. refl }

utf8_to_utf16_lem_example : utf8_to_utf16 ascii_call (codes "file.ce") ≡ codes "file.ce"
utf8_to_utf16_lem_example =
    utf8_to_utf16_lem same_text ascii_call (codes "file.ce") ascii_call-Converts (omega arith)
      (omega arith)

utf16_to_utf8-utf8_to_utf16_example :
    utf16_to_utf8 ascii_call (utf8_to_utf16 ascii_call (codes "file.ce")) ≡ codes "file.ce"
utf16_to_utf8-utf8_to_utf16_example =
    utf16_to_utf8-utf8_to_utf16 same_text same_text ascii_call ascii_call (codes "file.ce")
      ascii_call-Converts ascii_call-Converts (omega arith) (omega arith) (omega arith) refl
