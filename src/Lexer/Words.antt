-- ===== src/Lexer/Words.antt =====
-- Words: identifiers, keywords and characters of several bytes (`on_alphabetic`,
-- `on_alphabetic_maybe_keyword`, `keyword_handler`, `consume_word`, `on_other_char`,
-- `consume_multibyte_utf8_char` of cero/syntax/lexer.cc).
use Prim.Native.Nat.{bit_or}
use cero.Common.{
  ℕ, zero, suc, ◌+◌, ◌-◌, ◌*◌, ◌^◌, Bool, true, false, ◌&&◌, List, Option, none, some, [], ◌∷◌,
  ◌==◌, ltb, leb, if◌then◌else◌, length, take, drop,
}
use cero.Common.Loop.{Flow, next, stop, loop}
use cero.Keywords.{KeywordTail, encode, get_keyword_tails}
use cero.Lexer.State.{
  Lexer, Settings, Op, peek, advance, get_offset_and_advance, put, put_sized, report, length_from,
}
use cero.Report.{invalid_character, number}
use cero.Source.Cursor
use cero.Source.Cursor.{SourceCursor}
use cero.Token.{identifier}
use cero.Unicode.{
  is_ascii, is_ascii_identifier_char, is_utf8_xid_start_char, is_utf8_xid_continue_char,
}

-- `std::countl_one` of a byte.
unfoldable pub countl_one : ℕ → ℕ
countl_one b =
    if ltb b 128
    then 0
    else if ltb b 192
    then 1
    else if ltb b 224
    then 2
    else if ltb b 240
    then 3
    else if ltb b 248
    then 4
    else if ltb b 252
    then 5
    else if ltb b 254
    then 6
    else if ltb b 255
    then 7
    else 8

-- The loop over the following bytes: the rounds left, the round's number, and the packed bytes.
unfoldable pub next_bytes : ℕ → ℕ → ℕ → SourceCursor → ℕ × SourceCursor
next_bytes zero i utf8_char cursor = (utf8_char, cursor)
next_bytes (suc n) i utf8_char cursor =
    let (c, cursor') = Cursor.next cursor in
    next_bytes n (i + 1) (bit_or utf8_char (c * 2 ^ (i * 8))) cursor'

unfoldable pub in_range : ℕ → Bool
in_range leading_ones = leb 2 leading_ones && leb leading_ones 4

-- The test of the packed bytes, and the report where it fails.
unfoldable pub check_char : Settings → ℕ → (ℕ → Bool) → ℕ → Lexer → Bool × Lexer
check_char settings offset utf8_predicate utf8_char s =
    if utf8_predicate utf8_char
    then (true, s)
    else (false, report settings invalid_character offset (number utf8_char ∷ []) s)

unfoldable pub consume_multibyte_utf8_char : Settings → ℕ → ℕ → (ℕ → Bool) → Lexer → Bool × Lexer
consume_multibyte_utf8_char settings begin offset utf8_predicate s =
    if in_range (countl_one begin)
    then (let (utf8_char, cursor) = next_bytes (countl_one begin - 1) 1 begin s.cursor in
        check_char settings offset utf8_predicate utf8_char (record s { cursor = cursor }))
    else (false, report settings invalid_character offset (number begin ∷ []) s)

unfoldable pub go_on : Bool × Lexer → Flow Lexer Lexer
go_on (true, s) = next s
go_on (false, s) = stop s

unfoldable pub word_round : Settings → Lexer → Flow Lexer Lexer
word_round settings s =
    let c = peek s in
    if c == 0
    then stop s
    else if is_ascii_identifier_char c
    then next (advance s)
    else if is_ascii c
    then stop s
    else get_offset_and_advance
        (λ offset t.
          go_on (consume_multibyte_utf8_char settings c offset is_utf8_xid_continue_char t))
        s

unfoldable pub consume_word : Settings → Op
consume_word settings s = loop (suc (length s.cursor.rest)) (λ t. t) (word_round settings) s

unfoldable pub on_alphabetic : Settings → Op
on_alphabetic settings = get_offset_and_advance λ offset s.
    let t = consume_word settings s in put_sized identifier offset (length_from offset t) t

-- The loop over the keyword tails; what is left to do where none of them fits is `fallback`.
unfoldable pub match_tails : List KeywordTail → ℕ → ℕ → Op → Op
match_tails [] encoded offset fallback s = fallback s
match_tails (kw_tail ∷ tails) encoded offset fallback s =
    if kw_tail.tail == encoded
    then put kw_tail.kind offset s
    else match_tails tails encoded offset fallback s

unfoldable pub on_alphabetic_maybe_keyword : Settings → List KeywordTail → Op
on_alphabetic_maybe_keyword settings keyword_tails = get_offset_and_advance λ offset s.
    let t = consume_word settings s in
    let length = length_from offset t in
    let fallback = put_sized identifier offset length in
    let tail = take (length - 1) (drop (offset + 1) settings.source.text) in
    if leb length 9 then match_tails keyword_tails (encode tail) offset fallback t else fallback t

-- The handler for a first character, by the tails of its keywords; `none` does not compile.
unfoldable pub select_handler : Settings → Option (List KeywordTail) → Op
select_handler settings none = on_alphabetic settings
select_handler settings (some []) = on_alphabetic settings
select_handler settings (some (t ∷ ts)) = on_alphabetic_maybe_keyword settings (t ∷ ts)

unfoldable pub keyword_handler : Settings → ℕ → Op
keyword_handler settings first = select_handler settings (get_keyword_tails first)

-- The word behind a first character that was accepted.
unfoldable pub on_other_word : Settings → ℕ → Bool × Lexer → Lexer
on_other_word settings offset (false, s) = s
on_other_word settings offset (true, s) =
    let t = consume_word settings s in put_sized identifier offset (length_from offset t) t

unfoldable pub on_other_char : Settings → ℕ → Op
on_other_char settings character = get_offset_and_advance λ offset s.
    on_other_word settings offset
      (consume_multibyte_utf8_char settings character offset is_utf8_xid_start_char s)
