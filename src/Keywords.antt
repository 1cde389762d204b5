-- ===== src/Keywords.antt =====
-- Keywords and their encoded tails: cero/syntax/keywords.hh.
use cero.Common.{
  ℕ, ◌+◌, ◌*◌, Bool, false, Option, some, none, List, [], ◌∷◌, Bytes, codes, leb, ◌==◌,
  if◌then◌else◌, length,
}
use cero.Token.{
  TokenKind, kw_break, kw_catch, kw_const, kw_continue, kw_do, kw_else, kw_enum, kw_for, kw_if,
  kw_in, kw_interface, kw_let, kw_mut, kw_private, kw_public, kw_raise, kw_return, kw_static,
  kw_struct, kw_switch, kw_try, kw_unchecked, kw_while,
}

pub record Keyword : Type 0 where
  pub lexeme : Bytes
  pub kind : TokenKind

abbrev keyword : Bytes → TokenKind → Keyword
keyword lexeme kind = record { lexeme = lexeme; kind = kind }

unfoldable pub keywords : List Keyword
keywords =
    keyword (codes "break") kw_break
    ∷ keyword (codes "catch") kw_catch
    ∷ keyword (codes "const") kw_const
    ∷ keyword (codes "continue") kw_continue
    ∷ keyword (codes "do") kw_do
    ∷ keyword (codes "else") kw_else
    ∷ keyword (codes "enum") kw_enum
    ∷ keyword (codes "for") kw_for
    ∷ keyword (codes "if") kw_if
    ∷ keyword (codes "in") kw_in
    ∷ keyword (codes "interface") kw_interface
    ∷ keyword (codes "let") kw_let
    ∷ keyword (codes "mut") kw_mut
    ∷ keyword (codes "private") kw_private
    ∷ keyword (codes "public") kw_public
    ∷ keyword (codes "raise") kw_raise
    ∷ keyword (codes "return") kw_return
    ∷ keyword (codes "static") kw_static
    ∷ keyword (codes "struct") kw_struct
    ∷ keyword (codes "switch") kw_switch
    ∷ keyword (codes "try") kw_try
    ∷ keyword (codes "unchecked") kw_unchecked
    ∷ keyword (codes "while") kw_while
    ∷ []

-- The bytes of a word copied to the front of a zeroed 64-bit integer, on a little-endian machine.
unfoldable pub encode : Bytes → ℕ
encode [] = 0
encode (b ∷ bs) = b + 256 * encode bs

-- `substr(1)` of a nonempty word.
unfoldable pub tail_of : Bytes → Bytes
tail_of [] = []
tail_of (_ ∷ bs) = bs

-- `none` is the `throw`, which stops the compilation of the program.
unfoldable pub encode_keyword_tail : Bytes → Option ℕ
unfolding encode tail_of
encode_keyword_tail keyword =
    if leb (length (tail_of keyword)) 8 then some (encode (tail_of keyword)) else none

pub record KeywordTail : Type 0 where
  pub tail : ℕ
  pub kind : TokenKind

unfoldable pub starts_with : ℕ → Bytes → Bool
starts_with first [] = false
starts_with first (c ∷ _) = c == first

-- A keyword's tail put in front of the later ones.
unfoldable pub add_tail : Keyword → Option (List KeywordTail) → Option (List KeywordTail)
unfolding encode_keyword_tail
add_tail k none = none
add_tail k (some tails) = elim (encode_keyword_tail k.lexeme) [
  | none ↦ none
  | some t ↦ some (record { tail = t; kind = k.kind } ∷ tails)
]

unfoldable pub keyword_tails_of : ℕ → List Keyword → Option (List KeywordTail)
unfolding add_tail starts_with
keyword_tails_of first [] = some []
keyword_tails_of first (k ∷ ks) =
    let rest = keyword_tails_of first ks in
    if starts_with first k.lexeme then add_tail k rest else rest

unfoldable pub get_keyword_tails : ℕ → Option (List KeywordTail)
unfolding keyword_tails_of keywords
get_keyword_tails first = keyword_tails_of first keywords
