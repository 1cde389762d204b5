-- ===== src/Lexer/Lookup.antt =====
-- The comparison of encoded tails in cero/syntax/lexer.cc and keywords.hh, described as a search
-- of the keyword list by the whole word.
use cero.Common.{
  ℕ, ◌+◌, ◌*◌, ◌≤◌, ◌<◌, Bool, true, false, ◌&&◌, Option, none, some, List, [], ◌∷◌, Bytes, All,
  ◌≡◌, refl, sym, ap, ◌∙◌, arith, ◌==◌, leb_of_le, length, if◌then◌else◌, if_rule,
}
use cero.Keywords.{
  Keyword, KeywordTail, keywords, encode, encode_keyword_tail, starts_with, add_tail,
  keyword_tails_of, get_keyword_tails,
}
use cero.Lexer.State.{Lexer, Op, put}
use cero.Lexer.Words.{match_tails}
use cero.Token.{TokenKind}

bytes_eq : Bytes → Bytes → Bool
bytes_eq [] [] = true
bytes_eq [] (b ∷ bs) = false
bytes_eq (a ∷ as') [] = false
bytes_eq (a ∷ as') (b ∷ bs) = a == b && bytes_eq as' bs

-- The kind of the first keyword that is the word.
pub find_keyword : Bytes → List Keyword → Option TokenKind
unfolding bytes_eq
find_keyword word [] = none
find_keyword word (k ∷ ks) =
    let rest = find_keyword word ks in if bytes_eq k.lexeme word then some k.kind else rest

-- The token of a keyword is put, or what is left to do where the word is none.
pub put_keyword : Option TokenKind → ℕ → Op → Op
put_keyword none offset fallback = fallback
put_keyword (some kind) offset fallback = put kind offset

-- A byte of a word: none is null.
abbrev pub IsWordByte : ℕ → Type 0
IsWordByte b = (0 < b) × (b < 256)

same_digits : (a b x y : ℕ) → a < 256 → b < 256 → (a + 256 * x == b + 256 * y) ≡ (a == b && x == y)
same_digits a b x y h k = ground arith

digit_not_zero : (b y : ℕ) → 0 < b → (0 == b + 256 * y) ≡ false
digit_not_zero b y h = ground arith

zero_not_digit : (b y : ℕ) → 0 < b → (b + 256 * y == 0) ≡ false
zero_not_digit b y h = ground arith

-- Encoded words are equal exactly if the words are.
encode_eq :
    (u v : Bytes) → All IsWordByte u → All IsWordByte v → (encode u == encode v) ≡ bytes_eq u v
unfolding encode bytes_eq
encode_eq [] [] h k = refl
encode_eq [] (b ∷ bs) h k = digit_not_zero b (encode bs) k.0.0
encode_eq (a ∷ as') [] h k = zero_not_digit a (encode as') h.0.0
encode_eq (a ∷ as') (b ∷ bs) h k =
    same_digits a b (encode as') (encode bs) h.0.1 k.0.1
    ∙ ap (λ t. a == b && t) (encode_eq as' bs h.1 k.1)

-- A keyword that the encoding has room for.
abbrev Fits : Keyword → Type 0
Fits k = All IsWordByte k.lexeme × (length k.lexeme ≤ 9)

-- The tails of a keyword list, with which a word's tail is compared as the list is searched.
abbrev Searches : ℕ → List Keyword → Option (List KeywordTail) → Type 0
Searches first ks none = ⊥
Searches first ks (some tails) =
    (rest : Bytes) (offset : ℕ) (fallback : Op) (s : Lexer)
    → All IsWordByte rest
    → match_tails tails (encode rest) offset fallback s
      ≡ put_keyword (find_keyword (first ∷ rest) ks) offset fallback s

other_first :
    (first : ℕ) (lexeme rest : Bytes)
    → starts_with first lexeme ≡ false
    → bytes_eq lexeme (first ∷ rest) ≡ false
unfolding bytes_eq starts_with
other_first first [] rest e = refl
other_first first (c ∷ cs) rest e = rw e

-- A keyword with another first character is not compared, and is not the word.
skip-Searches :
    (first : ℕ) (k : Keyword) (ks : List Keyword) (tails : Option (List KeywordTail))
    → starts_with first k.lexeme ≡ false
    → Searches first ks tails
    → Searches first (k ∷ ks) tails
unfolding find_keyword
skip-Searches first k ks none e h = h
skip-Searches first k ks (some tails) e h = λ rest offset fallback s w.
    let q = other_first first k.lexeme rest e in rw (q, find_keyword) (h rest offset fallback s w)

same_choice :
    (a b : Bool) (kind : TokenKind) (offset : ℕ) (fallback : Op) (s t : Lexer)
    (others : Option TokenKind)
    → a ≡ b
    → t ≡ put_keyword others offset fallback s
    → (if a then put kind offset s else t)
      ≡ put_keyword (if b then some kind else others) offset fallback s
unfolding put_keyword
same_choice true true kind offset fallback s t others e h = refl
same_choice true false kind offset fallback s t others e h = cc
same_choice false true kind offset fallback s t others e h = cc
same_choice false false kind offset fallback s t others e h = h

-- One with the same first character is compared by its tail.
add-Searches :
    (first c : ℕ) (cs : Bytes) (kind : TokenKind) (ks : List Keyword)
    (tails : Option (List KeywordTail))
    → All IsWordByte cs
    → length cs ≤ 8
    → (c == first) ≡ true
    → Searches first ks tails
    → Searches first
        (record { lexeme = c ∷ cs; kind = kind } ∷ ks)
        (add_tail (record { lexeme = c ∷ cs; kind = kind }) tails)
unfolding add_tail encode_keyword_tail find_keyword match_tails bytes_eq
add-Searches first c cs kind ks none b l e h = h
add-Searches first c cs kind ks (some tails) b l e h =
    rw (leb_of_le (length cs) 8 l, Searches)
      λ rest offset fallback s w.
        same_choice (encode cs == encode rest) (c == first && bytes_eq cs rest) kind offset fallback
          s (match_tails tails (encode rest) offset fallback s) (find_keyword (first ∷ rest) ks)
          (encode_eq cs rest b w ∙ sym (ap (λ t. t && bytes_eq cs rest) e))
          (h rest offset fallback s w)

-- One keyword more, by its first character.
cons-Searches :
    (first : ℕ) (lexeme : Bytes) (kind : TokenKind) (ks : List Keyword)
    (tails : Option (List KeywordTail))
    → Fits (record { lexeme = lexeme; kind = kind })
    → starts_with first lexeme ≡ true
    → Searches first ks tails
    → Searches first
        (record { lexeme = lexeme; kind = kind } ∷ ks)
        (add_tail (record { lexeme = lexeme; kind = kind }) tails)
unfolding starts_with
cons-Searches first [] kind ks tails f e h = absurd (cc)
cons-Searches first (c ∷ cs) kind ks tails f e h =
    add-Searches first c cs kind ks tails f.0.1 (omega (arith, f.1)) e h

keyword_tails_of-Searches :
    (first : ℕ) (ks : List Keyword) → All Fits ks → Searches first ks (keyword_tails_of first ks)
unfolding keyword_tails_of match_tails find_keyword put_keyword
keyword_tails_of-Searches first [] h = λ rest offset fallback s w. refl
keyword_tails_of-Searches first (k ∷ ks) h =
    let rest = keyword_tails_of-Searches first ks h.1 in
    if_rule (Searches first (k ∷ ks)) (starts_with first k.lexeme)
      (λ e. cons-Searches first k.lexeme k.kind ks (keyword_tails_of first ks) h.0 e rest)
      (λ e. skip-Searches first k ks (keyword_tails_of first ks) e rest)

keywords-Fits : All Fits keywords
unfolding keywords
keywords-Fits = omega arith

-- For every first character there are tails, since no keyword is too long to encode. To compare
-- them with the encoded rest of a word, bytes that are not null, puts the token of the first
-- keyword in the list that is the whole word, and does what is left to do where none is.
pub get_keyword_tails_lem :
    (first : ℕ) (rest : Bytes) (offset : ℕ) (fallback : Op) (s : Lexer)
    → All IsWordByte rest
    → (tails : List KeywordTail) × ((get_keyword_tails first ≡ some tails)
        × (match_tails tails (encode rest) offset fallback s
            ≡ put_keyword (find_keyword (first ∷ rest) keywords) offset fallback s))
unfolding get_keyword_tails
get_keyword_tails_lem first rest offset fallback s w =
    tails_of (keyword_tails_of first keywords)
      (keyword_tails_of-Searches first keywords keywords-Fits)
  where
    tails_of :
        (found : Option (List KeywordTail))
        → Searches first keywords found
        → (tails : List KeywordTail) × ((found ≡ some tails)
            × (match_tails tails (encode rest) offset fallback s
                ≡ put_keyword (find_keyword (first ∷ rest) keywords) offset fallback s))
    tails_of none h = absurd h
    tails_of (some tails) h = (tails, (refl, h rest offset fallback s w))
