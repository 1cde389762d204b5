-- ===== src/Lexer/Lexed/Keywords.antt =====
-- The encoding of keyword tails tells the words apart that the lexer compares, so the token of a
-- keyword stands where that keyword stands.
use cero.Common.{
  ℕ, ◌<◌, ◌≡◌, refl, arith, true, inl, inr, Option, none, some, List, [], ◌∷◌, Bytes, length, All,
  leb, if_rule,
}
use cero.Keywords.{
  Keyword, keywords, encode, tail_of, encode_keyword_tail, KeywordTail, starts_with, add_tail,
  keyword_tails_of, get_keyword_tails,
}
use cero.Lexer.Lexed.Words.{NullFree}
use cero.Token.{TokenKind, fixed_text}

abbrev pub IsByte : ℕ → Type 0
IsByte b = b < 256

-- An ASCII character that is not null.
abbrev pub IsPlain : ℕ → Type 0
IsPlain b = (0 < b) × (b < 128)

-- The lexeme is the text of the keyword's token, in plain characters.
record IsKeyword (k : Keyword) : Type 0 where
  text_is : fixed_text k.kind ≡ some k.lexeme
  plain : All IsPlain k.lexeme

IsKeyword-of :
    {k : Keyword} → fixed_text k.kind ≡ some k.lexeme → All IsPlain k.lexeme → IsKeyword k
IsKeyword-of e p = record { text_is = e; plain = p }

keywords-IsKeyword : All IsKeyword keywords
unfolding keywords fixed_text
keywords-IsKeyword = (
  IsKeyword-of refl (omega arith),
  (
    IsKeyword-of refl (omega arith),
    (
      IsKeyword-of refl (omega arith),
      (
        IsKeyword-of refl (omega arith),
        (
          IsKeyword-of refl (omega arith),
          (
            IsKeyword-of refl (omega arith),
            (
              IsKeyword-of refl (omega arith),
              (
                IsKeyword-of refl (omega arith),
                (
                  IsKeyword-of refl (omega arith),
                  (
                    IsKeyword-of refl (omega arith),
                    (
                      IsKeyword-of refl (omega arith),
                      (
                        IsKeyword-of refl (omega arith),
                        (
                          IsKeyword-of refl (omega arith),
                          (
                            IsKeyword-of refl (omega arith),
                            (
                              IsKeyword-of refl (omega arith),
                              (
                                IsKeyword-of refl (omega arith),
                                (
                                  IsKeyword-of refl (omega arith),
                                  (
                                    IsKeyword-of refl (omega arith),
                                    (
                                      IsKeyword-of refl (omega arith),
                                      (
                                        IsKeyword-of refl (omega arith),
                                        (
                                          IsKeyword-of refl (omega arith),
                                          (
                                            IsKeyword-of refl (omega arith),
                                            (IsKeyword-of refl (omega arith), tt),
                                          ),
                                        ),
                                      ),
                                    ),
                                  ),
                                ),
                              ),
                            ),
                          ),
                        ),
                      ),
                    ),
                  ),
                ),
              ),
            ),
          ),
        ),
      ),
    ),
  ),
)

-- Of a word without a null byte before its first byte that is not ASCII, the encoding determines
-- all: trailing zeros of the integer are no bytes of the word.
pub encode-injective :
    (u k : Bytes) → All IsByte u → NullFree u → All IsPlain k → encode k ≡ encode u → k ≡ u
unfolding encode
encode-injective [] [] b n p e = refl
encode-injective [] (c ∷ cs) b n p e = absurd (omega (arith, p.0.0))
encode-injective (d ∷ ds) [] b (inl h) p e = absurd (omega (arith, e))
encode-injective (d ∷ ds) [] b (inr (h, n)) p e = absurd (omega (arith, e))
encode-injective (d ∷ ds) (c ∷ cs) b (inl h) p e = absurd (omega (arith, e, p.0, b.0))
encode-injective (d ∷ ds) (c ∷ cs) b (inr (h, n)) p e =
    let same : c ≡ d = omega (arith, e, p.0, b.0) in
    let rest : encode cs ≡ encode ds = omega (arith, e, p.0, b.0) in
    cc (same, encode-injective ds cs b.1 n p.1 rest)

-- What a keyword tail for a first character stands for.
pub record IsTail (first : ℕ) (t : KeywordTail) : Type 0 where
  pub letters : Bytes
  pub tail_is : t.tail ≡ encode letters
  pub text_is : fixed_text t.kind ≡ some (first ∷ letters)
  pub plain : All IsPlain letters

abbrev pub AllTails : ℕ → Option (List KeywordTail) → Type 0
AllTails first none = Unit
AllTails first (some ts) = All (IsTail first) ts

keyword-IsTail :
    (first : ℕ) (lexeme : Bytes) (kind : TokenKind)
    → fixed_text kind ≡ some lexeme
    → All IsPlain lexeme
    → starts_with first lexeme ≡ true
    → IsTail first (record { tail = encode (tail_of lexeme); kind = kind })
unfolding starts_with tail_of
keyword-IsTail first [] kind e p h = cc
keyword-IsTail first (c ∷ cs) kind e p h = record {
  letters = cs;
  tail_is = refl;
  text_is = let same : c ≡ first = ground arith in rw (← same) e;
  plain = p.1;
}

add_tail-AllTails :
    (first : ℕ) (k : Keyword) (ts : Option (List KeywordTail))
    → IsKeyword k
    → starts_with first k.lexeme ≡ true
    → AllTails first ts
    → AllTails first (add_tail k ts)
unfolding add_tail encode_keyword_tail
add_tail-AllTails first k none i h t = tt
add_tail-AllTails first k (some ts) i h t =
    if_rule
      (λ (o : Option ℕ).
        AllTails first
          (elim o [ none ↦ none | some x ↦ some (record { tail = x; kind = k.kind } ∷ ts) ]))
      (leb (length (tail_of k.lexeme)) 8)
      (λ _. (keyword-IsTail first k.lexeme k.kind i.text_is i.plain h, t)) (λ _. tt)

keyword_tails_of-AllTails :
    (first : ℕ) (ks : List Keyword) → All IsKeyword ks → AllTails first (keyword_tails_of first ks)
unfolding keyword_tails_of
keyword_tails_of-AllTails first [] h = tt
keyword_tails_of-AllTails first (k ∷ ks) h =
    if_rule (AllTails first) (starts_with first k.lexeme)
      (λ e. add_tail-AllTails first k _ h.0 e (keyword_tails_of-AllTails first ks h.1))
      (λ _. keyword_tails_of-AllTails first ks h.1)

pub get_keyword_tails-AllTails : (first : ℕ) → AllTails first (get_keyword_tails first)
unfolding get_keyword_tails
get_keyword_tails-AllTails first = keyword_tails_of-AllTails first keywords keywords-IsKeyword
