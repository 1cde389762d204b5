-- ===== src/Lexer/Utf8.antt =====
-- How the lexer reads a character of several bytes (`consume_multibyte_utf8_char` of
-- cero/syntax/lexer.cc).
use Prim.Native.Nat.{bit_or}
use cero.Common.{
  ℕ, suc, ◌+◌, ◌-◌, ◌*◌, ◌^◌, ◌≤◌, ◌<◌, Bool, true, List, [], ◌∷◌, ◌++◌, Bytes, length, All, ◌≡◌,
  refl, sym, ◌∙◌, ap, subst, arith, Bool-cases, inl, inr,
}
use cero.Common.Bits.{bit_or-shifted}
use cero.Lexer.State.{Lexer, Settings, report}
use cero.Lexer.Words as Words
use cero.Lexer.Words.{countl_one, in_range, check_char, consume_multibyte_utf8_char}
use cero.Source.Cursor
use cero.Source.Cursor.{SourceCursor}
use cero.Unicode.Encoding.{
  first_byte, next_bytes, word, encoding_rule, utf8_char_to_unicode_scalar-encode,
}
use cero.Unicode.Range.{UnicodeScalarRange, binary_search}
use cero.Unicode.{search_table, utf8_char_to_unicode_scalar}

-- A round of the loop puts a byte above the ones before it.
next_bytes-suc :
    (n i packed b : ℕ) (rest : Bytes) (cursor : SourceCursor)
    → cursor.rest ≡ b ∷ rest
    → Words.next_bytes (suc n) i packed cursor
      ≡ Words.next_bytes n
          (i + 1)
          (bit_or packed (b * 2 ^ (i * 8)))
          (record { rest = rest; position = cursor.position + 1 })
unfolding Words.next_bytes Cursor.next Cursor.peek Cursor.first_or_null Cursor.advance
    Cursor.advance_from
next_bytes-suc n i packed b rest cursor e = rw e refl

round :
    (n i packed b : ℕ) (rest : Bytes) (cursor : SourceCursor) (longer : ℕ)
    → cursor.rest ≡ b ∷ rest
    → bit_or packed (b * 2 ^ (i * 8)) ≡ longer
    → Words.next_bytes (suc n) i packed cursor
      ≡ Words.next_bytes n (i + 1) longer (record { rest = rest; position = cursor.position + 1 })
round n i packed b rest cursor longer e k =
    next_bytes-suc n i packed b rest cursor e
    ∙ ap
        (λ t. Words.next_bytes n (i + 1) t (record { rest = rest; position = cursor.position + 1 }))
        k

-- The rounds over the bytes behind the first one.
Packs : Bytes → Bytes → ℕ × SourceCursor → Type 0
Packs bs rest r = (r.0 ≡ word bs) × (r.1.rest ≡ rest)

next_bytes-Packs :
    (b : ℕ) (bs rest : Bytes) (cursor : SourceCursor)
    → b < 256
    → All (λ c. c < 256) bs
    → length bs ≤ 3
    → cursor.rest ≡ bs ++ rest
    → Packs (b ∷ bs) rest (Words.next_bytes (length bs) 1 b cursor)
unfolding Words.next_bytes Packs word
next_bytes-Packs b [] rest cursor h k l e = (omega arith, e)
next_bytes-Packs b (b1 ∷ []) rest cursor h k l e =
    let at = cursor.position in
    subst (Packs (b ∷ b1 ∷ []) rest)
      (sym (round 0 1 b b1 rest cursor (b + b1 * 2 ^ 8) e (bit_or-shifted 8 b b1 (omega arith))))
      (omega arith, refl)
next_bytes-Packs b (b1 ∷ (b2 ∷ [])) rest cursor h k l e =
    let c1 : SourceCursor = record { rest = b2 ∷ rest; position = cursor.position + 1 } in
    let w1 = b + b1 * 2 ^ 8 in
    let w2 = w1 + b2 * 2 ^ 16 in
    subst (Packs (b ∷ b1 ∷ b2 ∷ []) rest)
      (sym (
        round 1 1 b b1 (b2 ∷ rest) cursor w1 e (bit_or-shifted 8 b b1 (omega arith))
        ∙ round 0 2 w1 b2 rest c1 w2 refl (bit_or-shifted 16 w1 b2 (omega (arith, k)))))
      (omega arith, refl)
next_bytes-Packs b (b1 ∷ (b2 ∷ (b3 ∷ []))) rest cursor h k l e =
    let c1 : SourceCursor = record { rest = b2 ∷ b3 ∷ rest; position = cursor.position + 1 } in
    let c2 : SourceCursor = record { rest = b3 ∷ rest; position = cursor.position + 1 + 1 } in
    let w1 = b + b1 * 2 ^ 8 in
    let w2 = w1 + b2 * 2 ^ 16 in
    let w3 = w2 + b3 * 2 ^ 24 in
    subst (Packs (b ∷ b1 ∷ b2 ∷ b3 ∷ []) rest)
      (sym (
        round 2 1 b b1 (b2 ∷ b3 ∷ rest) cursor w1 e (bit_or-shifted 8 b b1 (omega arith))
        ∙ round 1 2 w1 b2 (b3 ∷ rest) c1 w2 refl (bit_or-shifted 16 w1 b2 (omega (arith, k)))
        ∙ round 0 3 w2 b3 rest c2 w3 refl (bit_or-shifted 24 w2 b3 (omega (arith, k)))))
      (omega arith, refl)
next_bytes-Packs b (b1 ∷ (b2 ∷ (b3 ∷ (b4 ∷ bs)))) rest cursor h k l e = absurd (omega arith)

-- What the first byte says of the others.
record Leads (b : ℕ) (bs : Bytes) : Type 0 where
  byte : b < 256
  bytes : All (λ c. c < 256) bs
  few : length bs ≤ 3
  ones : countl_one b ≡ suc (length bs)
  some_behind : 1 ≤ length bs

first_byte-Leads :
    (scalar : ℕ) → 0x80 ≤ scalar → scalar < 0x110000 → Leads (first_byte scalar) (next_bytes scalar)
unfolding countl_one
first_byte-Leads scalar h l =
    encoding_rule Leads scalar (λ k. absurd (omega arith))
      (λ k m. record {
        byte = omega arith;
        bytes = omega arith;
        few = omega arith;
        ones = ground arith;
        some_behind = omega arith;
      })
      (λ k m. record {
        byte = omega arith;
        bytes = omega arith;
        few = omega arith;
        ones = ground arith;
        some_behind = omega arith;
      })
      (λ k. record {
        byte = omega arith;
        bytes = omega arith;
        few = omega arith;
        ones = ground arith;
        some_behind = omega arith;
      })

in_range_of : (n : ℕ) → 1 ≤ n → n ≤ 3 → in_range (suc n) ≡ true
unfolding in_range
in_range_of n h k = ground arith

-- Whether the test says yes, and what is left of the text.
check_char-rest :
    (settings : Settings) (offset : ℕ) (utf8_predicate : ℕ → Bool) (utf8_char : ℕ) (s : Lexer)
    → ((check_char settings offset utf8_predicate utf8_char s).0 ≡ utf8_predicate utf8_char)
      × ((check_char settings offset utf8_predicate utf8_char s).1.cursor.rest ≡ s.cursor.rest)
unfolding check_char report
check_char-rest settings offset utf8_predicate utf8_char s =
    elim (Bool-cases (utf8_predicate utf8_char)) [
      | inl e ↦ rw e (refl, refl)
      | inr e ↦ rw e (refl, refl)
    ]

-- For the encoding of any scalar of several bytes, the lexer reads exactly its bytes, and takes the
-- character for one of a table exactly if the search finds the scalar itself in the table.
pub consume_multibyte_utf8_char-encode :
    (settings : Settings) (offset : ℕ) (table : List UnicodeScalarRange) (scalar : ℕ) (s : Lexer)
    (rest : Bytes)
    → 0x80 ≤ scalar
    → scalar < 0x110000
    → s.cursor.rest ≡ next_bytes scalar ++ rest
    → ((consume_multibyte_utf8_char settings (first_byte scalar) offset (search_table table) s).0
        ≡ binary_search table scalar)
      × ((consume_multibyte_utf8_char settings
            (first_byte scalar)
            offset
            (search_table table)
            s).1.cursor.rest
          ≡ rest)
unfolding consume_multibyte_utf8_char search_table Packs
consume_multibyte_utf8_char-encode settings offset table scalar s rest h l e =
    let w = first_byte-Leads scalar h l in
    let (packed, left) =
      next_bytes-Packs (first_byte scalar) (next_bytes scalar) rest s.cursor w.byte w.bytes w.few
        e in
    let r = Words.next_bytes (length (next_bytes scalar)) 1 (first_byte scalar) s.cursor in
    let (same, kept) =
      check_char-rest settings offset (search_table table) r.0 (record s { cursor = r.1 }) in
    let e1 : suc (length (next_bytes scalar)) - 1 ≡ length (next_bytes scalar) = omega arith in
    rw (w.ones, e1, in_range_of (length (next_bytes scalar)) w.some_behind w.few)
      (
        same
            ∙ ap (binary_search table) (
                ap utf8_char_to_unicode_scalar packed
                ∙ utf8_char_to_unicode_scalar-encode scalar l),
        kept ∙ left,
      )
