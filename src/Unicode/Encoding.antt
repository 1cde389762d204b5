-- ===== src/Unicode/Encoding.antt =====
-- UTF-8 as the standard defines it, and what the decoder makes of it (cero/syntax/unicode.cc).
use Prim.Native.Nat.{bit_and, bit_or}
use cero.Common.{
  ℕ, ◌+◌, ◌*◌, ◌/◌, ◌%◌, ◌^◌, ◌≤◌, ◌<◌, true, [], ◌∷◌, Bytes, ltb, ltb→lt, ltb→le, ◌==◌, ==→eq,
  get_or, if◌then◌else◌, ◌≡◌, refl, ◌∙◌, ap, arith, Bool-cases, inl, inr,
}
use cero.Common.Bits.{all_below, of_all_below, shifted-bit_or}
use cero.Unicode.{lengths, masks, shifts, byte_at, utf8_char_to_unicode_scalar}

-- The bytes of a scalar behind the first one, which holds its upper bits.
abbrev low_byte : ℕ → ℕ
low_byte n = 0x80 + n % 64

unfoldable pub first_byte : ℕ → ℕ
first_byte scalar =
    if ltb scalar 0x80
    then scalar
    else if ltb scalar 0x800
    then 0xc0 + scalar / 2 ^ 6
    else if ltb scalar 0x10000
    then 0xe0 + scalar / 2 ^ 12
    else 0xf0 + scalar / 2 ^ 18

unfoldable pub next_bytes : ℕ → Bytes
next_bytes scalar =
    if ltb scalar 0x80
    then []
    else if ltb scalar 0x800
    then low_byte scalar ∷ []
    else if ltb scalar 0x10000
    then low_byte (scalar / 2 ^ 6) ∷ low_byte scalar ∷ []
    else low_byte (scalar / 2 ^ 12) ∷ low_byte (scalar / 2 ^ 6) ∷ low_byte scalar ∷ []

-- The first bytes of a list as a word, the first one lowest.
unfoldable pub word : Bytes → ℕ
word [] = 0
word (b ∷ bs) = b + word bs * 256

-- The tables of the decoder, over all bytes.
number_of_bytes : ℕ → ℕ
number_of_bytes b =
    if ltb b 0x80
    then 1
    else if ltb b 0xc0
    then 0
    else if ltb b 0xe0
    then 2
    else if ltb b 0xf0
    then 3
    else if ltb b 0xf8
    then 4
    else 0

lengths_table : all_below 256 (λ b. get_or lengths (b / 2 ^ 3) 0 == number_of_bytes b) ≡ true
unfolding number_of_bytes
lengths_table = refl

lengths_lem : (b : ℕ) → b < 256 → get_or lengths (b / 2 ^ 3) 0 ≡ number_of_bytes b
lengths_lem b h =
    ==→eq _ _
      (of_all_below 256 (λ x. get_or lengths (x / 2 ^ 3) 0 == number_of_bytes x) b lengths_table h)

low_six : (b : ℕ) → b < 256 → bit_and b 0x3f ≡ b % 64
low_six b h = ==→eq _ _ (of_all_below 256 (λ x. bit_and x 0x3f == x % 64) b refl h)

low_seven : (b : ℕ) → b < 256 → bit_and b 0x7f ≡ b % 128
low_seven b h = ==→eq _ _ (of_all_below 256 (λ x. bit_and x 0x7f == x % 128) b refl h)

low_five : (b : ℕ) → b < 256 → bit_and b 0x1f ≡ b % 32
low_five b h = ==→eq _ _ (of_all_below 256 (λ x. bit_and x 0x1f == x % 32) b refl h)

low_four : (b : ℕ) → b < 256 → bit_and b 0x0f ≡ b % 16
low_four b h = ==→eq _ _ (of_all_below 256 (λ x. bit_and x 0x0f == x % 16) b refl h)

low_three : (b : ℕ) → b < 256 → bit_and b 0x07 ≡ b % 8
low_three b h = ==→eq _ _ (of_all_below 256 (λ x. bit_and x 0x07 == x % 8) b refl h)

-- The fields of a code point.
fields :
    (high b1 b2 b3 : ℕ)
    → b1 < 256
    → b2 < 256
    → b3 < 256
    → bit_or
        (bit_or (bit_or (high * 2 ^ 18) (bit_and b1 0x3f * 2 ^ 12)) (bit_and b2 0x3f * 2 ^ 6))
        (bit_and b3 0x3f)
      ≡ high * 2 ^ 18 + b1 % 64 * 2 ^ 12 + b2 % 64 * 2 ^ 6 + b3 % 64
fields high b1 b2 b3 h1 h2 h3 =
    let x = shifted-bit_or 18 high (b1 % 64 * 2 ^ 12) (omega arith) in
    let y = shifted-bit_or 12 (high * 2 ^ 6 + b1 % 64) (b2 % 64 * 2 ^ 6) (omega arith) in
    let z = shifted-bit_or 6 (high * 2 ^ 12 + b1 % 64 * 2 ^ 6 + b2 % 64) (b3 % 64) (omega arith) in
    let e : high * 2 ^ 18 + b1 % 64 * 2 ^ 12 ≡ (high * 2 ^ 6 + b1 % 64) * 2 ^ 12 = omega arith in
    let k : (high * 2 ^ 6 + b1 % 64) * 2 ^ 12 + b2 % 64 * 2 ^ 6
        ≡ (high * 2 ^ 12 + b1 % 64 * 2 ^ 6 + b2 % 64) * 2 ^ 6 =
      omega arith in
    rw (low_six b1 h1, low_six b2 h2, low_six b3 h3)
      (ap (λ t. bit_or (bit_or t (b2 % 64 * 2 ^ 6)) (b3 % 64)) (x ∙ e)
        ∙ ap (λ t. bit_or t (b3 % 64)) (y ∙ k)
        ∙ z
        ∙ omega arith)

-- What the decoder computes, from the four bytes of the word.
code_point : ℕ → ℕ → ℕ → ℕ → ℕ
code_point b0 b1 b2 b3 =
    (bit_and b0 (get_or masks (number_of_bytes b0) 0) * 2 ^ 18
      + b1 % 64 * 2 ^ 12
      + b2 % 64 * 2 ^ 6
      + b3 % 64)
    / 2 ^ get_or shifts (number_of_bytes b0) 0

byte_lt : (w i : ℕ) → byte_at w i < 256
unfolding byte_at
byte_lt w i = omega arith

decode_lem :
    (w : ℕ)
    → utf8_char_to_unicode_scalar w
      ≡ code_point (byte_at w 0) (byte_at w 1) (byte_at w 2) (byte_at w 3)
unfolding utf8_char_to_unicode_scalar code_point
decode_lem w =
    let length = get_or lengths (byte_at w 0 / 2 ^ 3) 0 in
    ap (λ t. t / 2 ^ get_or shifts length 0)
      (fields (bit_and (byte_at w 0) (get_or masks length 0)) (byte_at w 1) (byte_at w 2)
        (byte_at w 3) (byte_lt w 1) (byte_lt w 2) (byte_lt w 3))
    ∙ ap
        (λ n.
          (bit_and (byte_at w 0) (get_or masks n 0) * 2 ^ 18
            + byte_at w 1 % 64 * 2 ^ 12
            + byte_at w 2 % 64 * 2 ^ 6
            + byte_at w 3 % 64)
          / 2 ^ get_or shifts n 0)
        (lengths_lem (byte_at w 0) (byte_lt w 0))

-- The bytes of a word of four.
bytes_of_word :
    (b0 b1 b2 b3 : ℕ)
    → b0 < 256
    → b1 < 256
    → b2 < 256
    → b3 < 256
    → utf8_char_to_unicode_scalar (b0 + b1 * 2 ^ 8 + b2 * 2 ^ 16 + b3 * 2 ^ 24)
      ≡ code_point b0 b1 b2 b3
unfolding byte_at
bytes_of_word b0 b1 b2 b3 h0 h1 h2 h3 =
    let w = b0 + b1 * 2 ^ 8 + b2 * 2 ^ 16 + b3 * 2 ^ 24 in
    let e0 : byte_at w 0 ≡ b0 = omega arith in
    let e1 : byte_at w 1 ≡ b1 = omega arith in
    let e2 : byte_at w 2 ≡ b2 = omega arith in
    let e3 : byte_at w 3 ≡ b3 = omega arith in
    decode_lem w
    ∙ ap (λ t. code_point t (byte_at w 1) (byte_at w 2) (byte_at w 3)) e0
    ∙ ap (λ t. code_point b0 t (byte_at w 2) (byte_at w 3)) e1
    ∙ ap (λ t. code_point b0 b1 t (byte_at w 3)) e2
    ∙ ap (λ t. code_point b0 b1 b2 t) e3

module _ (b0 b1 b2 b3 : ℕ) where
  one_byte : b0 < 128 → code_point b0 b1 b2 b3 ≡ b0
  unfolding code_point number_of_bytes
  one_byte h =
      let n : number_of_bytes b0 ≡ 1 = ground arith in
      rw (n, low_seven b0 (omega arith)) (omega arith)

  two_bytes : 0xc0 ≤ b0 → b0 < 0xe0 → code_point b0 b1 b2 b3 ≡ b0 % 32 * 2 ^ 6 + b1 % 64
  unfolding code_point number_of_bytes
  two_bytes h k =
      let n : number_of_bytes b0 ≡ 2 = ground arith in
      rw (n, low_five b0 (omega arith)) (omega arith)

  three_bytes :
      0xe0 ≤ b0 → b0 < 0xf0 → code_point b0 b1 b2 b3 ≡ b0 % 16 * 2 ^ 12 + b1 % 64 * 2 ^ 6 + b2 % 64
  unfolding code_point number_of_bytes
  three_bytes h k =
      let n : number_of_bytes b0 ≡ 3 = ground arith in
      rw (n, low_four b0 (omega arith)) (omega arith)

  four_bytes :
      0xf0 ≤ b0
      → b0 < 0xf8
      → code_point b0 b1 b2 b3 ≡ b0 % 8 * 2 ^ 18 + b1 % 64 * 2 ^ 12 + b2 % 64 * 2 ^ 6 + b3 % 64
  unfolding code_point number_of_bytes
  four_bytes h k =
      let n : number_of_bytes b0 ≡ 4 = ground arith in
      rw (n, low_three b0 (omega arith)) (omega arith)

-- A property of the encoding holds if it does for each number of bytes.
pub encoding_rule {ℓ} :
    (P : ℕ → Bytes → Type ℓ) (scalar : ℕ)
    → (scalar < 0x80 → P scalar [])
    → (0x80 ≤ scalar → scalar < 0x800 → P (0xc0 + scalar / 2 ^ 6) (low_byte scalar ∷ []))
    → (0x800 ≤ scalar
        → scalar < 0x10000
        → P (0xe0 + scalar / 2 ^ 12) (low_byte (scalar / 2 ^ 6) ∷ low_byte scalar ∷ []))
    → (0x10000 ≤ scalar
        → P
            (0xf0 + scalar / 2 ^ 18)
            (low_byte (scalar / 2 ^ 12) ∷ low_byte (scalar / 2 ^ 6) ∷ low_byte scalar ∷ []))
    → P (first_byte scalar) (next_bytes scalar)
unfolding first_byte next_bytes
encoding_rule P scalar one two three four = elim (Bool-cases (ltb scalar 0x80)) [
  | inl e ↦ rw e (one (ltb→lt scalar 0x80 e))
  | inr e ↦ elim (Bool-cases (ltb scalar 0x800)) [
    | inl k ↦ rw (e, k) (two (ltb→le scalar 0x80 e) (ltb→lt scalar 0x800 k))
    | inr k ↦ elim (Bool-cases (ltb scalar 0x10000)) [
      | inl l ↦ rw (e, k, l) (three (ltb→le scalar 0x800 k) (ltb→lt scalar 0x10000 l))
      | inr l ↦ rw (e, k, l) (four (ltb→le scalar 0x10000 l))
    ]
  ]
]

-- The decoder gives back the scalar whose encoding, packed into a word with the first byte lowest,
-- it is given, for every Unicode scalar.
pub utf8_char_to_unicode_scalar-encode :
    (scalar : ℕ)
    → scalar < 0x110000
    → utf8_char_to_unicode_scalar (word (first_byte scalar ∷ next_bytes scalar)) ≡ scalar
unfolding word
utf8_char_to_unicode_scalar-encode scalar h =
    encoding_rule (λ b bs. utf8_char_to_unicode_scalar (word (b ∷ bs)) ≡ scalar) scalar
      (λ k.
        ap utf8_char_to_unicode_scalar (omega arith)
        ∙ bytes_of_word scalar 0 0 0 (omega arith) (omega arith) (omega arith) (omega arith)
        ∙ one_byte scalar 0 0 0 k)
      (λ k l.
        ap utf8_char_to_unicode_scalar (omega arith)
        ∙ bytes_of_word (0xc0 + scalar / 2 ^ 6) (low_byte scalar) 0 0 (omega arith) (omega arith)
            (omega arith) (omega arith)
        ∙ two_bytes (0xc0 + scalar / 2 ^ 6) (low_byte scalar) 0 0 (omega arith) (omega arith)
        ∙ omega arith)
      (λ k l.
        ap utf8_char_to_unicode_scalar (omega arith)
        ∙ bytes_of_word (0xe0 + scalar / 2 ^ 12) (low_byte (scalar / 2 ^ 6)) (low_byte scalar) 0
            (omega arith) (omega arith) (omega arith) (omega arith)
        ∙ three_bytes (0xe0 + scalar / 2 ^ 12) (low_byte (scalar / 2 ^ 6)) (low_byte scalar) 0
            (omega arith) (omega arith)
        ∙ omega arith)
      (λ k.
        ap utf8_char_to_unicode_scalar (omega arith)
        ∙ bytes_of_word (0xf0 + scalar / 2 ^ 18) (low_byte (scalar / 2 ^ 12))
            (low_byte (scalar / 2 ^ 6)) (low_byte scalar) (omega arith) (omega arith) (omega arith)
            (omega arith)
        ∙ four_bytes (0xf0 + scalar / 2 ^ 18) (low_byte (scalar / 2 ^ 12))
            (low_byte (scalar / 2 ^ 6)) (low_byte scalar) (omega arith) (omega arith)
        ∙ omega arith)
