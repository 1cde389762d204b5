-- ===== src/Utf16.antt =====
-- Conversion of text for the Windows API: cero/util/utf16.win.cc. Text in UTF-16 is a list of
-- code units.
use cero.Common.{
  ℕ, zero, suc, ◌+◌, ◌*◌, ◌%◌, ◌^◌, ◌≤◌, ◌<◌, true, false, List, [], ◌∷◌, ◌++◌, Bytes, length, take,
  drop, take-length, append_assoc, ◌==◌, if◌then◌else◌, ◌≡◌, refl, sym, ◌∙◌, ap, subst, arith,
  Bool-cases, inl, inr, ==→eq,
}
mod Tests

-- A string of so many null characters.
unfoldable pub nulls : ℕ → List ℕ
nulls zero = []
nulls (suc n) = 0 ∷ nulls n

-- `resize`: cut down, or filled up with nulls.
unfoldable pub resize : ℕ → List ℕ → List ℕ
unfolding nulls
resize n xs = take n (xs ++ nulls n)

-- `MultiByteToWideChar` and `WideCharToMultiByte` take the input, its length as an `int`, the
-- buffer and its length as an `int`; they give the number of code units that they wrote, and leave
-- the buffer changed. An `int` is its 32 bits.
abbrev pub Call : Type 0
Call = List ℕ → ℕ → List ℕ → ℕ → ℕ × List ℕ

abbrev to_int : ℕ → ℕ
to_int n = n % 2 ^ 32

module _ (call : Call) where
  -- What both functions do with a buffer of a given size.
  unfoldable pub convert : ℕ → List ℕ → List ℕ
  unfolding resize
  convert cap input =
      let (written, output) = call input (to_int (length input)) (nulls cap) (to_int cap) in
      resize written output

  unfoldable pub utf8_to_utf16 : Bytes → List ℕ
  unfolding convert
  utf8_to_utf16 input = if length input == 0 then [] else convert (length input) input

  unfoldable pub utf16_to_utf8 : List ℕ → Bytes
  unfolding convert
  utf16_to_utf8 input = if length input == 0 then [] else convert (3 * length input) input

-- The documented behaviour of such a function for an encoding: where the lengths are the true ones
-- and not negative, the input not empty and the buffer wide enough, it writes the encoded text to
-- the front of the buffer and returns its length.
pub record Converts (encoded : List ℕ → List ℕ) (call : Call) : Type 0 where
  pub writes :
      (input buffer : List ℕ)
      → 0 < length input
      → length input < 2 ^ 31
      → length buffer < 2 ^ 31
      → length (encoded input) ≤ length buffer
      → call input (length input) buffer (length buffer)
        ≡ (length (encoded input), encoded input ++ drop (length (encoded input)) buffer)

length-nulls : (n : ℕ) → length (nulls n) ≡ n
unfolding nulls
length-nulls zero = refl
length-nulls (suc n) = omega (arith, length-nulls n)

take-append : (xs ys zs : List ℕ) → take (length xs) ((xs ++ ys) ++ zs) ≡ xs
take-append xs ys zs = rw (append_assoc xs ys zs) (take-length xs (ys ++ zs))

convert_lem :
    (encoded : List ℕ → List ℕ) (call : Call) (cap : ℕ) (input : List ℕ)
    → Converts encoded call
    → 0 < length input
    → length input < 2 ^ 31
    → cap < 2 ^ 31
    → length (encoded input) ≤ cap
    → convert call cap input ≡ encoded input
unfolding convert resize
convert_lem encoded call cap input h positive small small_cap fits =
    let e : length input % 2 ^ 32 ≡ length input = omega arith in
    let k : cap % 2 ^ 32 ≡ cap = omega arith in
    let n = length-nulls cap in
    let done : ℕ × List ℕ =
      (length (encoded input), encoded input ++ drop (length (encoded input)) (nulls cap)) in
    let w = h.writes input (nulls cap) positive small (omega (arith, n)) (omega (arith, n)) in
    let same : call input (to_int (length input)) (nulls cap) (to_int cap)
        ≡ (length (encoded input), encoded input ++ drop (length (encoded input)) (nulls cap)) =
      rw (e, k) (subst (λ c. call input (length input) (nulls cap) c ≡ done) n w) in
    rw same (
      take-append (encoded input) (drop (length (encoded input)) (nulls cap))
        (nulls (length (encoded input))))

positive_of : (n : ℕ) → (n == 0) ≡ false → 0 < n
positive_of n h = ground arith

nil_of_length : (xs : List ℕ) → length xs ≤ 0 → xs ≡ []
nil_of_length [] h = refl
nil_of_length (x ∷ xs) h = absurd (omega arith)

-- A conversion whose text is at most so many times as long as the input, the empty input's case
-- included.
conversion_lem :
    (encoded : List ℕ → List ℕ) (call : Call) (times : ℕ) (input : List ℕ)
    → Converts encoded call
    → length (encoded input) ≤ times * length input
    → length input < 2 ^ 31
    → times * length input < 2 ^ 31
    → (if length input == 0 then [] else convert call (times * length input) input) ≡ encoded input
conversion_lem encoded call times input h bounded small small_cap =
    elim (Bool-cases (length input == 0)) [
      | inl e ↦
          let z : length input ≡ 0 = ==→eq (length input) 0 e in
          let k : length (encoded input) ≤ 0 =
            subst (λ n. length (encoded input) ≤ n) (ap (λ n. times * n) z ∙ omega arith) bounded in
          rw e (sym (nil_of_length (encoded input) k))
      | inr e ↦ rw e (
          convert_lem encoded call (times * length input) input h (positive_of (length input) e)
            small small_cap bounded)
    ]

-- The wide string is the encoded text: the buffer, of as many code units as the input has bytes,
-- is wide enough for an encoding that makes no more of them.
pub utf8_to_utf16_lem :
    (utf16 : Bytes → List ℕ) (call : Call) (input : Bytes)
    → Converts utf16 call
    → length (utf16 input) ≤ length input
    → length input < 2 ^ 31
    → utf8_to_utf16 call input ≡ utf16 input
unfolding utf8_to_utf16
utf8_to_utf16_lem utf16 call input h bounded small =
    let e : 1 * length input ≡ length input = omega arith in
    subst (λ n. (if length input == 0 then [] else convert call n input) ≡ utf16 input) e
      (conversion_lem utf16 call 1 input h (omega arith) small (omega arith))

pub utf16_to_utf8_lem :
    (utf8 : List ℕ → Bytes) (call : Call) (input : List ℕ)
    → Converts utf8 call
    → length (utf8 input) ≤ 3 * length input
    → 3 * length input < 2 ^ 31
    → utf16_to_utf8 call input ≡ utf8 input
unfolding utf16_to_utf8
utf16_to_utf8_lem utf8 call input h bounded small =
    conversion_lem utf8 call 3 input h bounded (omega arith) small

-- Text that is converted to UTF-16 and back is the text, if the encodings invert one another at it:
-- for text with `3 * length text < 2 ^ 31` and encodings that make at most one code unit of a byte
-- and three bytes of a code unit, neither buffer is too small.
pub utf16_to_utf8-utf8_to_utf16 :
    (utf16 utf8 : List ℕ → List ℕ) (to_wide from_wide : Call) (text : Bytes)
    → Converts utf16 to_wide
    → Converts utf8 from_wide
    → length (utf16 text) ≤ length text
    → length (utf8 (utf16 text)) ≤ 3 * length (utf16 text)
    → 3 * length text < 2 ^ 31
    → utf8 (utf16 text) ≡ text
    → utf16_to_utf8 from_wide (utf8_to_utf16 to_wide text) ≡ text
utf16_to_utf8-utf8_to_utf16 utf16 utf8 to_wide from_wide text h k narrow wide small inverse =
    ap (utf16_to_utf8 from_wide) (utf8_to_utf16_lem utf16 to_wide text h narrow (omega arith))
    ∙ utf16_to_utf8_lem utf8 from_wide (utf16 text) k wide (omega arith)
    ∙ inverse
