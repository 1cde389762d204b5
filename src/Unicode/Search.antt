-- ===== src/Unicode/Search.antt =====
-- The tables of cero/syntax/unicode.cc and the search in them, described by the ranges alone.
use cero.Common.{
  ℕ, suc, ◌≤◌, Bool, true, false, ◌&&◌, List, [], ◌∷◌, leb, ltb, if◌then◌else◌, ◌≡◌, refl, ◌↔◌, ◌⊎◌,
  inl, inr, arith, leb→le, ltb→lt, ltb→le, Bool-cases, if_rule,
}
use cero.Unicode.{
  search_table, is_utf8_xid_start_char, is_utf8_xid_continue_char, utf8_char_to_unicode_scalar,
}
use cero.Unicode.Range.{
  UnicodeScalarRange, range, binary_search, compare_range, is_less, is_greater,
}
use cero.Unicode.StartTable.{xid_start_table}
use cero.Unicode.ContinueTable.{xid_continue_table}

-- The scalar lies in the range.
abbrev pub Covers : UnicodeScalarRange → ℕ → Type 0
Covers (range first last) scalar = (first ≤ scalar) × (scalar ≤ last)

-- The scalar lies in one of the ranges.
abbrev pub Within : List UnicodeScalarRange → ℕ → Type 0
Within [] scalar = ⊥
Within (r ∷ rs) scalar = Covers r scalar ⊎ Within rs scalar

-- The ranges begin at `low` or above, are not empty and follow each other without overlap.
sorted_from : ℕ → List UnicodeScalarRange → Bool
sorted_from low [] = true
sorted_from low (range first last ∷ rs) =
    leb low first && (leb first last && sorted_from (suc last) rs)

andl : (a b : Bool) → (a && b) ≡ true → (a ≡ true) × (b ≡ true)
andl true true h = (refl, refl)
andl true false h = cc
andl false b h = cc

Within→le :
    (rs : List UnicodeScalarRange) (low scalar : ℕ)
    → sorted_from low rs ≡ true
    → Within rs scalar
    → low ≤ scalar
unfolding sorted_from
Within→le [] low scalar h w = absurd w
Within→le (range first last ∷ rs) low scalar h w =
    let (a, t) = andl (leb low first) (leb first last && sorted_from (suc last) rs) h in
    let (b, u) = andl (leb first last) (sorted_from (suc last) rs) t in
    let l = leb→le low first a in
    let m = leb→le first last b in
    elim w [
      | inl c ↦ omega arith
      | inr v ↦ let k = Within→le rs (suc last) scalar u v in omega arith
    ]

-- In a sorted table the search finds a scalar exactly if one of the ranges holds it.
binary_search_iff :
    (rs : List UnicodeScalarRange) (low scalar : ℕ)
    → sorted_from low rs ≡ true
    → (binary_search rs scalar ≡ true) ↔ Within rs scalar
unfolding sorted_from binary_search compare_range is_less is_greater
binary_search_iff [] low scalar h = (λ e. cc, λ w. absurd w)
binary_search_iff (range first last ∷ rs) low scalar h =
    let (a, t) = andl (leb low first) (leb first last && sorted_from (suc last) rs) h in
    let (b, u) = andl (leb first last) (sorted_from (suc last) rs) t in
    let (to, from) = binary_search_iff rs (suc last) scalar u in
    let l = leb→le low first a in
    let m = leb→le first last b in
    elim (Bool-cases (ltb scalar first)) [
      | inl e ↦ rw e (
        λ h. cc,
        λ w. elim w [
          | inl c ↦ let k = ltb→lt scalar first e in absurd (omega arith)
          | inr v ↦
              let k = ltb→lt scalar first e in
              let n = Within→le rs (suc last) scalar u v in absurd (omega arith)
        ],
      )
      | inr e ↦ rw e (elim (Bool-cases (ltb last scalar)) [
        | inl f ↦ rw f (
          λ h. inr (to h),
          λ w. elim w [
            | inl c ↦ let k = ltb→lt last scalar f in absurd (omega arith)
            | inr v ↦ from v
          ],
        )
        | inr f ↦ rw f (λ _. inl (ltb→le scalar first e, ltb→le last scalar f), λ _. refl)
      ])
    ]

-- One range holds the other.
holds : UnicodeScalarRange → UnicodeScalarRange → Bool
holds (range first last) (range a b) = leb first a && leb b last

-- The ranges behind the first ones that `c` holds.
strip : UnicodeScalarRange → List UnicodeScalarRange → List UnicodeScalarRange
strip c [] = []
strip c (r ∷ rs) = let rest = strip c rs in if holds c r then rest else r ∷ rs

-- Each of the former ranges is held by one of the latter, which are gone through once.
included : List UnicodeScalarRange → List UnicodeScalarRange → Bool
included [] cs = true
included (r ∷ rs) [] = false
included (r ∷ rs) (c ∷ cs) = included (strip c (r ∷ rs)) cs

holds→Covers :
    (c r : UnicodeScalarRange) (scalar : ℕ) → holds c r ≡ true → Covers r scalar → Covers c scalar
unfolding holds
holds→Covers (range first last) (range a b) scalar h w =
    let (x, y) = andl (leb first a) (leb b last) h in
    let l = leb→le first a x in let m = leb→le b last y in (omega arith, omega arith)

Within-strip :
    (c : UnicodeScalarRange) (rs : List UnicodeScalarRange) (scalar : ℕ)
    → Within rs scalar
    → Covers c scalar ⊎ Within (strip c rs) scalar
unfolding strip
Within-strip c [] scalar w = absurd w
Within-strip c (r ∷ rs) scalar w =
    if_rule (λ x. Covers c scalar ⊎ Within x scalar) (holds c r)
      (λ e. elim w [
        | inl v ↦ inl (holds→Covers c r scalar e v)
        | inr v ↦ Within-strip c rs scalar v
      ])
      (λ e. inr w)

Within-included :
    (rs cs : List UnicodeScalarRange) (scalar : ℕ)
    → included rs cs ≡ true
    → Within rs scalar
    → Within cs scalar
unfolding included
Within-included [] cs scalar h w = absurd w
Within-included (r ∷ rs) [] scalar h w = absurd (cc)
Within-included (r ∷ rs) (c ∷ cs) scalar h w = elim (Within-strip c (r ∷ rs) scalar w) [
  | inl v ↦ inl v
  | inr v ↦ inr (Within-included (strip c (r ∷ rs)) cs scalar h v)
]

start_table_sorted : sorted_from 0 xid_start_table ≡ true
unfolding sorted_from xid_start_table
start_table_sorted = refl

continue_table_sorted : sorted_from 0 xid_continue_table ≡ true
unfolding sorted_from xid_continue_table
continue_table_sorted = refl

start_table_included : included xid_start_table xid_continue_table ≡ true
unfolding included strip holds xid_start_table xid_continue_table
start_table_included = refl

-- A character is one that can begin a word exactly if its scalar lies in one of the ranges of
-- `xid_start_table`; the same of going on with a word and `xid_continue_table`.
pub search_iff :
    (utf8_char : ℕ)
    → ((is_utf8_xid_start_char utf8_char ≡ true)
        ↔ Within xid_start_table (utf8_char_to_unicode_scalar utf8_char))
      × ((is_utf8_xid_continue_char utf8_char ≡ true)
          ↔ Within xid_continue_table (utf8_char_to_unicode_scalar utf8_char))
unfolding is_utf8_xid_start_char is_utf8_xid_continue_char search_table
search_iff utf8_char = (
  binary_search_iff xid_start_table 0 (utf8_char_to_unicode_scalar utf8_char) start_table_sorted,
  binary_search_iff xid_continue_table 0 (utf8_char_to_unicode_scalar utf8_char)
      continue_table_sorted,
)

-- A character that can begin a word can also go on with one.
pub start_is_continue :
    (utf8_char : ℕ)
    → is_utf8_xid_start_char utf8_char ≡ true
    → is_utf8_xid_continue_char utf8_char ≡ true
start_is_continue utf8_char h =
    let ((to, _), (_, from)) = search_iff utf8_char in
    from (
      Within-included xid_start_table xid_continue_table (utf8_char_to_unicode_scalar utf8_char)
        start_table_included (to h))
