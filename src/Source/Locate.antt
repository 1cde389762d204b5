-- ===== src/Source/Locate.antt =====
-- `SourceView::locate` of cero/syntax/source.cc, described by the lines of the text.
use cero.Common.{
  ℕ, zero, suc, ◌+◌, ◌*◌, ◌%◌, ◌^◌, ◌≤◌, ◌<◌, Bool, true, false, ◌||◌, Option, some, none, [], ◌∷◌,
  ◌++◌, ◌==◌, if◌then◌else◌, ◌≡◌, refl, sym, ap, ◌∙◌, arith, length, length-append, take, drop,
  drop-length, append_assoc, inl, inr, Bytes, Bool-cases, if_rule, if_same,
}
use cero.Source.{SourceView, source_size_max, scan_lines, after_last_line, scan_columns, locate}

-- The number of newlines.
pub newlines : Bytes → ℕ
newlines [] = 0
newlines (c ∷ cs) = (if c == b'\n' then 1 else 0) + newlines cs

has_newline : Bytes → Bool
has_newline [] = false
has_newline (c ∷ cs) = c == b'\n' || has_newline cs

-- What stands behind the last newline, the whole text where there is none.
pub last_line : Bytes → Bytes
unfolding has_newline
last_line [] = []
last_line (c ∷ cs) =
    let rest = last_line cs in if has_newline cs then rest else if c == b'\n' then cs else c ∷ cs

-- The columns that a text takes: `tab_size` for a tab, one for each other byte.
pub width : ℕ → Bytes → ℕ
width tab_size [] = 0
width tab_size (c ∷ cs) = (if c == b'\t' then tab_size else 1) + width tab_size cs

length-take_le : (n : ℕ) (cs : Bytes) → length (take n cs) ≤ length cs
length-take_le zero cs = omega arith
length-take_le (suc n) [] = omega arith
length-take_le (suc n) (c ∷ cs) = omega (arith, length-take_le n cs)

length-last_line : (cs : Bytes) → length (last_line cs) ≤ length cs
unfolding last_line
length-last_line [] = omega arith
length-last_line (c ∷ cs) =
    if_rule (λ x. length x ≤ suc (length cs)) (has_newline cs) {x = last_line cs}
      {y = if c == b'\n' then cs else c ∷ cs} (λ _. omega (arith, length-last_line cs))
      (λ _.
        if_rule (λ x. length x ≤ suc (length cs)) (c == b'\n') {x = cs} {y = c ∷ cs}
          (λ _. omega arith) (λ _. omega arith))

scan_lines-line :
    (i line : ℕ) (last : Option ℕ) (cs : Bytes)
    → line + length cs < 2 ^ 32
    → (scan_lines i line last cs).0 ≡ line + newlines cs
unfolding scan_lines newlines
scan_lines-line i line last [] h = omega arith
scan_lines-line i line last (c ∷ cs) h = elim (Bool-cases (c == b'\n')) [
  | inl e ↦
      rw (e, scan_lines)
        (let k : (line + 1) % 2 ^ 32 ≡ line + 1 = omega arith in
          rw k (scan_lines-line (i + 1) (line + 1) (some i) cs (omega arith) ∙ omega arith))
  | inr e ↦ rw (e, scan_lines) (scan_lines-line (i + 1) line last cs (omega arith) ∙ omega arith)
]

length-snoc : (before : Bytes) (c i : ℕ) → length before ≡ i → length (before ++ (c ∷ [])) ≡ i + 1
length-snoc before c i h = omega (arith, h, length-append before (c ∷ []))

drop_past :
    (before cs : Bytes) (c i : ℕ) → length before ≡ i → drop (i + 1) (before ++ (c ∷ cs)) ≡ cs
drop_past before cs c i h =
    rw (sym (append_assoc before (c ∷ []) cs), sym (length-snoc before c i h))
      (drop-length (before ++ (c ∷ [])) cs)

-- What follows the last newline that the loop over the range has met.
scan_lines-last :
    (i line : ℕ) (last : Option ℕ) (before cs : Bytes)
    → length before ≡ i
    → after_last_line (scan_lines i line last cs).1 (before ++ cs)
      ≡ (if has_newline cs then last_line cs else after_last_line last (before ++ cs))
unfolding scan_lines last_line has_newline after_last_line
scan_lines-last i line last before [] h = refl
scan_lines-last i line last before (c ∷ cs) h =
    let k = length-snoc before c i h in
    elim (Bool-cases (c == b'\n')) [
      | inl e ↦
          rw (e, scan_lines)
            (let s =
                scan_lines-last (i + 1) ((line + 1) % 2 ^ 32) (some i) (before ++ (c ∷ [])) cs k in
              let t = rw (append_assoc before (c ∷ []) cs) at s in
              rw (drop_past before cs c i h) at t)
      | inr e ↦
          rw (e, scan_lines)
            (let s = scan_lines-last (i + 1) line last (before ++ (c ∷ [])) cs k in
              let t = rw (append_assoc before (c ∷ []) cs) at s in
              t
              ∙ sym (
                  if_same (has_newline cs) (last_line cs) (c ∷ cs)
                    (after_last_line last (before ++ (c ∷ cs)))))
    ]

scan_columns_lem :
    (tab_size column : ℕ) (cs : Bytes)
    → tab_size < 256
    → column + 255 * length cs < 2 ^ 32
    → scan_columns tab_size column cs ≡ column + width tab_size cs
unfolding scan_columns width
scan_columns_lem tab_size column [] t h = omega arith
scan_columns_lem tab_size column (c ∷ cs) t h = elim (Bool-cases (c == b'\t')) [
  | inl e ↦
      rw (e, scan_columns)
        (let k : (column + tab_size) % 2 ^ 32 ≡ column + tab_size = omega arith in
          rw k (scan_columns_lem tab_size (column + tab_size) cs t (omega arith) ∙ omega arith))
  | inr e ↦
      rw (e, scan_columns)
        (let k : (column + 1) % 2 ^ 32 ≡ column + 1 = omega arith in
          rw k (scan_columns_lem tab_size (column + 1) cs t (omega arith) ∙ omega arith))
]

-- The range in front of an offset has no more columns than the 32-bit counter holds.
last_line-fits :
    (text : Bytes) (offset : ℕ)
    → length text ≤ source_size_max
    → 1 + 255 * length (last_line (take offset text)) < 2 ^ 32
last_line-fits text offset h =
    omega (arith, h, length-last_line (take offset text), length-take_le offset text)

last_of_test :
    (a b : Bool) (x y z : Bytes)
    → (if a || b then if b then x else if a then y else z else z)
      ≡ (if b then x else if a then y else z)
last_of_test true true x y z = refl
last_of_test true false x y z = refl
last_of_test false true x y z = refl
last_of_test false false x y z = refl

last_line_lem : (cs : Bytes) → (if has_newline cs then last_line cs else cs) ≡ last_line cs
unfolding last_line has_newline
last_line_lem [] = refl
last_line_lem (c ∷ cs) = last_of_test (c == b'\n') (has_newline cs) (last_line cs) cs (c ∷ cs)

scan_lines-last_line :
    (range : Bytes) → after_last_line (scan_lines 0 1 none range).1 range ≡ last_line range
unfolding after_last_line
scan_lines-last_line range = scan_lines-last 0 1 none [] range refl ∙ last_line_lem range

-- In a text within the size limit, with tabs of fewer than 256 columns, the location of an offset
-- is exact, the 32-bit counters never wrap around: the line is one more than the number of newlines
-- in front of the offset, and the column is one more than the width of what stands between the
-- last of them and the offset.
pub locate_lem :
    (view : SourceView) (offset tab_size : ℕ)
    → length view.text ≤ source_size_max
    → tab_size < 256
    → locate view offset tab_size ≡ record {
      path = view.path;
      line = 1 + newlines (take offset view.text);
      column = 1 + width tab_size (last_line (take offset view.text));
    }
unfolding locate
locate_lem view offset tab_size h t =
    let range = take offset view.text in
    let line = scan_lines-line 0 1 none range (omega (arith, h, length-take_le offset view.text)) in
    let column =
      ap (scan_columns tab_size 1) (scan_lines-last_line range)
      ∙ scan_columns_lem tab_size 1 (last_line range) t (last_line-fits view.text offset h) in
    rw (line, column)
