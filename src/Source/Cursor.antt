-- ===== src/Source/Cursor.antt =====
-- The cursor over the source text: cero/syntax/source_cursor.hh. The iterator is the text from
-- it to the end, with its distance from the beginning.
use cero.Common.{ℕ, ◌+◌, ◌%◌, ◌^◌, Bool, true, false, ◌≡◌, refl, [], ◌∷◌, Bytes, ◌==◌}

pub record SourceCursor : Type 0 where
  pub rest : Bytes
  pub position : ℕ

unfoldable pub make_cursor : Bytes → SourceCursor
make_cursor text = record { rest = text; position = 0 }

-- The byte that `peek` and `next` give at a position: null at the end.
unfoldable pub first_or_null : Bytes → ℕ
first_or_null [] = 0
first_or_null (c ∷ _) = c

unfoldable pub peek : SourceCursor → ℕ
unfolding first_or_null
peek cursor = first_or_null cursor.rest

-- Past the end nothing moves: the debug assertion of `advance` is off in a release build.
unfoldable pub advance_from : Bytes → SourceCursor → SourceCursor
advance_from [] cursor = cursor
advance_from (_ ∷ rest) cursor = record { rest = rest; position = cursor.position + 1 }

unfoldable pub advance : SourceCursor → SourceCursor
unfolding advance_from
advance cursor = advance_from cursor.rest cursor

unfoldable pub next : SourceCursor → ℕ × SourceCursor
unfolding peek advance
next cursor = (peek cursor, advance cursor)

unfoldable pub is_match : ℕ → Bytes → Bool
is_match expected [] = false
is_match expected (c ∷ _) = c == expected

unfoldable pub is_not_empty : Bytes → Bool
is_not_empty [] = false
is_not_empty (_ ∷ _) = true

-- `valid()`: the iterator is not at the end.
unfoldable pub is_valid : SourceCursor → Bool
unfolding is_not_empty
is_valid cursor = is_not_empty cursor.rest

pub valid→rest : (rest : Bytes) → is_not_empty rest ≡ true → (b : ℕ) × (r : Bytes) × (rest ≡ b ∷ r)
unfolding is_not_empty
valid→rest [] h = cc
valid→rest (b ∷ r) h = (b, r, refl)

-- `offset()` converts the distance to 32 bits.
unfoldable pub offset : SourceCursor → ℕ
offset cursor = cursor.position % 2 ^ 32
