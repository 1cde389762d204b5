-- ===== src/Unicode/Range.antt =====
-- Ranges of scalar values, their order relative to a scalar and the search of a sorted table
-- (cero/syntax/unicode.cc).
use cero.Common.{ℕ, Bool, true, false, List, [], ◌∷◌, ltb, not, if◌then◌else◌}

pub data UnicodeScalarRange : Type 0 where
  range : ℕ → ℕ → UnicodeScalarRange

pub data StrongOrdering : Type 0 where
  less equal greater : StrongOrdering

-- `operator<=>(range, unicode_scalar)`.
unfoldable pub compare_range : UnicodeScalarRange → ℕ → StrongOrdering
compare_range (range first last) scalar =
    if ltb scalar first then greater else if ltb last scalar then less else equal

unfoldable pub is_less : StrongOrdering → Bool
is_less less = true
is_less _ = false

unfoldable pub is_greater : StrongOrdering → Bool
is_greater greater = true
is_greater _ = false

-- `std::binary_search`: it finds the first element that is not less than the value, and tests
-- that the value is not less than it.
unfoldable pub binary_search : List UnicodeScalarRange → ℕ → Bool
unfolding compare_range is_less is_greater
binary_search [] scalar = false
binary_search (r ∷ rs) scalar =
    if is_less (compare_range r scalar)
    then binary_search rs scalar
    else not (is_greater (compare_range r scalar))
