-- ===== src/Lexer/Tiles.antt =====
-- What the tokens that the lexer puts are, as places in the source text.
use cero.Common.{ℕ, ◌+◌, ◌≤◌, ◌<◌, ◌≡◌, true, some, List, [], ◌∷◌, ◌++◌, Bytes, length, drop}
use cero.Report.{Report, valid_for_message}
use cero.Token.{Token, get_text}

-- The bytes `w` stand in the text at an offset.
abbrev pub Stands : Bytes → ℕ → Bytes → Type 0
Stands source offset w = drop offset source ≡ w ++ drop (offset + length w) source

-- `w` is not empty, is the token's own text, and stands in the source at the token's offset.
pub record IsToken (source : Bytes) (t : Token) (w : Bytes) : Type 0 where
  pub text_is : get_text t source ≡ some w
  pub nonempty : 0 < length w
  pub stands : Stands source t.offset w

-- The tokens stand in the source one behind the other, between two offsets.
abbrev pub Tiled : Bytes → ℕ → List Token → ℕ → Type 0
Tiled source first [] last = first ≤ last
Tiled source first (t ∷ ts) last =
    (w : Bytes) × (first ≤ t.offset)
    × IsToken source t w
    × Tiled source (t.offset + length w) ts last

-- The report has as many arguments as its message has places.
abbrev pub IsValidReport : Report → Type 0
IsValidReport r = valid_for_message r.args r.message ≡ true
