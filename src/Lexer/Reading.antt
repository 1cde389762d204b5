-- ===== src/Lexer/Reading.antt =====
-- The state of a handler: the bytes that it has read, and what it may put for them.
pub mod Moves
use cero.Common.{
  ℕ, ◌+◌, ◌%◌, ◌^◌, ◌≤◌, ◌<◌, ◌≡◌, refl, sym, ◌∙◌, ap, subst, arith, true, false, some, List, [],
  ◌∷◌, ◌++◌, Bytes, length, drop, take, All, All-append, drop_behind, take-length, append_assoc,
  length-append, if_rule, ltb, ◌==◌,
}
use cero.Lexer.State.{
  Lexer, Settings, peek, advance, offset, put, put_sized, get_offset_and_advance, if_match, report,
  length_from, sub_size,
}
use cero.Lexer.Tiles.{Tiled, IsValidReport}
use cero.Report.{Message, MessageArg, valid_for_message}
use cero.Source.Cursor
use cero.Source.Cursor.{SourceCursor, is_match}
use cero.Source.{source_size_max}
use cero.Token.{Token, TokenKind, make_token, get_text, fixed_text}

Tiled-le :
    (source : Bytes) (a b : ℕ) (ts : List Token) (c : ℕ)
    → a ≤ b
    → Tiled source b ts c
    → Tiled source a ts c
Tiled-le source a b [] c h t = omega arith
Tiled-le source a b (t ∷ ts) c h (w, l, k, r) = (w, omega arith, k, r)

pub Tiled-extend :
    (source : Bytes) (a : ℕ) (ts : List Token) (b c : ℕ)
    → Tiled source a ts b
    → b ≤ c
    → Tiled source a ts c
Tiled-extend source a [] b c t h = omega arith
Tiled-extend source a (t ∷ ts) b c (w, l, k, r) h =
    (w, l, k, Tiled-extend source (t.offset + length w) ts b c r h)

pub Tiled-append :
    (source : Bytes) (a : ℕ) (ts : List Token) (b : ℕ) (us : List Token) (c : ℕ)
    → Tiled source a ts b
    → Tiled source b us c
    → Tiled source a (ts ++ us) c
Tiled-append source a [] b us c h k = Tiled-le source a b us c h k
Tiled-append source a (t ∷ ts) b us c (w, l, i, r) k =
    (w, l, i, Tiled-append source (t.offset + length w) ts b us c r k)

-- From the position `start` on, the bytes `w` have been read.
pub record Reading (source : Bytes) (start : ℕ) (w : Bytes) (c : SourceCursor) : Type 0 where
  pub split : drop start source ≡ w ++ c.rest
  pub here : c.position ≡ start + length w
  pub inside : c.position + length c.rest ≡ length source

-- The same of the lexer, which has put only tokens that lie before `start`.
pub record Open (source : Bytes) (start : ℕ) (w : Bytes) (s : Lexer) : Type 0 where
  pub reading : Reading source start w s.cursor
  pub tiled : Tiled source 0 s.tokens start
  pub valid : All IsValidReport s.reports

-- Between two handlers.
pub record Lexed (source : Bytes) (s : Lexer) : Type 0 where
  pub reading : Reading source s.cursor.position [] s.cursor
  pub tiled : Tiled source 0 s.tokens s.cursor.position
  pub valid : All IsValidReport s.reports

-- What a handler makes of a lexer that stood at `start`.
pub record Closed (source : Bytes) (start : ℕ) (s : Lexer) : Type 0 where
  pub lexed : Lexed source s
  pub further : start < s.cursor.position

pub Closed-le :
    (source : Bytes) {a b : ℕ} {s : Lexer} → a ≤ b → Closed source b s → Closed source a s
Closed-le source h c = record { lexed = c.lexed; further = omega (arith, c.further) }

module _ (source : Bytes) (start : ℕ) (w : Bytes) where
  pub Reading-cons :
      (c : SourceCursor) (b : ℕ) (r : Bytes)
      → Reading source start w c
      → c.rest ≡ b ∷ r
      → Reading source start (w ++ b ∷ []) (record { rest = r; position = c.position + 1 })
  Reading-cons c b r h e = record {
    split = h.split ∙ rw e (sym (append_assoc w (b ∷ []) r));
    here = omega (arith, h.here, length-append w (b ∷ []));
    inside = omega (arith, h.inside, ap length e);
  }

  pub Reading-restart :
      (c : SourceCursor) → Reading source start w c → Reading source c.position [] c
  Reading-restart c h = record {
    split = rw h.here (drop_behind start source w c.rest h.split);
    here = omega arith;
    inside = h.inside;
  }

-- The same from a place behind some of the bytes.
pub Reading-behind :
    (source : Bytes) (start : ℕ) (w v : Bytes) (c : SourceCursor)
    → Reading source start (w ++ v) c
    → Reading source (start + length w) v c
Reading-behind source start w v c h = record {
  split = drop_behind start source w (v ++ c.rest) (h.split ∙ append_assoc w v c.rest);
  here = omega (arith, h.here, length-append w v);
  inside = h.inside;
}

is_match→eq : (b : ℕ) (rest : Bytes) → is_match b rest ≡ true → (r : Bytes) × (rest ≡ b ∷ r)
unfolding is_match
is_match→eq b [] h = cc
is_match→eq b (c ∷ r) h = (r, ground arith)
