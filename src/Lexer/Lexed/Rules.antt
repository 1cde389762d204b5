-- ===== src/Lexer/Lexed/Rules.antt =====
-- The rules of `Reading` with their arguments taken from the state of the handler.
use cero.Common.{
  ℕ, ◌≤◌, ◌<◌, ◌≡◌, refl, subst, sym, some, [], ◌∷◌, ◌++◌, append-nil, append_assoc, length-append,
  arith, Bytes, length,
}
use cero.Lexer.Reading.{Open, Lexed, Closed}
use cero.Lexer.Reading.Moves.{
  Open-advance, further→shorter, start_rule, match_rule, put_fixed, put_word, length_from_lem,
}
use cero.Lexer.State.{Lexer, advance, put, put_sized, length_from, if_match, get_offset_and_advance}
use cero.Source.{source_size_max}
use cero.Token.{TokenKind, fixed_text}

module _ (source : Bytes) (fits : length source ≤ source_size_max) where
  -- Both branches of a match close the token.
  pub branch :
      (b : ℕ) (matched failed : Lexer → Lexer) {start : ℕ} {w : Bytes} {s : Lexer}
      → Open source start w s
      → (Open source start (w ++ b ∷ []) (advance s) → Closed source start (matched (advance s)))
      → Closed source start (failed s)
      → Closed source start (if_match b matched failed s)
  branch b matched failed {start} {w} {s} =
      match_rule source fits start (Closed source start) w b matched failed s

  -- All that was read is the text of a token of fixed length.
  pub fixed :
      (kind : TokenKind) {start : ℕ} {w : Bytes} {s : Lexer}
      → 0 < length w
      → fixed_text kind ≡ some w
      → Open source start w s
      → Closed source start (put kind start s)
  fixed kind {start} {w} {s} p e o =
      put_fixed source fits start w [] kind s
        (subst (λ v. Open source start v s) (sym (append-nil w)) o) p e

  -- All that was read is the text of a token of variable length.
  pub word_put :
      {start : ℕ} {w : Bytes} (kind : TokenKind) {s : Lexer}
      → 0 < length w
      → Open source start w s
      → Closed source start (put_sized kind start (length_from start s) s)
  word_put {start} {w} kind {s} p o = rw (length_from_lem source fits start s w o) (
      put_word source fits start w [] kind s
        (subst (λ v. Open source start v s) (sym (append-nil w)) o) p)

  pub begin :
      (continue : ℕ → Lexer → Lexer) {b : ℕ} {r : Bytes} {s : Lexer}
      → Lexed source s
      → s.cursor.rest ≡ b ∷ r
      → (Open source s.cursor.position (b ∷ []) (advance s)
          → Closed source s.cursor.position (continue s.cursor.position (advance s)))
      → Closed source s.cursor.position (get_offset_and_advance continue s)
  begin continue {b} {r} {s} h q k =
      start_rule source fits s.cursor.position (Closed source s.cursor.position) b r continue s h
        refl q k

  -- More bytes have been read behind `w`.
  pub record ReadOn (start : ℕ) (w : Bytes) (s : Lexer) : Type 0 where
    pub bytes : Bytes
    pub read : Open source start (w ++ bytes) s

  module _ {start : ℕ} {w : Bytes} where
    pub ReadOn-none : {s : Lexer} → Open source start w s → ReadOn start w s
    ReadOn-none {s} o = record {
      bytes = [];
      read = subst (λ x. Open source start x s) (sym (append-nil w)) o;
    }

    unfoldable pub ReadOn-more :
        {s t : Lexer} (v : Bytes) (h : ReadOn start w s)
        → Open source start ((w ++ h.bytes) ++ v) t
        → ReadOn start w t
    ReadOn-more {s} {t} v h o = record {
      bytes = h.bytes ++ v;
      read = subst (λ x. Open source start x t) (append_assoc w h.bytes v) o;
    }

    pub ReadOn-shorter :
        {s t : Lexer} (v : Bytes) (h : ReadOn start w s)
        → 0 < length v
        → Open source start ((w ++ h.bytes) ++ v) t
        → length t.cursor.rest < length s.cursor.rest
    ReadOn-shorter {s} {t} v h p o =
        further→shorter source start (w ++ h.bytes) ((w ++ h.bytes) ++ v) s t h.read o
          (omega (arith, length-append (w ++ h.bytes) v))

    pub ReadOn-advance :
        {s : Lexer} (b : ℕ) (r : Bytes) (h : ReadOn start w s)
        → s.cursor.rest ≡ b ∷ r
        → Open source start ((w ++ h.bytes) ++ b ∷ []) (advance s)
    ReadOn-advance {s} b r h q = Open-advance source fits start (w ++ h.bytes) s b r h.read q

    -- What `w` and the bytes behind it come to is not empty.
    pub ReadOn-pos : {s : Lexer} (h : ReadOn start w s) → 0 < length w → 0 < length (w ++ h.bytes)
    ReadOn-pos h p = omega (arith, length-append w h.bytes)
