-- ===== src/Lexer/Lexed/Operators.antt =====
-- Punctuation tokens are put where they stand.
use cero.Common.{ℕ, ◌+◌, ◌≤◌, ◌≡◌, refl, arith, some, [], ◌∷◌, Bytes, length}
use cero.Lexer.Lexed.Rules.{branch, fixed, begin}
use cero.Lexer.Operators.{
  on_one_char_token, on_left_angle, on_right_angle, on_colon, on_equals, on_plus, on_minus, on_star,
  on_percent, on_ampersand, on_pipe, on_tilde, on_bang,
}
use cero.Lexer.Reading.{Lexed, Closed, Closed-le}
use cero.Lexer.Reading.Moves.{put_fixed, put_reopen}
use cero.Lexer.State.{Lexer, put}
use cero.Source.{source_size_max}
use cero.Token.{TokenKind, fixed_text, r_angle, make_token, get_text}

module _ (source : Bytes) (fits : length source ≤ source_size_max) {s : Lexer} (r : Bytes) where
  pub on_one_char_token-Closed :
      (kind : TokenKind) (b : ℕ)
      → fixed_text kind ≡ some (b ∷ [])
      → Lexed source s
      → s.cursor.rest ≡ b ∷ r
      → Closed source s.cursor.position (on_one_char_token kind s)
  unfolding on_one_char_token
  on_one_char_token-Closed kind b e h q =
      begin source fits _ h q λ o. fixed source fits _ (omega arith) e o

  pub on_left_angle-Closed :
      Lexed source s → s.cursor.rest ≡ b'<' ∷ r → Closed source s.cursor.position (on_left_angle s)
  unfolding on_left_angle fixed_text
  on_left_angle-Closed h q = begin source fits _ h q λ o.
      branch source fits b'<' _ _ o
        (λ o0.
          branch source fits b'=' _ _ o0 (λ o1. fixed source fits _ (omega arith) refl o1)
            (fixed source fits _ (omega arith) refl o0))
        (branch source fits b'=' _ _ o (λ o0. fixed source fits _ (omega arith) refl o0)
          (fixed source fits _ (omega arith) refl o))

  pub on_colon-Closed :
      Lexed source s → s.cursor.rest ≡ b':' ∷ r → Closed source s.cursor.position (on_colon s)
  unfolding on_colon fixed_text
  on_colon-Closed h q = begin source fits _ h q λ o.
      branch source fits b':' _ _ o (λ o0. fixed source fits _ (omega arith) refl o0)
        (fixed source fits _ (omega arith) refl o)

  pub on_equals-Closed :
      Lexed source s → s.cursor.rest ≡ b'=' ∷ r → Closed source s.cursor.position (on_equals s)
  unfolding on_equals fixed_text
  on_equals-Closed h q = begin source fits _ h q λ o.
      branch source fits b'=' _ _ o (λ o0. fixed source fits _ (omega arith) refl o0)
        (branch source fits b'>' _ _ o (λ o0. fixed source fits _ (omega arith) refl o0)
          (fixed source fits _ (omega arith) refl o))

  pub on_plus-Closed :
      Lexed source s → s.cursor.rest ≡ b'+' ∷ r → Closed source s.cursor.position (on_plus s)
  unfolding on_plus fixed_text
  on_plus-Closed h q = begin source fits _ h q λ o.
      branch source fits b'+' _ _ o (λ o0. fixed source fits _ (omega arith) refl o0)
        (branch source fits b'=' _ _ o (λ o0. fixed source fits _ (omega arith) refl o0)
          (fixed source fits _ (omega arith) refl o))

  pub on_minus-Closed :
      Lexed source s → s.cursor.rest ≡ b'-' ∷ r → Closed source s.cursor.position (on_minus s)
  unfolding on_minus fixed_text
  on_minus-Closed h q = begin source fits _ h q λ o.
      branch source fits b'>' _ _ o (λ o0. fixed source fits _ (omega arith) refl o0)
        (branch source fits b'-' _ _ o (λ o0. fixed source fits _ (omega arith) refl o0)
          (branch source fits b'=' _ _ o (λ o0. fixed source fits _ (omega arith) refl o0)
            (fixed source fits _ (omega arith) refl o)))

  pub on_star-Closed :
      Lexed source s → s.cursor.rest ≡ b'*' ∷ r → Closed source s.cursor.position (on_star s)
  unfolding on_star fixed_text
  on_star-Closed h q = begin source fits _ h q λ o.
      branch source fits b'=' _ _ o (λ o0. fixed source fits _ (omega arith) refl o0)
        (fixed source fits _ (omega arith) refl o)

  pub on_percent-Closed :
      Lexed source s → s.cursor.rest ≡ b'%' ∷ r → Closed source s.cursor.position (on_percent s)
  unfolding on_percent fixed_text
  on_percent-Closed h q = begin source fits _ h q λ o.
      branch source fits b'=' _ _ o (λ o0. fixed source fits _ (omega arith) refl o0)
        (fixed source fits _ (omega arith) refl o)

  pub on_ampersand-Closed :
      Lexed source s → s.cursor.rest ≡ b'&' ∷ r → Closed source s.cursor.position (on_ampersand s)
  unfolding on_ampersand fixed_text
  on_ampersand-Closed h q = begin source fits _ h q λ o.
      branch source fits b'&' _ _ o
        (λ o0.
          branch source fits b'=' _ _ o0 (λ o1. fixed source fits _ (omega arith) refl o1)
            (fixed source fits _ (omega arith) refl o0))
        (branch source fits b'=' _ _ o (λ o0. fixed source fits _ (omega arith) refl o0)
          (fixed source fits _ (omega arith) refl o))

  pub on_pipe-Closed :
      Lexed source s → s.cursor.rest ≡ b'|' ∷ r → Closed source s.cursor.position (on_pipe s)
  unfolding on_pipe fixed_text
  on_pipe-Closed h q = begin source fits _ h q λ o.
      branch source fits b'|' _ _ o
        (λ o0.
          branch source fits b'=' _ _ o0 (λ o1. fixed source fits _ (omega arith) refl o1)
            (fixed source fits _ (omega arith) refl o0))
        (branch source fits b'=' _ _ o (λ o0. fixed source fits _ (omega arith) refl o0)
          (fixed source fits _ (omega arith) refl o))

  pub on_tilde-Closed :
      Lexed source s → s.cursor.rest ≡ b'~' ∷ r → Closed source s.cursor.position (on_tilde s)
  unfolding on_tilde fixed_text
  on_tilde-Closed h q = begin source fits _ h q λ o.
      branch source fits b'=' _ _ o (λ o0. fixed source fits _ (omega arith) refl o0)
        (fixed source fits _ (omega arith) refl o)

  pub on_bang-Closed :
      Lexed source s → s.cursor.rest ≡ b'!' ∷ r → Closed source s.cursor.position (on_bang s)
  unfolding on_bang fixed_text
  on_bang-Closed h q = begin source fits _ h q λ o.
      branch source fits b'=' _ _ o (λ o0. fixed source fits _ (omega arith) refl o0)
        (fixed source fits _ (omega arith) refl o)

  pub on_right_angle-Closed :
      Lexed source s → s.cursor.rest ≡ b'>' ∷ r → Closed source s.cursor.position (on_right_angle s)
  unfolding on_right_angle put fixed_text make_token get_text
  on_right_angle-Closed h q = begin source fits _ h q λ o.
      branch source fits b'>' _ _ o
        (λ o0.
          branch source fits b'=' _ _ o0 (λ o1. fixed source fits _ (omega arith) refl o1)
            (Closed-le source (omega arith) (
              put_fixed source fits (s.cursor.position + 1) (b'>' ∷ []) [] r_angle _
                (put_reopen source fits s.cursor.position (b'>' ∷ []) [] (b'>' ∷ []) r_angle 0 _ o0
                  (omega arith) refl)
                (omega arith) refl)))
        (branch source fits b'=' _ _ o (λ o0. fixed source fits _ (omega arith) refl o0)
          (fixed source fits _ (omega arith) refl o))
