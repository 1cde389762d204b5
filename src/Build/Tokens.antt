-- ===== src/Build/Tokens.antt =====
-- What the lexer hands to the parser in a build (cero/compile/build.cc).
use cero.Common.{
  ℕ, ◌+◌, ◌≤◌, ◌<◌, some, List, [], ◌∷◌, ◌++◌, All, All-imp, All-append, Bytes, length, leb,
  Bool-cases, leb→le, inl, inr, ◌≡◌, refl, codes, arith, false, true, if◌then◌else◌,
}
use cero.Ast.{AstRoot}
use cero.Lexer.Comments.{no_flags}
use cero.Lexer.Lexed.Keywords.{IsByte}
use cero.Lexer.Run.{run_lexer}
use cero.Lexer.Run as Run
use cero.Lexer.Sound.{Tokenized, run_lexer-Tokenized, run_lexer_too_large, run_lexer_lem}
use cero.Lexer.State as LexerState
use cero.Lexer.State.{put, put_sized}
use cero.Lexer.Tiles.{Tiled}
use cero.Parser.Definitions.{run_parser}
use cero.Parser.Progress.{EndsInEof}
use cero.Parser.Returns.{Parsed, run_parser_returns}
use cero.Parser.State.{Parser, Settings, ok}
use cero.Parser.Within.{TokenWithin}
use cero.Report.{MessageArg}
use cero.Source.{SourceView, source_size_max}
use cero.Token.{Token, kind_eq, end_of_file, make_token, get_text, fixed_text}

-- The array has tokens, the last of them an end of file.
abbrev Ends : List Token → Type 0
Ends [] = ⊥
Ends (t ∷ ts) = EndsInEof t ts

EndsInEof-append :
    (t e : Token) (ts : List Token)
    → kind_eq e.kind end_of_file ≡ true
    → EndsInEof t (ts ++ (e ∷ []))
EndsInEof-append t e [] h = h
EndsInEof-append t e (u ∷ us) h = EndsInEof-append u e us h

Ends-append :
    (ts : List Token) (e : Token) → kind_eq e.kind end_of_file ≡ true → Ends (ts ++ (e ∷ []))
Ends-append [] e h = h
Ends-append (t ∷ ts) e h = EndsInEof-append t e ts h

run_lexer-Ends : (settings : LexerState.Settings) → Ends (run_lexer settings).tokens
unfolding Run.run put put_sized make_token kind_eq
run_lexer-Ends settings = rw (run_lexer_lem settings) (
    let t =
      if leb (length settings.source.text) source_size_max
      then Run.handle_source settings (Run.initial settings.source)
      else Run.report_too_large settings (Run.initial settings.source) in
    Ends-append t.tokens (make_token end_of_file (LexerState.offset t) 0) refl)

-- Of a token of the text, or of one between two offsets.
abbrev Between : Settings → ℕ → Token → Type 0
Between settings last t =
    (t.offset ≤ last) × (w : Bytes) × (get_text t settings.source.text ≡ some w)

end-TokenWithin :
    (settings : Settings) (stop : ℕ)
    → stop ≤ length settings.source.text
    → TokenWithin settings (make_token end_of_file stop 0)
unfolding make_token get_text fixed_text
end-TokenWithin settings stop h = (omega arith, codes "", refl)

Tiled-Between :
    (settings : Settings) (first last : ℕ) (ts : List Token)
    → Tiled settings.source.text first ts last
    → (first ≤ last) × All (Between settings last) ts
Tiled-Between settings first last [] h = (h, tt)
Tiled-Between settings first last (t ∷ ts) (w, l, k, r) =
    let (a, b) = Tiled-Between settings (t.offset + length w) last ts r in
    (omega arith, ((omega arith, w, k.text_is), b))

Tokenized-TokenWithin :
    (settings : Settings) (tokens : List Token)
    → Tokenized settings.source.text tokens
    → All (TokenWithin settings) tokens
Tokenized-TokenWithin settings tokens h =
    let (_, w) = Tiled-Between settings 0 h.stop h.before h.tiled in
    let k = h.inside in
    rw h.tokens_are (
      All-append (TokenWithin settings) h.before _
        (All-imp (Between settings h.stop) (TokenWithin settings) h.before
          (λ t (a, x, e). (omega arith, x, e)) w)
        (end-TokenWithin settings h.stop k, tt))

lt_of_leb : (a b : ℕ) → leb a b ≡ false → b < a
lt_of_leb a b h = ground arith

module _ (tab_size : ℕ) (vformat : Bytes → List MessageArg → Bytes) (view : SourceView) where
  abbrev settings_of : Settings
  settings_of = record { source = view; tab_size = tab_size; vformat = vformat }

  abbrev lexer_settings_of : LexerState.Settings
  lexer_settings_of = record { source = view; flags = no_flags; tab_size = tab_size }

  -- The tokens of the lexer begin in the text, or at its end, and have a text of their own, also
  -- for a source above the limit.
  run_lexer-TokenWithin :
      All IsByte view.text → All (TokenWithin settings_of) (run_lexer lexer_settings_of).tokens
  run_lexer-TokenWithin bytes = elim (Bool-cases (leb (length view.text) source_size_max)) [
    | inl e ↦
        Tokenized-TokenWithin settings_of (run_lexer lexer_settings_of).tokens (
          run_lexer-Tokenized lexer_settings_of (leb→le (length view.text) source_size_max e) bytes)
    | inr e ↦
        let (tokens_are, _) =
          run_lexer_too_large lexer_settings_of (lt_of_leb (length view.text) source_size_max e) in
        rw tokens_are (end-TokenWithin settings_of 0 (omega arith), tt)
  ]

  tokens_returns :
      (tokens : List Token)
      → Ends tokens
      → All (TokenWithin settings_of) tokens
      → (root : AstRoot) × (p : Parser) × (run_parser settings_of tokens ≡ some (ok root p))
        × Parsed settings_of root p
  tokens_returns [] e h = absurd e
  tokens_returns (t ∷ ts) e h = run_parser_returns settings_of t ts e h

  -- The parser returns on what the lexer makes of any bytes.
  pub source-Parsed :
      All IsByte view.text
      → (root : AstRoot) × (p : Parser) × (run_parser settings_of
            (run_lexer lexer_settings_of).tokens
          ≡ some (ok root p))
        × Parsed settings_of root p
  source-Parsed bytes =
      tokens_returns (run_lexer lexer_settings_of).tokens (run_lexer-Ends lexer_settings_of)
        (run_lexer-TokenWithin bytes)
