-- ===== src/Lexer/Sound.antt =====
-- What `run_lexer` promises of its tokens and its reports (cero/syntax/lexer.cc).
use cero.Common.{
  ℕ, ◌%◌, ◌^◌, ◌≤◌, ◌<◌, ◌≡◌, refl, sym, subst, arith, false, List, [], ◌∷◌, ◌++◌, Bytes, length,
  drop, All, All-append, leb, leb_of_le, leb→le, if_rule,
}
use cero.Common.Loop.{Runs}
use cero.Lexer.Lexed.Keywords.{IsByte}
use cero.Lexer.Lexed.Rounds.{handle_characters-Lexed, handle_characters-Runs}
use cero.Lexer.Reading.{Lexed}
use cero.Lexer.Run.{
  source_round, handle_characters, report_null, handle_source, report_too_large, run, initial,
  run_lexer,
}
use cero.Lexer.State.{Lexer, Settings, peek, offset, put, put_sized, report}
use cero.Lexer.Tiles.{Tiled, IsValidReport}
use cero.Report.{number, source_file_too_large, valid_for_message}
use cero.Source.Cursor
use cero.Source.Cursor.{is_valid, make_cursor}
use cero.Source.{SourceView, source_size_max}
use cero.Token.{Token, make_token, end_of_file}

initial-Lexed : (source : SourceView) → Lexed source.text (initial source)
unfolding initial make_cursor
initial-Lexed source = record {
  reading = record { split = refl; here = omega arith; inside = omega arith };
  tiled = omega arith;
  valid = tt;
}

report_null_rule :
    (settings : Settings) (P : Lexer → Type 0) (s : Lexer)
    → P s
    → ((t : Lexer) → t.cursor ≡ s.cursor → t.tokens ≡ s.tokens → All IsValidReport t.reports → P t)
    → All IsValidReport s.reports
    → P (report_null settings s)
unfolding report_null report valid_for_message
report_null_rule settings P s h k v =
    if_rule P (is_valid s.cursor)
      (λ _. k _ refl refl (All-append IsValidReport s.reports _ v (refl, tt))) (λ _. h)

-- The tokens before the last one lie one behind the other before `stop`, and the last is the end
-- of file at `stop`, where the text ends or a null byte stands.
pub record Tokenized (source : Bytes) (tokens : List Token) : Type 0 where
  pub before : List Token
  pub stop : ℕ
  pub tokens_are : tokens ≡ before ++ (make_token end_of_file stop 0 ∷ [])
  pub tiled : Tiled source 0 before stop
  pub inside : stop ≤ length source
  pub stopped : Cursor.first_or_null (drop stop source) ≡ 0

put_end-Tokenized :
    (source : Bytes) (s : Lexer)
    → length source ≤ source_size_max
    → Lexed source s
    → peek s ≡ 0
    → Tokenized source (put end_of_file (offset s) s).tokens
unfolding put put_sized offset Cursor.offset peek Cursor.peek
put_end-Tokenized source s fits h z =
    let same : s.cursor.position % 2 ^ 32 ≡ s.cursor.position = omega (arith, h.reading.inside) in
    record {
      before = s.tokens;
      stop = s.cursor.position;
      tokens_are = rw same;
      tiled = h.tiled;
      inside = omega (arith, h.reading.inside);
      stopped = rw h.reading.split z;
    }

module _ (settings : Settings) where
  source_tokens :
      length settings.source.text ≤ source_size_max
      → All IsByte settings.source.text
      → let t = handle_source settings (initial settings.source) in
        Tokenized settings.source.text (put end_of_file (offset t) t).tokens
  unfolding handle_source put put_sized offset
  source_tokens fits bytes =
      let s = handle_characters settings (initial settings.source) in
      let (h, z) =
        handle_characters-Lexed settings fits bytes (initial settings.source)
          (initial-Lexed settings.source) in
      let done = put_end-Tokenized settings.source.text s fits h z in
      report_null_rule settings
        (λ t.
          Tokenized settings.source.text
            (t.tokens ++ (make_token end_of_file (Cursor.offset t.cursor) 0 ∷ [])))
        s done
        (λ t c k v.
          subst
            (λ x.
              Tokenized settings.source.text
                (x ++ (make_token end_of_file (Cursor.offset t.cursor) 0 ∷ [])))
            (sym k)
            (subst
              (λ x.
                Tokenized settings.source.text
                  (s.tokens ++ (make_token end_of_file (Cursor.offset x) 0 ∷ [])))
              (sym c) done))
        h.valid

pub run_lexer_lem :
    (settings : Settings) → run_lexer settings ≡ run settings (initial settings.source)
unfolding run_lexer
run_lexer_lem settings = refl

leb_of_lt : (a b : ℕ) → b < a → leb a b ≡ false
leb_of_lt a b h = ground arith

-- The lexer's tokens, for a text of bytes that is not too large: the last is the end of file,
-- where the text ends or a null byte stands; each of the others has a text of its own, its
-- keyword, punctuation or the bytes of its length, which stands in the source at the token's
-- offset; and they stand one behind the other.
pub run_lexer-Tokenized :
    (settings : Settings)
    → length settings.source.text ≤ source_size_max
    → All IsByte settings.source.text
    → Tokenized settings.source.text (run_lexer settings).tokens
unfolding run
run_lexer-Tokenized settings fits bytes =
    rw (run_lexer_lem settings, leb_of_le (length settings.source.text) source_size_max fits)
      (source_tokens settings fits bytes)

-- The main loop ends by its own exit, at the state that `handle_characters` gives: its fuel is
-- never what stops it. The text is one of bytes and not too large.
pub handle_characters_terminates :
    (settings : Settings)
    → length settings.source.text ≤ source_size_max
    → All IsByte settings.source.text
    → Runs
        (source_round settings)
        (initial settings.source)
        (handle_characters settings (initial settings.source))
handle_characters_terminates settings fits bytes =
    handle_characters-Runs settings fits bytes (initial settings.source)
      (initial-Lexed settings.source)

source_reports :
    (settings : Settings)
    → length settings.source.text ≤ source_size_max
    → All IsByte settings.source.text
    → All IsValidReport (handle_source settings (initial settings.source)).reports
unfolding handle_source
source_reports settings fits bytes =
    let (h, z) =
      handle_characters-Lexed settings fits bytes (initial settings.source)
        (initial-Lexed settings.source) in
    report_null_rule settings (λ t. All IsValidReport t.reports)
      (handle_characters settings (initial settings.source)) h.valid (λ t c k v. v) h.valid

-- Every report of the lexer has as many arguments as its message has places, whatever bytes the
-- text holds and however large it is, so the assertion of `Reporter::report` holds.
pub run_lexer-IsValidReport :
    (settings : Settings)
    → All IsByte settings.source.text
    → All IsValidReport (run_lexer settings).reports
unfolding run put put_sized report_too_large initial valid_for_message
run_lexer-IsValidReport settings bytes = rw (run_lexer_lem settings) (
    if_rule (λ (t : Lexer). All IsValidReport t.reports)
      (leb (length settings.source.text) source_size_max)
      (λ e. source_reports settings (leb→le (length settings.source.text) source_size_max e) bytes)
      (λ _. (refl, tt)))

-- A source above the limit gives one report, at line 0 and column 0 and with the limit as its
-- argument, and no token but an end of file at offset 0.
pub run_lexer_too_large :
    (settings : Settings)
    → source_size_max < length settings.source.text
    → ((run_lexer settings).tokens ≡ make_token end_of_file 0 0 ∷ [])
      × ((run_lexer settings).reports
          ≡ record {
            location = record { path = settings.source.path; line = 0; column = 0 };
            message = source_file_too_large;
            args = number source_size_max ∷ [];
          }
            ∷ [])
unfolding run put put_sized report_too_large initial make_cursor offset Cursor.offset
run_lexer_too_large settings large =
    rw (run_lexer_lem settings, leb_of_lt (length settings.source.text) source_size_max large)
      (refl, refl)
