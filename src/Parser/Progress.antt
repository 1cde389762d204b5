-- ===== src/Parser/Progress.antt =====
-- How far the methods of the parser get (cero/syntax/parser.cc): the tokens that are left to them,
-- and that none leaves an array which ends in an end of file.
use cero.Common.{
  Option-cases, ℕ, suc, ◌≤◌, ◌<◌, Bool, true, false, ◌||◌, some, List, [], ◌∷◌, length, ◌≡◌, refl,
  sym, ◌∙◌, arith, ltb, if_rule, Bool-cases, ◌⊎◌, inl, inr,
}
use cero.Parser.Rules.{
  HeadParseFunction, TailParseFunction, lookup_head_parse_fn, lookup_tail_rule,
  lookup_tail_parse_rule, get_next_tail_parse_fn, Precedence, level,
}
use cero.Parser.State.{
  Parser, Settings, Outcome, ok, thrown, aborted, out_of_fuel, M, bind, advance, next, match_kind,
  match_token_kind, report_expected, fail_expected, expect, expect_matched,
}
use cero.Report.{Message}
use cero.Token.Cursor
use cero.Token.Cursor.{TokenCursor, peek_ahead}
use cero.Token.{get_text, TokenKind, Token, kind_eq, to_underlying, end_of_file, semicolon, r_brace}
use cero.Parser.Expressions.{skip_statement, unless_matched}

-- The last token of the array is an end of file.
abbrev pub EndsInEof : Token → List Token → Type 0
EndsInEof t [] = kind_eq t.kind end_of_file ≡ true
EndsInEof t (u ∷ us) = EndsInEof u us

abbrev pub IsSafe : TokenCursor → Type 0
IsSafe c = EndsInEof c.current c.after

abbrev pub remaining : Parser → ℕ
remaining p = length p.cursor.after

-- The fuel of the method has not ended; it returns with fewer than `a` tokens
-- left behind the current one, or throws with fewer than `b`.
abbrev pub Done {ℓ} : {A : Type ℓ} → ℕ → ℕ → Outcome A → Type 0
Done a b (ok x p) = IsSafe p.cursor × (remaining p < a)
Done a b (thrown p) = IsSafe p.cursor × (remaining p < b)
Done a b aborted = Unit
Done a b out_of_fuel = ⊥

pub Done-weaken {ℓ} :
    {A : Type ℓ} (a b c d : ℕ) (m : Outcome A) → a ≤ c → b ≤ d → Done a b m → Done c d m
Done-weaken a b c d (ok x p) h k w = (w.0, omega (arith, w.1))
Done-weaken a b c d (thrown p) h k w = (w.0, omega (arith, w.1))
Done-weaken a b c d aborted h k w = tt
Done-weaken a b c d out_of_fuel h k w = w

pub Done-bind {ℓ κ} :
    {A : Type ℓ} {B : Type κ} (a b c d : ℕ) (m : Outcome A) (f : A → M B)
    → Done a b m
    → b ≤ d
    → ((x : A) (q : Parser) → IsSafe q.cursor → remaining q < a → Done c d (f x q))
    → Done c d (bind m f)
Done-bind a b c d (ok x p) f w h k = k x p w.0 w.1
Done-bind a b c d (thrown p) f w h k = (w.0, omega (arith, w.1))
Done-bind a b c d aborted f w h k = tt
Done-bind a b c d out_of_fuel f w h k = absurd w

step_to-progress :
    (t : Token) (after : List Token) (c : TokenCursor)
    → EndsInEof t after
    → kind_eq t.kind end_of_file ≡ false
    → IsSafe (Cursor.step_to after c) × (length (Cursor.step_to after c).after < length after)
unfolding Cursor.step_to
step_to-progress t [] c s e = let k : true ≡ false = sym s ∙ e in cc
step_to-progress t (u ∷ us) c s e = (s, omega arith)

-- A token is consumed, if the current one is not the end of file.
pub advance-progress :
    (c : TokenCursor)
    → IsSafe c
    → kind_eq c.current.kind end_of_file ≡ false
    → IsSafe (Cursor.advance c) × (length (Cursor.advance c).after < length c.after)
unfolding Cursor.advance
advance-progress c s e = rw (e, Cursor.advance) (step_to-progress c.current c.after c s e)

pub advance-IsSafe :
    (c : TokenCursor)
    → IsSafe c
    → IsSafe (Cursor.advance c) × (length (Cursor.advance c).after ≤ length c.after)
unfolding Cursor.advance
advance-IsSafe c s = elim (Bool-cases (kind_eq c.current.kind end_of_file)) [
  | inl e ↦ rw (e, Cursor.advance) (s, omega arith)
  | inr e ↦ let (x, y) = advance-progress c s e in (x, omega arith)
]

-- No expression begins at the end of the file.
pub head_not_eof :
    (kind : TokenKind) (head_fn : HeadParseFunction)
    → lookup_head_parse_fn kind ≡ some head_fn
    → kind_eq kind end_of_file ≡ false
unfolding lookup_head_parse_fn kind_eq
head_not_eof end_of_file head_fn h = cc
head_not_eof _ head_fn h = refl

-- No operator goes on at the end of the file.
tail_not_eof :
    (kind : TokenKind) (token ahead : Token) (tail_fn : TailParseFunction)
    → (lookup_tail_rule kind token ahead).fn ≡ some tail_fn
    → kind_eq kind end_of_file ≡ false
unfolding lookup_tail_rule kind_eq
tail_not_eof end_of_file token ahead tail_fn h = cc
tail_not_eof _ token ahead tail_fn h = refl

pub get_next_tail_parse_fn-not_eof :
    (precedence : Precedence) (c : TokenCursor) (tail_fn : TailParseFunction)
    → get_next_tail_parse_fn precedence c ≡ some tail_fn
    → kind_eq c.current.kind end_of_file ≡ false
unfolding get_next_tail_parse_fn lookup_tail_parse_rule
get_next_tail_parse_fn-not_eof precedence c tail_fn h =
    elim (Bool-cases (
      ltb (level precedence)
        (level (lookup_tail_rule c.current.kind c.current (peek_ahead c)).precedence))) [
          | inl e ↦
              let k = rw e at h in tail_not_eof c.current.kind c.current (peek_ahead c) tail_fn k
          | inr e ↦ let k = rw e at h in cc
        ]

-- The methods that consume a token that they meet.
pub advance-Done :
    (p : Parser)
    → IsSafe p.cursor
    → kind_eq p.cursor.current.kind end_of_file ≡ false
    → Done (remaining p) (remaining p) (advance p)
unfolding advance
advance-Done p s e = advance-progress p.cursor s e

pub next-Done :
    (p : Parser)
    → IsSafe p.cursor
    → kind_eq p.cursor.current.kind end_of_file ≡ false
    → Done (remaining p) (remaining p) (next p)
unfolding next
next-Done p s e = advance-progress p.cursor s e

pub advance_any-Done :
    (p : Parser) (a : ℕ) → IsSafe p.cursor → remaining p < a → Done a a (advance p)
unfolding advance
advance_any-Done p a s h = let (x, y) = advance-IsSafe p.cursor s in (x, omega arith)

pub match_kind-Done :
    (kind : TokenKind) (p : Parser)
    → IsSafe p.cursor
    → Done (suc (remaining p)) (suc (remaining p)) (match_kind kind p)
unfolding match_kind Cursor.match
match_kind-Done kind p s =
    let (x, y) = advance-IsSafe p.cursor s in
    elim (Bool-cases (kind_eq p.cursor.current.kind kind)) [
      | inl e ↦ rw (e, Cursor.match) (x, omega arith)
      | inr e ↦ rw (e, Cursor.match) (s, omega arith)
    ]

pub match_token_kind-Done :
    (kind : TokenKind) (p : Parser)
    → IsSafe p.cursor
    → Done (suc (remaining p)) (suc (remaining p)) (match_token_kind kind p)
unfolding match_token_kind Cursor.match_token
match_token_kind-Done kind p s =
    let (x, y) = advance-IsSafe p.cursor s in
    elim (Bool-cases (kind_eq p.cursor.current.kind kind)) [
      | inl e ↦ rw (e, Cursor.match_token) (x, omega arith)
      | inr e ↦ rw (e, Cursor.match_token) (s, omega arith)
    ]

pub report_expected-Done :
    (settings : Settings) (message : Message) (p : Parser) (n : ℕ)
    → IsSafe p.cursor
    → remaining p < n
    → Done n n (report_expected settings message p)
unfolding report_expected
report_expected-Done settings message p n s h =
    elim (Option-cases (get_text p.cursor.current settings.source.text)) [
      | inl e ↦ rw (e, report_expected) tt
      | inr (w, e) ↦ rw (e, report_expected) (s, h)
    ]

pub fail_expected-Done {ℓ} :
    (A : Type ℓ) (settings : Settings) (message : Message) (p : Parser) (a : ℕ)
    → IsSafe p.cursor
    → Done a (suc (remaining p)) (fail_expected {A = A} settings message p)
unfolding fail_expected
fail_expected-Done A settings message p a s =
    Done-bind (suc (remaining p)) (suc (remaining p)) a (suc (remaining p))
      (report_expected settings message p) (λ _ q. thrown q)
      (report_expected-Done settings message p (suc (remaining p)) s (omega arith)) (omega arith)
      λ _ q t l. (t, l)

pub expect_matched-Done :
    (settings : Settings) (message : Message) (n : ℕ) (matched : Bool) (p : Parser)
    → IsSafe p.cursor
    → remaining p < n
    → Done n n (expect_matched settings message matched p)
unfolding expect_matched
expect_matched-Done settings message n true p s h = (s, h)
expect_matched-Done settings message n false p s h =
    Done-weaken n (suc (remaining p)) n n (fail_expected settings message p) (omega arith)
      (omega arith) (fail_expected-Done {0} (Unit {0}) settings message p n s)

pub expect-Done :
    (settings : Settings) (kind : TokenKind) (message : Message) (p : Parser)
    → IsSafe p.cursor
    → Done (suc (remaining p)) (suc (remaining p)) (expect settings kind message p)
unfolding expect
expect-Done settings kind message p s =
    Done-bind (suc (remaining p)) (suc (remaining p)) (suc (remaining p)) (suc (remaining p))
      (match_kind kind p) (expect_matched settings message) (match_kind-Done kind p s) (omega arith)
      (expect_matched-Done settings message (suc (remaining p)))

-- A method that got on, followed by another.
pub Done-after {ℓ κ} :
    {A : Type ℓ} {B : Type κ} (n : ℕ) (m : Outcome A) (f : A → M B)
    → Done n (suc n) m
    → ((x : A) (q : Parser) → IsSafe q.cursor → remaining q < n → Done n (suc n) (f x q))
    → Done n (suc n) (bind m f)
Done-after n m f w k = Done-bind n (suc n) n (suc n) m f w (omega arith) k

-- A method behind others that got on.
pub Done-later {ℓ} :
    {A : Type ℓ} (n : ℕ) (q : Parser) (m : Outcome A)
    → remaining q < n
    → Done (suc (remaining q)) (suc (remaining q)) m
    → Done n (suc n) m
Done-later n q m l w =
    Done-weaken (suc (remaining q)) (suc (remaining q)) n (suc n) m (omega arith) (omega arith) w

-- `unless_matched` by what the current token is.
pub unless_matched_rule {κ} :
    {A : Type 0} (P : Outcome A → Type κ) (kind : TokenKind) (a : A) (m : M A) (p : Parser)
    → (kind_eq p.cursor.current.kind kind ≡ true
        → P (ok a (record p { cursor = Cursor.advance p.cursor })))
    → (kind_eq p.cursor.current.kind kind ≡ false → P (m p))
    → P (unless_matched kind a m p)
unfolding unless_matched match_kind Cursor.match
unless_matched_rule P kind a m p h k = elim (Bool-cases (kind_eq p.cursor.current.kind kind)) [
  | inl e ↦ rw (e, Cursor.match) (h e)
  | inr e ↦ rw (e, Cursor.match) (k e)
]

eof_other :
    (kind : TokenKind)
    → kind_eq kind end_of_file ≡ true
    → (kind_eq kind semicolon || kind_eq kind r_brace) ≡ false
unfolding kind_eq to_underlying
eof_other kind h = ground arith

-- Where a recovery ends that began with `n` tokens behind the current one: at the end of the
-- file, with a token consumed, or at a closing brace.
abbrev pub Recovered : ℕ → Bool × TokenCursor → Type 0
Recovered n (at_end, c) =
    IsSafe c
    × (length c.after ≤ n)
    × ((at_end ≡ true) ⊎ (length c.after < n) ⊎ (kind_eq c.current.kind r_brace ≡ true))

pub skip_statement-Recovered :
    (t : Token) (after : List Token)
    → EndsInEof t after
    → Recovered (length after) (skip_statement t after)
unfolding skip_statement
skip_statement-Recovered t [] s = rw (eof_other t.kind s) (s, omega arith, inl refl)
skip_statement-Recovered t (u ∷ us) s =
    let (a, b, c) = skip_statement-Recovered u us s in
    let n = suc (length us) in
    if_rule (Recovered n) (kind_eq t.kind end_of_file) (λ _. (s, omega arith, inl refl))
      λ _.
        if_rule (Recovered n) (kind_eq t.kind semicolon)
          (λ _. (s, omega arith, inr (inl (omega arith))))
          λ _.
            if_rule (Recovered n) (kind_eq t.kind r_brace) (λ e. (s, omega arith, inr (inr e)))
              λ _. (a, omega arith, inr (inl (omega arith)))
