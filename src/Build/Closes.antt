-- ===== src/Build/Closes.antt =====
-- That the build driver returns, and closes what it opened (cero/compile/build.cc).
use cero.Common.{
  Bool, true, false, All, [], ◌∷◌, ◌==◌, if_rule, ℕ, Option, none, some, List, Bytes, ◌≡◌, refl,
  Option-cases, inl, inr,
}
use cero.Build.Complete.{build_source_returns}
use cero.Build.Driver.{unlock, build_lock_result, build}
use cero.Build.{build_source}
use cero.FileView.Native.{platform}
use cero.FileView.Posix.{posix}
use cero.FileView.Windows.{windows}
use cero.FileView.Platform.{Platform, Opened, Opens}
use cero.FileView.System.{
  Accepts, TakesBack, gives, failed, World, SameResources, SameResources-refl,
}
use cero.Lexer.Lexed.Keywords.{IsByte}
use cero.Report.{Report, MessageArg}
use cero.Source.Lock.{
  Source, LockedView, in_file, in_memory, view_of_file, lock, source_view, unlock_text, text_of,
  c_string,
}

c_string-IsByte : (text : Bytes) → All IsByte text → All IsByte (c_string text)
unfolding c_string
c_string-IsByte [] h = tt
c_string-IsByte (c ∷ cs) h =
    if_rule (All IsByte) (c == 0) (λ _. tt) (λ _. (h.0, c_string-IsByte cs h.1))

module _ (P : Platform) (memory : ℕ → ℕ → Bytes) (tab_size : ℕ)
    (vformat : Bytes → List MessageArg → Bytes) (source : Source) (takes_back : TakesBack P.accepts)
    (memory_bytes : (addr n : ℕ) → All IsByte (memory addr n))
    (text_bytes : (text : Bytes) → source.text ≡ some text → All IsByte text) where
  -- The driver returns its reports, and the process holds what it held.
  Returns : World → Option (List Report × World) → Type 0
  Returns w none = ⊥
  Returns w (some (reports, v)) = SameResources v w

  failed-Returns :
      (w v : World) (error : _)
      → SameResources v w
      → Returns w (
          unlock P memory tab_size vformat source
            (some v)
            (build_source tab_size vformat source.path (failed error)))
  unfolding unlock build_source Returns
  failed-Returns w v error h = h

  gives-Returns :
      (w v : World) (view : LockedView P)
      → All IsByte (source_view P memory view).text
      → (u : World) × (unlock_text P view.locked_text v ≡ some u) × SameResources u w
      → Returns w (build_lock_result P memory tab_size vformat source (some (gives view, v)))
  unfolding unlock build_lock_result Returns
  gives-Returns w v view bytes (u, e, s) =
      let (_, _, _, k) =
        build_source_returns tab_size vformat source.path (source_view P memory view) bytes in
      rw (e, k) s

  opened-Returns :
      (w : World) (o : Opened P.View)
      → Opens P.owned w o
      → Returns w
          (build_lock_result P memory tab_size vformat source (view_of_file P source.path o))
  unfolding view_of_file build_lock_result unlock_text source_view text_of
  opened-Returns w none h = absurd h
  opened-Returns w (some (failed error, v)) h = failed-Returns w v error h
  opened-Returns w (some (gives f, v)) h =
      gives-Returns w v (record { locked_text = in_file f; path = source.path })
        (P.get_text-IsByte memory f memory_bytes) (P.destroy_lem takes_back f v w h)

  build-Returns :
      (a : P.Answers) (w : World) → Returns w (build P memory tab_size vformat source a w)
  unfolding build lock unlock_text build_lock_result unlock Returns source_view text_of
  build-Returns a w = elim (Option-cases source.text) [
    | inl e ↦ rw (e, lock) (opened-Returns w (P.from a w) (P.from-Opens takes_back a w))
    | inr (text, e) ↦
        rw (e, lock)
          (gives-Returns w w (record { locked_text = in_memory text; path = source.path })
            (c_string-IsByte text (text_bytes text e)) (w, refl, SameResources-refl w))
  ]

  result-Returns :
      (w : World) (o : Option (List Report × World))
      → Returns w o
      → (reports : List Report) × (v : World) × (o ≡ some (reports, v)) × SameResources v w
  unfolding Returns
  result-Returns w none h = absurd h
  result-Returns w (some (reports, v)) h = (reports, v, refl, h)

  -- On one system.
  build_on_returns :
      (a : P.Answers) (w : World)
      → (reports : List Report) × (v : World) × (build P memory tab_size vformat source a w
          ≡ some (reports, v))
        × SameResources v w
  build_on_returns a w =
      result-Returns w (build P memory tab_size vformat source a w) (build-Returns a w)

-- On both systems, where the system takes back what the process holds, and the memory and the text
-- of the source hold bytes, whatever the system answers to the calls that open the source, the
-- driver returns a list of reports, and the process holds each resource as often as before: a file
-- that was locked is unmapped and closed, also where opening it failed half-way.
pub build_returns :
    (is_windows : Bool) (accepts : Accepts) (memory : ℕ → ℕ → Bytes) (tab_size : ℕ)
    (vformat : Bytes → List MessageArg → Bytes) (source : Source)
    → TakesBack accepts
    → ((addr n : ℕ) → All IsByte (memory addr n))
    → ((text : Bytes) → source.text ≡ some text → All IsByte text)
    → let P = platform is_windows accepts in
      (a : P.Answers) (w : World)
      → (reports : List Report) × (v : World) × (build P memory tab_size vformat source a w
          ≡ some (reports, v))
        × SameResources v w
build_returns true accepts memory tab_size vformat source takes_back h k =
    build_on_returns (windows accepts) memory tab_size vformat source takes_back h k
build_returns false accepts memory tab_size vformat source takes_back h k =
    build_on_returns (posix accepts) memory tab_size vformat source takes_back h k
