-- ===== src/Build/Driver.antt =====
-- The build driver with the locking of its source (cero/compile/build.cc), on any system.
use cero.Common.{ℕ, Option, none, some, List, Bytes}
use cero.Build.{build_source}
use cero.FileView.Platform.{Platform, Opened}
use cero.FileView.System.{gives, failed, World}
use cero.Report.{Report, MessageArg}
use cero.Source.Lock.{Source, LockedView, lock, source_view, unlock_text}

module _ (P : Platform) (memory : ℕ → ℕ → Bytes) (tab_size : ℕ)
    (vformat : Bytes → List MessageArg → Bytes) (source : Source) where
  -- The end of `build_source`: a lock result with a view is destroyed.
  unfoldable pub unlock : Option World → Option (List Report) → Option (List Report × World)
  unlock (some w) (some reports) = some (reports, w)
  unlock _ _ = none

  unfoldable pub build_lock_result : Opened (LockedView P) → Option (List Report × World)
  build_lock_result none = none
  build_lock_result (some (failed error, w)) =
      unlock (some w) (build_source tab_size vformat source.path (failed error))
  build_lock_result (some (gives view, w)) =
      unlock (unlock_text P view.locked_text w)
        (build_source tab_size vformat source.path (gives (source_view P memory view)))

  -- `build_source`: its reports and what the process holds when it returns. `none` is a failed
  -- assertion, an exception of the parser, or no fuel left.
  unfoldable pub build : P.Answers → World → Option (List Report × World)
  build a w = build_lock_result (lock P source a w)
