-- ===== src/Source/Lock.antt =====
-- Sources and their locking: `Source` of cero/syntax/source.hh and .cc, on any system.
use cero.Common.{ℕ, Option, none, some, [], ◌∷◌, Bytes, String, ◌==◌, if◌then◌else◌}
use cero.FileView.Platform.{Platform, Opened}
use cero.FileView.System.{gives, failed, World}
use cero.Source.{SourceView}

-- `text` is none for a source that comes from a file. Else it is what a `const char*` points to,
-- with its null at the end.
pub record Source : Type 0 where
  pub text : Option Bytes
  pub path : String

unfoldable pub from_file : String → Source
from_file path = record { text = none; path = path }

unfoldable pub from_string : Bytes → String → Source
from_string text name = record { text = some text; path = name }

-- A `std::string_view` of what a `const char*` points to.
unfoldable pub c_string : Bytes → Bytes
c_string [] = []
c_string (c ∷ cs) = let rest = c_string cs in if c == 0 then [] else c ∷ rest

module _ (P : Platform) where
  open P use {View, Answers, from, destroy}

  -- The members of `SourceView`: a mapped file, or the text in memory.
  pub data LockedText : Type 0 where
    in_file : View → LockedText
    in_memory : Bytes → LockedText

  pub record LockedView : Type 0 where
    pub locked_text : LockedText
    pub path : String

  -- `FileView::from(path_).transform(…)`.
  unfoldable pub view_of_file : String → Opened View → Opened LockedView
  view_of_file path none = none
  view_of_file path (some (failed e, w)) = some (failed e, w)
  view_of_file path (some (gives f, w)) =
      some (gives (record { locked_text = in_file f; path = path }), w)

  unfoldable pub lock : Source → Answers → World → Opened LockedView
  lock source a w = elim source.text [
    | none ↦ view_of_file source.path (from a w)
    | some text ↦ some (gives (record { locked_text = in_memory text; path = source.path }), w)
  ]

  -- `SourceView::get_text`, given the contents of the mapped memory.
  unfoldable pub text_of : (ℕ → ℕ → Bytes) → LockedText → Bytes
  text_of memory (in_file f) = P.get_text memory f
  text_of memory (in_memory text) = c_string text

  -- What the later stages see of the view.
  unfoldable pub source_view : (ℕ → ℕ → Bytes) → LockedView → SourceView
  source_view memory v = record { text = text_of memory v.locked_text; path = v.path }

  -- The view goes out of scope.
  unfoldable pub unlock_text : LockedText → World → Option World
  unlock_text (in_file f) w = destroy f w
  unlock_text (in_memory text) w = some w
