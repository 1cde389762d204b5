-- ===== src/Source.antt =====
-- Source text: cero/syntax/source.hh and .cc, and the cursor of cero/syntax/source_cursor.hh.
pub mod Cursor
pub mod Locate
pub mod Lock
mod Tests
use cero.Common.{
  ℕ, ◌+◌, ◌-◌, ◌%◌, ◌^◌, Option, some, none, [], ◌∷◌, Bytes, String, ◌==◌, if◌then◌else◌, take,
  drop,
}
use cero.Report.{CodeLocation}

-- The bytes of a file or of a string given in memory, and the name it goes by.
pub record SourceView : Type 0 where
  pub text : Bytes
  pub path : String

-- `source_size_bits` and `source_size_max`.
abbrev pub source_size_bits : ℕ
source_size_bits = 24

abbrev pub source_size_max : ℕ
source_size_max = 2 ^ source_size_bits - 1

-- The loop over the range: the line reached, and the index of the last newline seen (`none` is npos).
unfoldable pub scan_lines : ℕ → ℕ → Option ℕ → Bytes → ℕ × Option ℕ
scan_lines i line last_line [] = (line, last_line)
scan_lines i line last_line (c ∷ cs) =
    scan_lines (i + 1) (if c == b'\n' then (line + 1) % 2 ^ 32 else line)
      (if c == b'\n' then some i else last_line) cs

-- `range.substr(last_line + 1)`: npos + 1 is 0.
unfoldable pub after_last_line : Option ℕ → Bytes → Bytes
after_last_line none range = range
after_last_line (some i) range = drop (i + 1) range

unfoldable pub scan_columns : ℕ → ℕ → Bytes → ℕ
scan_columns tab_size column [] = column
scan_columns tab_size column (c ∷ cs) =
    scan_columns tab_size ((column + (if c == b'\t' then tab_size else 1)) % 2 ^ 32) cs

-- `SourceView::locate`; line and column are 32-bit counters.
unfoldable pub locate : SourceView → ℕ → ℕ → CodeLocation
unfolding scan_lines after_last_line scan_columns
locate view offset tab_size =
    let range = take offset view.text in
    let (line, last_line) = scan_lines 0 1 none range in
    record {
      path = view.path;
      line = line;
      column = scan_columns tab_size 1 (after_last_line last_line range);
    }
