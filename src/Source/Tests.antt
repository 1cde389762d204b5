-- ===== src/Source/Tests.antt =====
-- A location in a small text (cero/syntax/source.cc).
use cero.Common.{◌+◌, codes, take, ◌≡◌, refl, arith}
use cero.Source.{SourceView, locate}
use cero.Source.Locate.{newlines, last_line, width, locate_lem}

-- The second line begins with a tab.
abbrev two_lines : SourceView
two_lines = record { text = codes "ab\n\tcd"; path = "test" }

second_line : locate two_lines 5 4 ≡ record { path = "test"; line = 2; column = 6 }
unfolding locate
second_line = refl

locate_lem_example : locate two_lines 5 4 ≡ record {
  path = two_lines.path;
  line = 1 + newlines (take 5 two_lines.text);
  column = 1 + width 4 (last_line (take 5 two_lines.text));
}
locate_lem_example = locate_lem two_lines 5 4 (omega arith) (omega arith)
