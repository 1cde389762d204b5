-- ===== src/Build/Complete.antt =====
-- That the build driver always gets through the lexer and the parser (cero/compile/build.cc).
use cero.Common.{ℕ, some, List, ◌++◌, ◌≡◌, Bytes, String, ap, All}
use cero.Ast.{AstRoot}
use cero.Build.{build_source, build_locked, reports_of}
use cero.Build.Tokens.{source-Parsed}
use cero.FileView.System.{gives}
use cero.Lexer.Comments.{no_flags}
use cero.Lexer.Lexed.Keywords.{IsByte}
use cero.Lexer.Run.{run_lexer}
use cero.Parser.Definitions.{run_parser}
use cero.Parser.State.{Parser, ok}
use cero.Report.{MessageArg}
use cero.Source.{SourceView}

-- A source of bytes that could be opened is lexed and parsed to the end, however large it is: the
-- parser returns a tree on the lexer's tokens, and the reports of the driver are all those of the
-- lexer, in their order, and behind them all those of the parser.
pub build_source_returns :
    (tab_size : ℕ) (vformat : Bytes → List MessageArg → Bytes) (path : String) (view : SourceView)
    → All IsByte view.text
    → let lexed = run_lexer (record { source = view; flags = no_flags; tab_size = tab_size }) in
      (root : AstRoot) × (p : Parser) × (run_parser
          (record { source = view; tab_size = tab_size; vformat = vformat })
          lexed.tokens
        ≡ some (ok root p))
      × (build_source tab_size vformat path (gives view) ≡ some (lexed.reports ++ p.reports))
unfolding build_source build_locked reports_of
build_source_returns tab_size vformat path view bytes =
    let (root, p, e, _) = source-Parsed tab_size vformat view bytes in
    let before =
      (run_lexer (record { source = view; flags = no_flags; tab_size = tab_size })).reports in
    (root, p, e, ap (reports_of before) e)
